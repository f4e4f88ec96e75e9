-- ===== src/Scenarios/Queues.antt =====
-- A daemon with two requests in its queue, one claimed file left over, and a job for each.
use local_ai_broker.Prelude.{
  ℕ, ◌*◌, String, true, false, none, some, List, [], ◌∷◌, str_eq, sort_by, sort_insert,
  if◌then◌else◌, ◌≡◌, refl,
}
use Prim.Native.String.{◌++◌ as str_append}
use local_ai_broker.Prelude.Search.{drop_prefix, partition, occurs}
use local_ai_broker.Prelude.Text.{strip, lstrip, rstrip, lower}
use local_ai_broker.Prelude.TextOrder.{str_lt}
use local_ai_broker.Prelude.Int.{pos}
use local_ai_broker.Prelude.Result.{Result, ok}
use local_ai_broker.Service.{second}
use local_ai_broker.Contract.{
  Constraints, missing, int, validate_request, validate_constraints, check_final_pack,
  check_runtime,
}
use local_ai_broker.StagedJob.{
  Job, JobError, heartbeat, timed_out, running, Check, run_staged_job, prepare, runtime_seconds,
  deadline_of, runtime_limit_reached, unless_late, probe, finish, inspect, discovering_inputs,
  prefetching, retrieving, writing_artifacts,
}
use local_ai_broker.StagedJob.Protocol.{starting, Follows, run_staged_job-Follows}
use local_ai_broker.WarmQueue.{
  Output, Spool, Request, drop_suffix, named_request, woken, unseen, iter_warm_request_paths,
  run_request, process_warm_request, process_claimed_warm_request,
}
use local_ai_broker.WarmQueue.Slots.{IsHandled, process_warm_request-IsHandled}
use local_ai_broker.WarmQueue.Conserved.{IsClaimed, process_claimed_warm_request-IsClaimed}

abbrev no_constraints : Constraints
no_constraints = record {
  retrieval_token_budget = missing;
  retrieved_chunk_budget = missing;
  evidence_token_budget = missing;
  final_evidence_pack_budget = missing;
  final_pack_token_budget = missing;
  synthesis_context_token_budget = missing;
  remote_model_context_budget = missing;
  max_runtime_seconds = int (pos 60);
}

abbrev clock_of : ℕ → Check → ℕ
clock_of last discovering_inputs = 1 * second
clock_of last prefetching = 2 * second
clock_of last retrieving = 3 * second
clock_of last writing_artifacts = last

abbrev job : ℕ → Job ℕ
job last = record {
  query = "where is main?";
  mode = "answer";
  constraints = no_constraints;
  has_input_refs = true;
  started = 0;
  discover_inputs = ok tt;
  clock = clock_of last;
  prepare_prefetched_state = ok (record {
    cached_lexical_fallback_run = none;
    has_cached_query_stage = false;
    requires_verification = false;
  });
  cached_lexical_fallback_from_context = ok none;
  run_inspection = ok 7;
  answer_ready = λ _. true;
}

a_late_job :
    run_staged_job true (job (60 * second))
    ≡ (heartbeat running "gpu_first_retrieval" ∷ heartbeat timed_out "writing_artifacts" ∷ [], none)
unfolding run_staged_job prepare validate_request strip lstrip rstrip lower validate_constraints
    check_final_pack check_runtime runtime_seconds deadline_of runtime_limit_reached unless_late
    probe finish inspect
a_late_job = refl

run_staged_job-Follows_example : Follows true starting (run_staged_job true (job (60 * second)))
run_staged_job-Follows_example = run_staged_job-Follows true (job (60 * second))

abbrev request : String → Request ℕ
request stem = record { output_dir = str_append "out/" stem; job_spec = ok (job (59 * second)) }

abbrev contents : String → Result JobError (Request ℕ)
contents stem = ok (request stem)

abbrev idle : Output ℕ
idle = record { cancel_request = false; warm_request_marker = true; events = [] }

abbrev stopped : Output ℕ
stopped = record { cancel_request = true; warm_request_marker = true; events = [] }

abbrev spool : Spool ℕ
spool = record {
  requests = "b" ∷ "a" ∷ [];
  working = "c" ∷ [];
  busy_marker = none;
  outputs = λ dir. if str_eq dir "out/a" then stopped else idle;
}

-- A cancelled request leaves the busy marker.
busy_after_cancel : (process_warm_request contents "a" spool).0.busy_marker ≡ some "a.working"
unfolding process_warm_request run_request
busy_after_cancel = refl

process_warm_request-IsHandled_example :
    IsHandled "out/a" "a.working" spool (process_warm_request contents "a" spool).0
process_warm_request-IsHandled_example =
    process_warm_request-IsHandled contents "a" spool (request "a") (job (59 * second)) refl refl

process_claimed_warm_request-IsClaimed_example :
    IsClaimed "b" spool (process_claimed_warm_request contents "b" spool)
process_claimed_warm_request-IsClaimed_example =
    process_claimed_warm_request-IsClaimed contents "b" spool

abbrev messages : List String
messages = " b.json" ∷ "../a.json" ∷ "b.json" ∷ "a.txt" ∷ []

named_first : iter_warm_request_paths messages ("b" ∷ "a-1" ∷ "a" ∷ []) ≡ "b" ∷ "a-1" ∷ "a" ∷ []
unfolding iter_warm_request_paths woken unseen named_request strip lstrip rstrip occurs partition
    drop_prefix drop_suffix sort_by sort_insert str_lt
named_first = refl

-- A daemon with nothing to do, to which two requests and messages come.
abbrev quiet : Spool ℕ
quiet = record spool { requests = [] }

abbrev arrivals : List String
arrivals = "b" ∷ "late" ∷ []
