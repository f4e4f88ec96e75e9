-- ===== src/StagedJob.antt =====
-- One inspection by a worker: `run_staged_job` and `runtime_limit_reached` of
-- workers/rag-compression/inspect_repo_worker.py, as the list of what it shows to others: its heartbeats,
-- its files, the release of its slot and the notice of its completion. What the discovery of inputs, the prefetch, the caches
-- and the pipeline return are fields of the job, and so is the clock at each check. The timings that are
-- written into the payload are left out.
pub mod Protocol
use local_ai_broker.Prelude.{
  ℕ, ◌+◌, ◌*◌, String, Bool, true, false, not, Option, none, some, List, [], ◌∷◌, ◌++◌, ltb, leb,
  if◌then◌else◌, ◌&&◌,
}
use local_ai_broker.Prelude.Int.{ℤ, pos, negsuc}
use local_ai_broker.Prelude.Result.{Result, ok, raise, ◌>>=◌}
use local_ai_broker.Service.{second}
use local_ai_broker.Contract.{
  Field, missing, null, int, not_int, Constraints, ContractError, integer_expected,
  validate_request, validate_constraints,
}

pub data State : Type 0 where
  running completed failed cancelled timed_out : State

pub data Event (P : Type 0) : Type 0 where
  heartbeat : State → (phase : String) → Event P
  wrote_artifacts released_slot notified : Event P
  wrote_result : P → Event P

pub data JobError : Type 0 where
  no_input : JobError
  refused : ContractError → JobError
  other : String → JobError

pub record Prefetched (P : Type 0) : Type 0 where
  pub cached_lexical_fallback_run : Option P
  pub has_cached_query_stage : Bool
  pub requires_verification : Bool

pub data Check : Type 0 where
  discovering_inputs prefetching retrieving writing_artifacts : Check

abbrev pub phase_name : Check → String
phase_name discovering_inputs = "discovering_inputs"
phase_name prefetching = "prefetching"
phase_name retrieving = "retrieving"
phase_name writing_artifacts = "writing_artifacts"

pub record Job (P : Type 0) : Type 0 where
  pub query : String
  pub mode : String
  pub constraints : Constraints
  pub has_input_refs : Bool
  pub started : ℕ
  pub discover_inputs : Result JobError (Unit {0})
  pub clock : Check → ℕ
  pub prepare_prefetched_state : Result JobError (Prefetched P)
  pub cached_lexical_fallback_from_context : Result JobError (Option P)
  pub run_inspection : Result JobError P
  pub answer_ready : P → Bool

abbrev refusing : {A : Type 0} → Result ContractError A → Result JobError A
refusing (ok a) = ok a
refusing (raise e) = raise (refused e)

-- `int(constraints.get("max_runtime_seconds") or 0)`, with a negative number as 0: neither sets a deadline.
unfoldable pub runtime_seconds : Field → Result JobError ℕ
runtime_seconds missing = ok 0
runtime_seconds null = ok 0
runtime_seconds (int (pos n)) = ok n
runtime_seconds (int (negsuc n)) = ok 0
runtime_seconds not_int = raise (refused integer_expected)

unfoldable pub deadline_of : ℕ → ℕ → Option ℕ
deadline_of started seconds = if ltb 0 seconds then some (started + seconds * second) else none

unfoldable pub runtime_limit_reached : Option ℕ → ℕ → Bool
runtime_limit_reached none now = false
runtime_limit_reached (some deadline) now = not (ltb now deadline)

-- What a job shows, and the error that it ends with.
abbrev pub Shown : Type 0 → Type 0
Shown P = List (Event P) × Option JobError

module _ {P : Type 0} where
  -- The inputs and the request are checked; the deadline is of the clock then.
  unfoldable pub prepare : Job P → Result JobError (Option ℕ)
  prepare job =
      if not job.has_input_refs
      then raise no_input
      else refusing (validate_request job.query job.mode) >>= λ request.
          refusing (validate_constraints job.constraints request.1) >>= λ _.
          runtime_seconds job.constraints.max_runtime_seconds >>= λ seconds.
          job.discover_inputs >>= λ _. ok (deadline_of job.started seconds)

  -- `if runtime_limit_reached(...): return 0`, and what comes after it.
  unfoldable pub unless_late : Job P → Option ℕ → Check → Shown P → Shown P
  unless_late job deadline check next =
      if runtime_limit_reached deadline (job.clock check)
      then (heartbeat timed_out (phase_name check) ∷ [], none)
      else next

  abbrev pub or_raise : {A : Type 0} → Result JobError A → (A → Shown P) → Shown P
  or_raise (ok a) next = next a
  or_raise (raise e) next = ([], some e)

  abbrev pub after : List (Event P) → Shown P → Shown P
  after events (later, error) = (events ++ later, error)

  -- The cached run, or the one that the cached query stage gives.
  unfoldable pub probe : Job P → Prefetched P → Result JobError (Option P)
  probe job state = elim state.cached_lexical_fallback_run [
    | some payload ↦ ok (some payload)
    | none ↦
        if state.has_cached_query_stage && not state.requires_verification
        then job.cached_lexical_fallback_from_context
        else ok none
  ]

  unfoldable pub finish : Bool → P → Shown P
  finish daemon_mode payload = (
    wrote_artifacts ∷ (if daemon_mode then released_slot ∷ [] else [])
        ++ wrote_result payload ∷ notified ∷ heartbeat completed "completed" ∷ [],
    none,
  )

  unfoldable pub inspect : Bool → Job P → Option ℕ → Shown P
  inspect daemon_mode job deadline = after (heartbeat running "gpu_first_retrieval" ∷ []) (
      or_raise job.run_inspection (λ payload. unless_late job deadline writing_artifacts (
        after
          (if job.answer_ready payload then heartbeat running "validated_synthesis" ∷ [] else [])
          (finish daemon_mode payload))))

  unfoldable pub run_staged_job : Bool → Job P → Shown P
  run_staged_job daemon_mode job = or_raise (prepare job) (λ deadline.
      unless_late job deadline discovering_inputs (
        or_raise job.prepare_prefetched_state (λ state. unless_late job deadline prefetching (
          or_raise (probe job state) (λ cached. unless_late job deadline retrieving (elim cached [
            | some payload ↦ finish daemon_mode payload
            | none ↦ inspect daemon_mode job deadline
          ]))))))
