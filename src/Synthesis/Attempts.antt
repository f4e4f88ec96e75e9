-- ===== src/Synthesis/Attempts.antt =====
-- The records of the attempts and the errors: `_attempt` and its neighbours in inspection_pipeline.py,
-- `endpoint_diagnostics`, `GPUServiceError` and the failure sets of gpu_client.py.
use local_ai_broker.Prelude.{
  ℕ, String, not, Option, none, some, List, [], ◌∷◌, ◌++◌, str_eq, contains, if◌then◌else◌,
}
use local_ai_broker.Prelude.Text.{or_else, lower}
use local_ai_broker.Service.{Service}

-- The non-secret fields of a service in a trace: `endpoint_diagnostics` of gpu_client.py.
pub record Diagnostics : Type 0 where
  pub tier : String
  pub job_id : String
  pub gpu_count : ℕ
  pub gpu_type : String
  pub model_profile : String

unfoldable pub endpoint_diagnostics : Service → Diagnostics
endpoint_diagnostics r = record {
  tier = r.tier;
  job_id = or_else r.slurm_job_id r.job_id;
  gpu_count = r.gpu_count;
  gpu_type = r.gpu_type;
  model_profile = r.model_profile;
}

-- `GPUServiceError`: the category is never empty.
pub record GpuError : Type 0 where
  pub category : String
  pub message : String
  pub service_diagnostics : Option Diagnostics

abbrev pub gpu_error : String → String → GpuError
gpu_error category message = record {
  category = or_else category "service_failure";
  message = message;
  service_diagnostics = none;
}

pub record Attempt : Type 0 where
  pub operation : String
  pub tier : String
  pub slurm_job_id : String
  pub gpu_count : ℕ
  pub gpu_type : String
  pub model_profile : String
  pub attempt : ℕ
  pub status : String
  pub failure_category : String
  pub escalation_reason : String

-- `_attempt`; the detail that callers pass is not kept.
unfoldable pub attempt_record : Diagnostics → String → String → String → String → ℕ → Attempt
attempt_record d operation outcome category reason number = record {
  operation = operation;
  tier = d.tier;
  slurm_job_id = d.job_id;
  gpu_count = d.gpu_count;
  gpu_type = d.gpu_type;
  model_profile = d.model_profile;
  attempt = number;
  status = outcome;
  failure_category = category;
  escalation_reason = reason;
}

abbrev pub transient_single_gpu_failures : List String
transient_single_gpu_failures = "availability" ∷ "queue_delay" ∷ "timeout" ∷ "service_failure" ∷ []

abbrev pub multigpu_failures : List String
multigpu_failures = "oom" ∷ "context_overflow" ∷ "invalid_synthesis" ∷ "model_limit" ∷ []

-- `_missing_endpoint_record`
unfoldable pub missing_endpoint_record : String → ℕ → Option GpuError → Diagnostics
missing_endpoint_record tier gpu_count none = record {
  tier = tier;
  job_id = "";
  gpu_count = gpu_count;
  gpu_type = "";
  model_profile = "";
}
missing_endpoint_record tier gpu_count (some error) = elim error.service_diagnostics [
  | some diagnostics ↦ diagnostics
  | none ↦ record {
    tier = tier;
    job_id = "";
    gpu_count = gpu_count;
    gpu_type = "";
    model_profile = "";
  }
]

-- `_unavailable_category`: the first record of the tier that says why it is not available.
unfoldable pub unavailable_category : List Service → String → String
unfolding lower
unavailable_category [] tier = "availability"
unavailable_category (r ∷ rs) tier =
    let rest = unavailable_category rs tier in
    if not (str_eq r.tier tier)
    then rest
    else if contains r.failure_category (transient_single_gpu_failures ++ multigpu_failures)
    then r.failure_category
    else if str_eq (lower r.state) "starting"
    then "queue_delay"
    else rest
