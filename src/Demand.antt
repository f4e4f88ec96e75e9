-- ===== src/Demand.antt =====
-- The demand of a GPU service: `verify_response`, `validate_ready_service` and the polling of
-- `request_service` in workers/rag-compression/service_control.py. The signature of a response under the
-- control token is a parameter; the files are what a poll finds, and each poll has the time at which
-- its answer is checked.
pub mod Granted
use local_ai_broker.Prelude.{
  ℕ, ◌+◌, ◌*◌, String, Bool, true, false, not, Option, none, some, List, [], ◌∷◌, str_eq, contains,
  ltb, leb, max, if◌then◌else◌, ◌||◌,
}
use local_ai_broker.Prelude.Result.{Result, ok, raise}
use local_ai_broker.Prelude.Text.{is_empty, or_else}
use local_ai_broker.Service.{Service, second, or_number}
use local_ai_broker.Synthesis.Attempts.{GpuError, gpu_error, Diagnostics}

pub record Response : Type 0 where
  pub schema : String
  pub request_id : String
  pub signature : String
  pub state : String
  pub error : String
  pub failure_category : String
  pub service : Option Service
  pub service_diagnostics : Option Diagnostics

-- What one round of the loop finds under the path of the response; a text that is JSON but no object is
-- `not_object`.
pub data Poll : Type 0 where
  absent unreadable not_object : Poll
  answered : (now : ℕ) → Response → Poll

abbrev pub response_schema : String
response_schema = "gpu_service_demand_response_v1"

abbrev fails : String → String → {A : Type 0} → Result GpuError A
fails category message = raise (gpu_error category message)

-- `max(1.0, float(health_interval_seconds or 30)) * 3`
abbrev pub demand_age : ℕ → ℕ
demand_age interval = max second (or_number interval (30 * second)) * 3

abbrev pub is_incomplete : Service → Bool
is_incomplete r =
    is_empty r.endpoint.text
    || is_empty r.model_profile
    || is_empty r.model
    || is_empty r.heartbeat_at.text
    || is_empty r.lease_expires_at.text

-- From the check of the lease on.
unfoldable pub validate_times : ℕ → ℕ → Service → Result GpuError Service
validate_times now interval r = elim r.lease_expires_at.time [
  | none ↦ fails "availability" "GPU demand response service lease is expired"
  | some lease ↦
      if leb lease now
      then fails "availability" "GPU demand response service lease is expired"
      else elim r.heartbeat_at.time [
        | none ↦ fails "service_failure" "GPU demand response heartbeat is invalid"
        | some heartbeat ↦
            if ltb (heartbeat + demand_age interval) now
            then fails "service_failure" "GPU demand response heartbeat is stale"
            else ok (record r { state = "ready" })
      ]
]

unfoldable pub validate_ready_service : ℕ → ℕ → String → Option Service → Result GpuError Service
validate_ready_service now interval tier none =
    fails "service_failure" "GPU demand response returned the wrong tier"
validate_ready_service now interval tier (some r) =
    if not (str_eq r.tier tier)
    then fails "service_failure" "GPU demand response returned the wrong tier"
    else if is_incomplete r
    then fails "service_failure" "GPU demand response returned an incomplete service record"
    else if not (str_eq r.auth_type "bearer") || is_empty r.bearer_token
    then fails "authentication" "GPU demand response is missing bearer authentication"
    else validate_times now interval r

-- The failure that a response reports.
unfoldable pub failed_response : String → Response → GpuError
failed_response tier r =
    let reported : GpuError = record {
      category = or_else r.failure_category "service_failure";
      message = or_else r.error "GPU service demand failed";
      service_diagnostics = r.service_diagnostics;
    } in
    elim r.service_diagnostics [
      | none ↦ reported
      | some d ↦
          if str_eq d.tier tier
          then reported
          else gpu_error "service_failure" "GPU demand failure diagnostics returned the wrong tier"
    ]

module _ (response_signature : Response → String) (request_id tier : String) (interval : ℕ) where
  -- The error of `verify_response`, if there is one.
  unfoldable pub verify_response : Response → Option GpuError
  verify_response r =
      if not (str_eq r.schema response_schema)
      then some (gpu_error "service_failure" "GPU demand response has an invalid schema")
      else if not (str_eq r.request_id request_id)
      then some (gpu_error "service_failure" "GPU demand response request id does not match")
      else if is_empty r.signature || not (str_eq r.signature (response_signature r))
      then some (gpu_error "authentication" "GPU demand response signature is invalid")
      else none

  -- What a response says: an end of the demand, or none to poll again.
  unfoldable pub answer : ℕ → Response → Option (Result GpuError Service)
  answer now r = elim (verify_response r) [
    | some e ↦ some (raise e)
    | none ↦
        if str_eq r.state "ready"
        then some (validate_ready_service now interval tier r.service)
        else if str_eq r.state "failed"
        then some (raise (failed_response tier r))
        else if contains r.state ("pending" ∷ "launching" ∷ [])
        then none
        else some (fails "service_failure" "GPU demand response has an invalid state")
  ]

  -- The loop over the rounds before the deadline.
  unfoldable pub poll_loop : List Poll → Result GpuError Service
  poll_loop [] = fails "queue_delay" "GPU service demand exceeded its startup deadline"
  poll_loop (absent ∷ polls) = poll_loop polls
  poll_loop (unreadable ∷ polls) = fails "service_failure" "GPU demand response could not be read"
  poll_loop (not_object ∷ polls) =
      fails "service_failure" "GPU demand response has an invalid schema"
  poll_loop (answered now r ∷ polls) =
      let rest = poll_loop polls in elim (answer now r) [ none ↦ rest | some ended ↦ ended ]
