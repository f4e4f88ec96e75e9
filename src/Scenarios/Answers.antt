-- ===== src/Scenarios/Answers.antt =====
-- A synthesis whose first reply cites evidence that was not released.
use local_ai_broker.Prelude.{
  ℕ, zero, suc, ◌+◌, ◌*◌, String, none, some, [], ◌∷◌, ◌≡◌, refl, sort_by,
}
use local_ai_broker.Prelude.Text.{strip, lstrip, rstrip, lower}
use local_ai_broker.Prelude.Result.{Result, ok}
use local_ai_broker.Service.{second}
use local_ai_broker.Endpoint.{
  select_endpoint, is_candidate, endpoint_capabilities, canonical, endpoint_is_healthy, is_current,
  effective_lease_expiry, max_age,
}
use local_ai_broker.Synthesis.Attempts.{
  GpuError, unavailable_category, attempt_record, endpoint_diagnostics,
}
use local_ai_broker.Synthesis.Validation.{
  Json, Reply, object, Synthesis, validate_synthesis, check_object, check_findings, check_finding,
  unique_from,
}
use local_ai_broker.Synthesis.Tiers.{
  Callbacks, Session, Task, synthesize_with_escalation, try_synthesis_tier, try_numbers, try_once,
  accept_reply, resolve_or_request_endpoint, select_in, report_warm_service_failure,
  effective_limit,
}
use local_ai_broker.Synthesis.Grounded.{IsGrounded, validate_synthesis-IsGrounded}
use local_ai_broker.Synthesis.Escalation.{Climbs, synthesize_with_escalation-Climbs}
use local_ai_broker.Synthesis.Released.{IsReleased, synthesize_with_escalation-IsReleased}
use local_ai_broker.Scenarios.Leases.{published}

abbrev json : Json
json = record {
  mentioned_refs = λ reply. "ev_001" ∷ [];
  synthesis_length = λ s. 120;
  messages_length = λ m. 600;
}

abbrev reply_citing : String → Reply
reply_citing id = object (some " It returns 1. ") (
    some
      (some (record { summary = some "main returns 1"; evidence_refs = some (id ∷ id ∷ []) }) ∷ []))

abbrev synthesis : Synthesis
synthesis = record {
  answer = "It returns 1.";
  findings = record { summary = "main returns 1"; evidence_refs = "ev_001" ∷ [] } ∷ [];
}

validate_reply : validate_synthesis json (reply_citing "ev_001") ("ev_001" ∷ []) 64 ≡ ok synthesis
unfolding validate_synthesis check_object check_findings check_finding unique_from strip lstrip
    rstrip
validate_reply = refl

validate_synthesis-IsGrounded_example :
    IsGrounded json (reply_citing "ev_001") ("ev_001" ∷ []) 64 synthesis
validate_synthesis-IsGrounded_example =
    validate_synthesis-IsGrounded json (reply_citing "ev_001") ("ev_001" ∷ []) 64 synthesis
      validate_reply

-- The world counts the chats. The first reply cites an unknown id, the later ones the released one.
abbrev chat_at : ℕ → Result GpuError Reply
chat_at zero = ok (reply_citing "ev_999")
chat_at (suc n) = ok (reply_citing "ev_001")

abbrev pub callbacks : Callbacks ℕ
callbacks = record {
  clock = λ w. 1110 * second;
  service_requester = none;
  chat = λ w service messages. (chat_at w, w + 1);
  failure_reporter = none;
}

abbrev pub task : Task
task = record {
  query = "what does main return";
  evidence_ids = "ev_001" ∷ [];
  budgets = record {
    retrieval_token_budget = 24000;
    evidence_token_budget = 9000;
    final_pack_token_budget = 9000;
    synthesis_context_token_budget = 16000;
  };
  synthesis_output_token_budget = 0;
  health_interval = 15 * second;
}

abbrev session : Session ℕ
session = record { world = 0; services = published ∷ []; attempts = [] }

second_try_succeeds : (synthesize_with_escalation json callbacks task session).0.0 ≡ some synthesis
unfolding synthesize_with_escalation try_synthesis_tier try_numbers try_once accept_reply
    resolve_or_request_endpoint select_in select_endpoint is_candidate sort_by endpoint_capabilities
    canonical endpoint_is_healthy is_current effective_lease_expiry max_age
    report_warm_service_failure effective_limit unavailable_category attempt_record
    endpoint_diagnostics validate_synthesis check_object check_findings check_finding unique_from
    strip lstrip rstrip lower
second_try_succeeds = refl

synthesize_with_escalation-Climbs_example :
    Climbs json callbacks task [] (synthesize_with_escalation json callbacks task session)
synthesize_with_escalation-Climbs_example =
    synthesize_with_escalation-Climbs json callbacks task session

synthesize_with_escalation-IsReleased_example :
    IsReleased json task (synthesize_with_escalation json callbacks task session).0.1 synthesis
synthesize_with_escalation-IsReleased_example =
    synthesize_with_escalation-IsReleased json callbacks task session synthesis second_try_succeeds
