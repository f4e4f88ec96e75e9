-- ===== src/Scenarios/Demands.antt =====
-- A demand that is answered in the third round.
use local_ai_broker.Prelude.{◌*◌, none, some, List, [], ◌∷◌, String, ◌≡◌, refl}
use local_ai_broker.Prelude.Result.{ok}
use local_ai_broker.Service.{second}
use local_ai_broker.Demand.{
  Response, Poll, absent, answered, response_schema, validate_times, validate_ready_service,
  verify_response, answer, poll_loop,
}
use local_ai_broker.Demand.Granted.{IsGranted, poll_loop-IsGranted}
use local_ai_broker.Scenarios.Leases.{published}

abbrev signature : Response → String
signature r = "signed"

abbrev response : String → Response
response state = record {
  schema = response_schema;
  request_id = "req_1";
  signature = "signed";
  state = state;
  error = "";
  failure_category = "";
  service = some published;
  service_diagnostics = none;
}

abbrev polls : List Poll
polls =
    absent
    ∷ answered (1105 * second) (response "pending")
    ∷ answered (1110 * second) (response "ready")
    ∷ []

third_round : poll_loop signature "req_1" "p40-synthesis" (15 * second) polls ≡ ok published
unfolding poll_loop answer verify_response validate_ready_service validate_times
third_round = refl

poll_loop-IsGranted_example :
    IsGranted signature "req_1" "p40-synthesis" (15 * second) polls published
poll_loop-IsGranted_example =
    poll_loop-IsGranted signature "req_1" "p40-synthesis" (15 * second) polls published third_round
