-- ===== src/Scenarios/Leases.antt =====
-- A GPU service that is published, renewed and marked, at concrete times.
use local_ai_broker.Prelude.{
  ℕ, ◌≤◌, ◌+◌, ◌*◌, String, true, false, none, some, List, [], ◌∷◌, ◌≡◌, ◌≢◌, refl, ◌⊎◌, ltb, leb,
  ◌&&◌,
}
use local_ai_broker.Prelude.Text.{is_empty}
use local_ai_broker.Prelude.Result.{ok}
use local_ai_broker.Service.{Stamp, no_stamp, Url, many, Service, second}
use local_ai_broker.Endpoint.{endpoint_is_healthy, max_age}
use local_ai_broker.Endpoint.Published.{IsReachable, publish-healthy}
use local_ai_broker.Registry.{
  Registry, registry_schema, Publisher, Beat, publish_body, mark_body, bounded_lease_expiry,
  duration_of, serve, find_record, renew, renew_body, locked, own_record, learn_duration,
}
use local_ai_broker.Registry.Isolation.{
  publish_op, renew_op, Operation, perform, IsIsolated, perform-IsIsolated,
}
use local_ai_broker.Registry.Lease.{
  IsOwned, IsMarked, serve-IsMarked, perform_all, perform_all-IsMarked,
}

abbrev clock_text : ℕ → String
clock_text t = "2026-01-01T00:00:00+00:00"

abbrev at : ℕ → Stamp
at t = record { text = clock_text t; time = some t }

abbrev no_url : Url
no_url = record { text = ""; scheme = ""; hostname = "" }

abbrev url : Url
url = record { text = "http://gpu1:8080"; scheme = "http"; hostname = "gpu1" }

-- A reservation of the id in a state, made at 1000 seconds and due at 1300, with a lease of 600 seconds.
abbrev pub reservation : String → String → Service
reservation id state = record {
  id = id;
  tier = "p40-synthesis";
  state = state;
  healthy = none;
  health_error = "";
  failure_category = "";
  endpoint = no_url;
  base_url = no_url;
  auth_type = "";
  bearer_token = "";
  registration_token_sha256 = "hash";
  created_at = at (1000 * second);
  startup_deadline = at (1300 * second);
  heartbeat_at = no_stamp;
  lease_expires_at = at (1600 * second);
  lease_expires = no_stamp;
  absolute_lease_expires_at = no_stamp;
  last_health_check_at = no_stamp;
  capabilities = many ("chat" ∷ []);
  operations = many [];
  gpu_type = "p40";
  gpu_count = 1;
  model_profile = "small";
  model = "m";
  slurm_job_id = "17";
  job_id = "";
  context_limit_tokens = 8192;
}

abbrev publisher : Publisher
publisher = record {
  service_id = "a";
  registration_token_hash = "hash";
  lease_duration = some (600 * second);
}

abbrev pub registry_of : String → Registry
registry_of state = record {
  schema = registry_schema;
  updated_at = no_stamp;
  records = reservation "b" "starting" ∷ reservation "a" state ∷ [];
}

abbrev publish_at : ℕ → Operation
publish_at now = publish_op url "secret" "18" now

perform-IsIsolated_example :
    IsIsolated clock_text (publish_at (1100 * second)) publisher (some (registry_of "starting"))
    ⊎ ((perform clock_text
          (publish_at (1100 * second))
          publisher
          (some (registry_of "starting"))).file
        ≡ some (registry_of "starting"))
      × ((perform clock_text
            (publish_at (1100 * second))
            publisher
            (some (registry_of "starting"))).result
          ≢ ok tt)
perform-IsIsolated_example =
    perform-IsIsolated clock_text (publish_at (1100 * second)) publisher
      (some (registry_of "starting"))

abbrev pub published : Service
published = record (reservation "a" "starting") {
  state = "ready";
  endpoint = url;
  auth_type = "bearer";
  bearer_token = "secret";
  slurm_job_id = "18";
  heartbeat_at = at (1100 * second);
  lease_expires_at = at (1700 * second);
}

publish_a :
    publish_body clock_text url "secret" "18" (1100 * second) publisher (reservation "a" "starting")
    ≡ ok published
unfolding publish_body bounded_lease_expiry
publish_a = refl

a_text : (t : ℕ) → is_empty (clock_text t) ≡ false
a_text t = refl

reachable : IsReachable clock_text a_text url "secret" (reservation "a" "starting")
reachable = record {
  text = refl;
  scheme = refl;
  hostname = refl;
  token = refl;
  not_disabled = λ e. cc;
  bound = λ e. refl;
}

publish-healthy_example :
    (expiry : ℕ) × (published.lease_expires_at.time ≡ some expiry)
    × (expiry ≤ 1100 * second + duration_of publisher)
    × ((later interval : ℕ)
        → endpoint_is_healthy later interval published
          ≡ (ltb later expiry && leb later (1100 * second + max_age interval)))
publish-healthy_example =
    publish-healthy clock_text a_text url "secret" "18" (1100 * second) publisher
      (reservation "a" "starting") published publish_a reachable

abbrev pub marked : Service
marked = record published {
  state = "unhealthy";
  health_error = "CUDA error";
  failure_category = "service_failure";
  lease_expires_at = at (1200 * second);
  last_health_check_at = at (1200 * second);
}

mark_a : mark_body clock_text "CUDA error" (1200 * second) publisher published ≡ ok marked
unfolding mark_body
mark_a = refl

owned : IsOwned clock_text publisher (some (registry_of "ready"))
owned = record {
  registry = registry_of "ready";
  own = reservation "a" "ready";
  duration = 600 * second;
  existed = refl;
  schema = refl;
  found = unfold find_record in refl;
  authorized = refl;
  learnt = refl;
}

-- One renewal, and then the runtime is found dead.
abbrev beats : List Beat
beats =
    record { now = 1100 * second; runtime_alive = true; reason = ""; failed_at = 1100 * second }
    ∷ record {
      now = 1115 * second;
      runtime_alive = false;
      reason = "runtime exited";
      failed_at = 1115 * second;
    }
    ∷ []

loop_fails : (serve clock_text beats publisher (some (registry_of "ready"))).result ≢ ok tt
unfolding serve renew renew_body locked own_record learn_duration find_record bounded_lease_expiry
loop_fails h = cc

serve-IsMarked_example :
    IsMarked clock_text "a" (serve clock_text beats publisher (some (registry_of "ready"))).file
serve-IsMarked_example =
    serve-IsMarked clock_text beats publisher (some (registry_of "ready")) owned loop_fails

unhealthy-IsMarked : IsMarked clock_text "a" (some (registry_of "unhealthy"))
unhealthy-IsMarked = record {
  registry = registry_of "unhealthy";
  own = reservation "a" "unhealthy";
  existed = refl;
  found = unfold find_record in refl;
  state = refl;
}

abbrev steps : List (Publisher × Operation)
steps = (publisher, publish_at (1100 * second)) ∷ (publisher, renew_op (1110 * second)) ∷ []

perform_all-IsMarked_example :
    IsMarked clock_text "a" (perform_all clock_text steps (some (registry_of "unhealthy")))
perform_all-IsMarked_example =
    perform_all-IsMarked clock_text "a" steps (some (registry_of "unhealthy")) unhealthy-IsMarked
