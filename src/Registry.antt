-- ===== src/Registry.antt =====
-- The lease publisher of a GPU service: `RegistryPublisher` and the lease loop of `run` in
-- workers/gpu-service/main.py. The registry file is a value, none while it does not exist; a write
-- happens only where the body of `_locked` does not raise.
pub mod Isolation
pub mod Lease
use local_ai_broker.Prelude.{
  ℕ, ◌+◌, ◌-◌, String, Bool, true, false, not, Option, none, some, List, [], ◌∷◌, str_eq, ltb, leb,
  min, max, if◌then◌else◌, take,
}
use local_ai_broker.Prelude.Result.{Result, ok, raise}
use local_ai_broker.Prelude.Text.{is_empty, or_else}
use local_ai_broker.Service.{Stamp, Url, Service, year_two, second}

abbrev pub registry_schema : String
registry_schema = "gpu_service_registry_v1"

pub record Registry : Type 0 where
  pub schema : String
  pub updated_at : Stamp
  pub records : List Service

pub data RegistryError : Type 0 where
  missing_registry unsupported_schema registration_denied reservation_not_found : RegistryError
  not_publishable not_ready bad_time runtime_exited : RegistryError

pub record Publisher : Type 0 where
  pub service_id : String
  pub registration_token_hash : String
  pub lease_duration : Option ℕ

-- The first record with the id, and the records with that one replaced.
unfoldable pub find_record : String → List Service → Option Service
find_record id [] = none
find_record id (r ∷ rs) = let rest = find_record id rs in if str_eq r.id id then some r else rest

unfoldable pub replace_record : String → Service → List Service → List Service
replace_record id new [] = []
replace_record id new (r ∷ rs) =
    let rest = replace_record id new rs in if str_eq r.id id then new ∷ rs else r ∷ rest

-- `parse_time` raises where the text is no time.
abbrev pub parse_time : Stamp → Result RegistryError ℕ
parse_time stamp = elim stamp.time [ none ↦ raise bad_time | some t ↦ ok t ]

-- `_record`: the publisher after it, which may have learnt its lease duration, and the record.
unfoldable pub learn_duration : Publisher → Service → Result RegistryError Publisher
learn_duration p r = elim p.lease_duration [
  | some duration ↦ ok p
  | none ↦ elim r.created_at.time [
    | none ↦ raise bad_time
    | some created ↦ elim r.lease_expires_at.time [
      | none ↦ raise bad_time
      | some expires ↦ ok (record p { lease_duration = some (max second (expires - created)) })
    ]
  ]
]

unfoldable pub own_record : Publisher → List Service → Result RegistryError (Publisher × Service)
own_record p records = elim (find_record p.service_id records) [
  | none ↦ raise reservation_not_found
  | some r ↦
      if not (str_eq r.registration_token_sha256 p.registration_token_hash)
      then raise registration_denied
      else elim (learn_duration p r) [ ok q ↦ ok (q, r) | raise e ↦ raise e ]
]

-- `_bounded_lease_expiry`: the zero time of Go stands for no bound.
unfoldable pub bounded_lease_expiry : Service → ℕ → Result RegistryError ℕ
bounded_lease_expiry r candidate =
    if is_empty r.absolute_lease_expires_at.text
    then ok candidate
    else elim r.absolute_lease_expires_at.time [
      | none ↦ raise bad_time
      | some absolute ↦ if ltb absolute year_two then ok candidate else ok (min candidate absolute)
    ]

-- `self.lease_duration`, which `_record` has set.
abbrev pub duration_of : Publisher → ℕ
duration_of p = elim p.lease_duration [ none ↦ 0 | some duration ↦ duration ]

abbrev pub File : Type 0
File = Option Registry

-- What a method leaves: the file, the publisher, and whether it raised.
pub record Outcome : Type 0 where
  pub file : File
  pub publisher : Publisher
  pub result : Result RegistryError (Unit {0})

-- One round of the loop of `run`, after `stop.wait` timed out.
pub record Beat : Type 0 where
  pub now : ℕ
  pub runtime_alive : Bool
  pub reason : String
  pub failed_at : ℕ

-- `iso` is the text of an instant, as `isoformat` writes it; reading it back gives the instant.
module _ (iso : ℕ → String) where
  abbrev pub format_time : ℕ → Stamp
  format_time t = record { text = iso t; time = some t }

  -- `with self._locked() as registry: record = self._record(registry); …`, for a body that changes the
  -- record; `now` is also the time of the write.
  unfoldable pub locked :
      (Publisher → Service → Result RegistryError Service) → ℕ → Publisher → File → Outcome
  locked body now p none = record { file = none; publisher = p; result = raise missing_registry }
  locked body now p (some registry) =
      let unchanged = λ (q : Publisher) (e : RegistryError).
        let o : Outcome = record { file = some registry; publisher = q; result = raise e } in o in
      if not (str_eq registry.schema registry_schema)
      then unchanged p unsupported_schema
      else elim (own_record p registry.records) [
        | raise e ↦ unchanged p e
        | ok (q, r) ↦ elim (body q r) [
          | raise e ↦ unchanged q e
          | ok new ↦ record {
            file = some (record registry {
              records = replace_record p.service_id new registry.records;
              updated_at = format_time now;
            });
            publisher = q;
            result = ok tt;
          }
        ]
      ]

  unfoldable pub publish_body :
      Url → String → String → ℕ → Publisher → Service → Result RegistryError Service
  unfolding bounded_lease_expiry
  publish_body endpoint bearer_token slurm_job_id now p r =
      if not (str_eq r.state "starting")
      then raise not_publishable
      else elim r.startup_deadline.time [
        | none ↦ raise bad_time
        | some deadline ↦
            if leb deadline now
            then raise not_publishable
            else elim (bounded_lease_expiry r (now + duration_of p)) [
              | raise e ↦ raise e
              | ok expiry ↦ ok (record r {
                state = "ready";
                endpoint = endpoint;
                auth_type = "bearer";
                bearer_token = bearer_token;
                slurm_job_id = or_else slurm_job_id r.slurm_job_id;
                heartbeat_at = format_time now;
                lease_expires_at = format_time expiry;
                health_error = "";
                failure_category = "";
              })
            ]
      ]

  unfoldable pub publish : Url → String → String → ℕ → Publisher → File → Outcome
  publish endpoint bearer_token slurm_job_id now =
      locked (publish_body endpoint bearer_token slurm_job_id now) now

  unfoldable pub renew_body : ℕ → Publisher → Service → Result RegistryError Service
  unfolding bounded_lease_expiry
  renew_body now p r =
      if not (str_eq r.state "ready")
      then raise not_ready
      else elim (bounded_lease_expiry r (now + duration_of p)) [
        | raise e ↦ raise e
        | ok expiry ↦
            ok (record r { heartbeat_at = format_time now; lease_expires_at = format_time expiry })
      ]

  unfoldable pub renew : ℕ → Publisher → File → Outcome
  renew now = locked (renew_body now) now

  -- `reason` stands for the first thousand characters of the exception's text.
  unfoldable pub mark_body : String → ℕ → Publisher → Service → Result RegistryError Service
  mark_body reason now p r = ok (record r {
    state = "unhealthy";
    health_error = reason;
    failure_category = "service_failure";
    lease_expires_at = format_time now;
    last_health_check_at = format_time now;
  })

  unfoldable pub mark_unhealthy : String → ℕ → Publisher → File → Outcome
  mark_unhealthy reason now = locked (mark_body reason now) now

  -- The loop of `run` over the rounds until the stop: a dead runtime or a refused renewal ends it, and the
  -- service is marked unhealthy, with whatever that raises suppressed.
  unfoldable pub serve : List Beat → Publisher → File → Outcome
  serve [] p file = record { file = file; publisher = p; result = ok tt }
  serve (b ∷ beats) p file =
      let failed = λ (q : Publisher) (f : File) (e : RegistryError).
        let marked = mark_unhealthy b.reason b.failed_at q f in
        let o : Outcome = record {
          file = marked.file;
          publisher = marked.publisher;
          result = raise e;
        } in
        o in
      if not b.runtime_alive
      then failed p file runtime_exited
      else elim (renew b.now p file).result [
        | raise e ↦ failed (renew b.now p file).publisher (renew b.now p file).file e
        | ok _ ↦ serve beats (renew b.now p file).publisher (renew b.now p file).file
      ]
