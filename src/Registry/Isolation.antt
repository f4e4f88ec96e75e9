-- ===== src/Registry/Isolation.antt =====
-- What an operation of the publisher does to the registry file as a whole.
use mathlib.Core.List.{map}
use local_ai_broker.Prelude.{
  ℕ, String, ◌≡◌, ◌≢◌, refl, ◌∙◌, none, some, List, [], ◌∷◌, str_eq, eq_iff, arith, inl, inr,
  Bool-cases, ◌⊎◌,
}
use local_ai_broker.Prelude.Result.{Result, ok, Result-cases}
use local_ai_broker.Service.{Url, Service}
use local_ai_broker.Registry.{
  Registry, registry_schema, RegistryError, Publisher, find_record, replace_record, own_record,
  learn_duration, Outcome, File, locked, publish_body, publish, renew_body, renew, mark_body,
  mark_unhealthy,
}

-- The three operations with their arguments.
pub data Operation : Type 0 where
  publish_op : (endpoint : Url) (bearer_token slurm_job_id : String) (now : ℕ) → Operation
  renew_op : (now : ℕ) → Operation
  mark_op : (reason : String) (now : ℕ) → Operation

module _ (iso : ℕ → String) where
  unfoldable pub perform : Operation → Publisher → File → Outcome
  perform (publish_op endpoint bearer_token slurm_job_id now) =
      publish iso endpoint bearer_token slurm_job_id now
  perform (renew_op now) = renew iso now
  perform (mark_op reason now) = mark_unhealthy iso reason now

  unfoldable pub body : Operation → Publisher → Service → Result RegistryError Service
  body (publish_op endpoint bearer_token slurm_job_id now) =
      publish_body iso endpoint bearer_token slurm_job_id now
  body (renew_op now) = renew_body iso now
  body (mark_op reason now) = mark_body iso reason now

  abbrev pub time_of : Operation → ℕ
  time_of (publish_op endpoint bearer_token slurm_job_id now) = now
  time_of (renew_op now) = now
  time_of (mark_op reason now) = now

  perform-locked :
      (op : Operation) (p : Publisher) (f : File)
      → perform op p f ≡ locked iso (body op) (time_of op) p f
  unfolding publish renew mark_unhealthy perform body
  perform-locked (publish_op endpoint bearer_token slurm_job_id now) p f = refl
  perform-locked (renew_op now) p f = refl
  perform-locked (mark_op reason now) p f = refl

  -- A run of `_locked` that did not raise, in its parts.
  pub record IsLocked (b : Publisher → Service → Result RegistryError Service) (now : ℕ)
      (p : Publisher) (f : File) : Type 0 where
    pub before : Registry
    pub publisher : Publisher
    pub old : Service
    pub new : Service
    pub existed : f ≡ some before
    pub done : (locked iso b now p f).result ≡ ok tt
    pub owned : own_record p before.records ≡ ok (publisher, old)
    pub changed : b publisher old ≡ ok new
    pub after :
        (locked iso b now p f).file
        ≡ some (record before {
          records = replace_record p.service_id new before.records;
          updated_at = record { text = iso now; time = some now };
        })

  pub locked_cases :
      (b : Publisher → Service → Result RegistryError Service) (now : ℕ) (p : Publisher) (f : File)
      → IsLocked b now p f
        ⊎ ((locked iso b now p f).file ≡ f) × ((locked iso b now p f).result ≢ ok tt)
  unfolding locked
  locked_cases b now p none = inr (refl, λ h. ground arith)
  locked_cases b now p (some registry) =
      elim (Bool-cases (str_eq registry.schema registry_schema)) [
        | inr other ↦ inr (ground arith, λ h. ground arith)
        | inl same ↦ elim (Result-cases (own_record p registry.records)) [
          | inr (e, denied) ↦ inr (ground arith, λ h. ground arith)
          | inl ((q, r), owned) ↦ elim (Result-cases (b q r)) [
            | inr (e, refused) ↦ inr (ground arith, λ h. ground arith)
            | inl (new, changed) ↦ inl (record {
              before = registry;
              publisher = q;
              old = r;
              new = new;
              existed = refl;
              done = ground arith;
              owned = owned;
              changed = changed;
              after = ground arith;
            })
          ]
        ]
      ]

pub find-id :
    (id : String) (rs : List Service) (r : Service) → find_record id rs ≡ some r → r.id ≡ id
unfolding find_record
find-id id [] r h = cc
find-id id (x ∷ rs) r h = ground (arith, eq_iff x.id id, find-id id rs r)

pub find-replace_ne :
    (j id : String) (new : Service) (rs : List Service)
    → new.id ≡ id
    → j ≢ id
    → find_record j (replace_record id new rs) ≡ find_record j rs
unfolding find_record replace_record
find-replace_ne j id new [] e h = refl
find-replace_ne j id new (x ∷ rs) e h =
    ground (arith, eq_iff x.id id, eq_iff x.id j, eq_iff new.id j, find-replace_ne j id new rs)

pub find-replace_self :
    (id : String) (new old : Service) (rs : List Service)
    → new.id ≡ id
    → find_record id rs ≡ some old
    → find_record id (replace_record id new rs) ≡ some new
unfolding find_record replace_record
find-replace_self id new old [] e h = cc
find-replace_self id new old (x ∷ rs) e h =
    ground (arith, eq_iff x.id id, eq_iff new.id id, find-replace_self id new old rs)

abbrev pub ids : List Service → List String
ids rs = map (λ r. r.id) rs

ids-replace :
    (id : String) (new : Service) (rs : List Service)
    → new.id ≡ id
    → ids (replace_record id new rs) ≡ ids rs
unfolding replace_record
ids-replace id new [] e = refl
ids-replace id new (x ∷ rs) e = ground (arith, eq_iff x.id id, ids-replace id new rs)

learn_duration-id :
    (p q : Publisher) (r : Service) → learn_duration p r ≡ ok q → q.service_id ≡ p.service_id
unfolding learn_duration
learn_duration-id p q r h = ground arith

own_record-finds :
    (p q : Publisher) (rs : List Service) (r : Service)
    → own_record p rs ≡ ok (q, r)
    → (find_record p.service_id rs ≡ some r)
      × (r.registration_token_sha256 ≡ p.registration_token_hash)
      × (q.service_id ≡ p.service_id)
unfolding own_record
own_record-finds p q rs r h =
    ground
      (arith, eq_iff r.registration_token_sha256 p.registration_token_hash, learn_duration-id p q r)

module _ (iso : ℕ → String) where
  body-id :
      (op : Operation) (q : Publisher) (r new : Service) → body iso op q r ≡ ok new → new.id ≡ r.id
  unfolding body publish_body renew_body mark_body
  body-id (publish_op endpoint bearer_token slurm_job_id now) q r new h = ground arith
  body-id (renew_op now) q r new h = ground arith
  body-id (mark_op reason now) q r new h = ground arith

  -- What a successful operation leaves: its own record is found under its id, every other id finds what
  -- it found, and the ids of the records stand in the same order.
  pub record IsIsolated (op : Operation) (p : Publisher) (f : File) : Type 0 where
    pub before : Registry
    pub after : Registry
    pub old : Service
    pub new : Service
    pub learnt : Publisher
    pub existed : f ≡ some before
    pub written : (perform iso op p f).file ≡ some after
    pub owned : find_record p.service_id before.records ≡ some old
    pub authorized : old.registration_token_sha256 ≡ p.registration_token_hash
    pub changed : body iso op learnt old ≡ ok new
    pub renewed : find_record p.service_id after.records ≡ some new
    pub others :
        (id : String)
        → id ≢ p.service_id
        → find_record id after.records ≡ find_record id before.records
    pub order : ids after.records ≡ ids before.records

  -- An operation either leaves the registry file as it was and raises, or the file held a record of its id
  -- whose registration token is the publisher's, and then every other id finds the record that it found
  -- before.
  pub perform-IsIsolated :
      (op : Operation) (p : Publisher) (f : File)
      → IsIsolated op p f ⊎ ((perform iso op p f).file ≡ f) × ((perform iso op p f).result ≢ ok tt)
  perform-IsIsolated op p f = elim (locked_cases iso (body iso op) (time_of iso op) p f) [
    | inr failed ↦ rw (perform-locked iso op p f) (inr failed)
    | inl l ↦
        let (found, authorized, same) =
          own_record-finds p l.publisher l.before.records l.old l.owned in
        let kept =
          body-id op l.publisher l.old l.new l.changed
          ∙ find-id p.service_id l.before.records l.old found in
        inl (record {
          before = l.before;
          after = record l.before {
            records = replace_record p.service_id l.new l.before.records;
            updated_at = record { text = iso (time_of iso op); time = some (time_of iso op) };
          };
          old = l.old;
          new = l.new;
          learnt = l.publisher;
          existed = l.existed;
          written = rw (perform-locked iso op p f) l.after;
          owned = found;
          authorized = authorized;
          changed = l.changed;
          renewed = find-replace_self p.service_id l.new l.old l.before.records kept found;
          others = λ id other. find-replace_ne id p.service_id l.new l.before.records kept other;
          order = ids-replace p.service_id l.new l.before.records kept;
        })
  ]
