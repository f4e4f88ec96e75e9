-- ===== src/Registry/Lease.antt =====
-- The life of one reservation: which states follow which, and how the lease loop of `run` ends.
use local_ai_broker.Prelude.{
  ℕ, String, ◌≡◌, ◌≢◌, refl, sym, ◌∙◌, ap, true, some, List, [], ◌∷◌, str_eq, eq_iff, arith, inl,
  inr, Bool-cases,
}
use local_ai_broker.Prelude.Result.{Result, ok, raise, Result-cases}
use local_ai_broker.Service.{Service}
use local_ai_broker.Registry.{
  Registry, registry_schema, RegistryError, Publisher, find_record, replace_record, own_record,
  learn_duration, File, locked, publish_body, renew_body, renew, mark_body, mark_unhealthy, Beat,
  serve,
}
use local_ai_broker.Registry.Isolation.{
  Operation, publish_op, renew_op, mark_op, body, perform, perform-IsIsolated, find-id,
  find-replace_self,
}

-- The states that an operation leads from and to.
data Moves : String → String → Type 0 where
  published : {s t : String} → s ≡ "starting" → t ≡ "ready" → Moves s t
  kept : {s t : String} → s ≡ "ready" → t ≡ "ready" → Moves s t
  marked : {s t : String} → t ≡ "unhealthy" → Moves s t

module _ (iso : ℕ → String) where
  body-Moves :
      (op : Operation) (q : Publisher) (r new : Service)
      → body iso op q r ≡ ok new
      → Moves r.state new.state
  unfolding body publish_body renew_body mark_body
  body-Moves (publish_op endpoint bearer_token slurm_job_id now) q r new h =
      published (ground (arith, eq_iff r.state "starting")) (ground arith)
  body-Moves (renew_op now) q r new h =
      kept (ground (arith, eq_iff r.state "ready")) (ground (arith, eq_iff r.state "ready"))
  body-Moves (mark_op reason now) q r new h = marked (ground arith)

  Moves-unhealthy : {s t : String} → Moves s t → s ≡ "unhealthy" → t ≡ "unhealthy"
  Moves-unhealthy (published a b) h = cc (ap (λ s. str_eq s "starting") (sym a ∙ h))
  Moves-unhealthy (kept a b) h = cc
  Moves-unhealthy (marked e) h = e

  -- The publisher's record is there, is its own, and its lease duration is known.
  pub record IsOwned (p : Publisher) (f : File) : Type 0 where
    pub registry : Registry
    pub own : Service
    pub duration : ℕ
    pub existed : f ≡ some registry
    pub schema : str_eq registry.schema registry_schema ≡ true
    pub found : find_record p.service_id registry.records ≡ some own
    pub authorized : str_eq own.registration_token_sha256 p.registration_token_hash ≡ true
    pub learnt : p.lease_duration ≡ some duration

  own_record-owned :
      (p : Publisher) (f : File) (o : IsOwned p f) → own_record p o.registry.records ≡ ok (p, o.own)
  unfolding own_record learn_duration
  own_record-owned p f o = ground (arith, o.found, o.authorized, o.learnt)

  -- What `_locked` does for a publisher that owns its record.
  locked-changed :
      (b : Publisher → Service → Result RegistryError Service) (now : ℕ) (p : Publisher) (f : File)
      (o : IsOwned p f) (new : Service)
      → b p o.own ≡ ok new
      → locked iso b now p f ≡ record {
        file = some (record o.registry {
          records = replace_record p.service_id new o.registry.records;
          updated_at = record { text = iso now; time = some now };
        });
        publisher = p;
        result = ok tt;
      }
  unfolding locked
  locked-changed b now p f o new h =
      ap (locked iso b now p) o.existed ∙ ground (arith, own_record-owned p f o, o.schema, h)

  locked-refused :
      (b : Publisher → Service → Result RegistryError Service) (now : ℕ) (p : Publisher) (f : File)
      (o : IsOwned p f) (e : RegistryError)
      → b p o.own ≡ raise e
      → locked iso b now p f ≡ record { file = f; publisher = p; result = raise e }
  unfolding locked
  locked-refused b now p f o e h =
      ap (locked iso b now p) o.existed
      ∙ ground (arith, own_record-owned p f o, o.schema, h, o.existed)

  replaced-IsOwned :
      (p : Publisher) (f : File) (o : IsOwned p f) (new : Service) (now : ℕ)
      → new.id ≡ o.own.id
      → new.registration_token_sha256 ≡ o.own.registration_token_sha256
      → IsOwned p (
          some (record o.registry {
            records = replace_record p.service_id new o.registry.records;
            updated_at = record { text = iso now; time = some now };
          }))
  replaced-IsOwned p f o new now i t = record {
    registry = record o.registry {
      records = replace_record p.service_id new o.registry.records;
      updated_at = record { text = iso now; time = some now };
    };
    own = new;
    duration = o.duration;
    existed = refl;
    schema = o.schema;
    found =
        find-replace_self p.service_id new o.own o.registry.records
          (i ∙ find-id p.service_id o.registry.records o.own o.found) o.found;
    authorized = rw t o.authorized;
    learnt = o.learnt;
  }

  renew_body-keeps :
      (now : ℕ) (p : Publisher) (r new : Service)
      → renew_body iso now p r ≡ ok new
      → (new.id ≡ r.id) × (new.registration_token_sha256 ≡ r.registration_token_sha256)
  unfolding renew_body
  renew_body-keeps now p r new h = ground arith

  -- The record of a file under an id is there and marked.
  pub record IsMarked (id : String) (f : File) : Type 0 where
    pub registry : Registry
    pub own : Service
    pub existed : f ≡ some registry
    pub found : find_record id registry.records ≡ some own
    pub state : own.state ≡ "unhealthy"

  mark_unhealthy-IsMarked :
      (reason : String) (now : ℕ) (p : Publisher) (f : File)
      → IsOwned p f
      → IsMarked p.service_id (mark_unhealthy iso reason now p f).file
  unfolding mark_unhealthy
  mark_unhealthy-IsMarked reason now p f o =
      elim (Result-cases (mark_body iso reason now p o.own)) [
        | inr (e, h) ↦ absurd (unfold mark_body in cc h)
        | inl (new, h) ↦ rw (locked-changed (mark_body iso reason now) now p f o new h) (record {
          registry = record o.registry {
            records = replace_record p.service_id new o.registry.records;
            updated_at = record { text = iso now; time = some now };
          };
          own = new;
          existed = refl;
          found =
              find-replace_self p.service_id new o.own o.registry.records
                (unfold mark_body in
                  ground (arith, find-id p.service_id o.registry.records o.own o.found))
                o.found;
          state = unfold mark_body in ground arith;
        })
      ]

  -- A renewal leaves the record the publisher's own, whether it succeeds or not.
  record IsRenewed (now : ℕ) (p : Publisher) (f : File) : Type 0 where
    same : (renew iso now p f).publisher ≡ p
    owned : IsOwned p (renew iso now p f).file

  renew-IsRenewed : (now : ℕ) (p : Publisher) (f : File) → IsOwned p f → IsRenewed now p f
  renew-IsRenewed now p f o = elim (Result-cases (renew_body iso now p o.own)) [
    | inr (e, h) ↦
        let r = locked-refused (renew_body iso now) now p f o e h in
        record { same = unfold renew in ap (λ x. x.publisher) r; owned = unfold renew in rw r o }
    | inl (new, h) ↦
        let r = locked-changed (renew_body iso now) now p f o new h in
        let (i, t) = renew_body-keeps now p o.own new h in
        record {
          same = unfold renew in ap (λ x. x.publisher) r;
          owned = unfold renew in rw r (replaced-IsOwned p f o new now i t);
        }
  ]

  -- A lease loop over an own record that ends with an error, because the runtime died or a renewal was
  -- refused, leaves the record marked unhealthy.
  pub serve-IsMarked :
      (beats : List Beat) (p : Publisher) (f : File)
      → IsOwned p f
      → (serve iso beats p f).result ≢ ok tt
      → IsMarked p.service_id (serve iso beats p f).file
  unfolding serve
  serve-IsMarked [] p f o failed = absurd (failed refl)
  serve-IsMarked (b ∷ beats) p f o failed = elim (Bool-cases b.runtime_alive) [
    | inr dead ↦ rw (dead, serve) (mark_unhealthy-IsMarked b.reason b.failed_at p f o)
    | inl alive ↦
        let n = renew-IsRenewed b.now p f o in
        elim (Result-cases (renew iso b.now p f).result) [
          | inr (e, refused) ↦
              rw (alive, refused, serve)
                (rw n.same (mark_unhealthy-IsMarked b.reason b.failed_at p _ n.owned))
          | inl (u, renewed) ↦
              rw (alive, renewed, serve)
                (rw n.same
                  (serve-IsMarked beats p _ n.owned (rw (alive, renewed, serve, n.same) at failed)))
        ]
  ]

  -- The file after each publisher of a list has performed its operation.
  pub perform_all : List (Publisher × Operation) → File → File
  perform_all [] f = f
  perform_all ((p, op) ∷ steps) f = perform_all steps (perform iso op p f).file

  perform-IsMarked :
      (id : String) (op : Operation) (p : Publisher) (f : File)
      → IsMarked id f
      → IsMarked id (perform iso op p f).file
  perform-IsMarked id op p f m = elim (perform-IsIsolated iso op p f) [
    | inr (unchanged, refused) ↦ rw unchanged m
    | inl i ↦
        let same : m.registry ≡ i.before = cc (m.existed, i.existed) in
        elim (Bool-cases (str_eq id p.service_id)) [
          | inl own ↦
              let e = (eq_iff id p.service_id).0 own in
              let old : m.own ≡ i.old = cc (m.found, i.owned, same, e) in
              record {
                registry = i.after;
                own = i.new;
                existed = i.written;
                found = rw e i.renewed;
                state =
                    Moves-unhealthy (body-Moves op i.learnt i.old i.new i.changed)
                      (cc (m.state, old));
              }
          | inr other ↦ record {
            registry = i.after;
            own = m.own;
            existed = i.written;
            found =
                i.others id (λ e. cc (other, (eq_iff id p.service_id).1 e)) ∙ cc (m.found, same);
            state = m.state;
          }
        ]
  ]

  -- A record that is marked unhealthy stays so under any sequence of publications, renewals and marks by
  -- any publishers: no operation brings it back.
  pub perform_all-IsMarked :
      (id : String) (steps : List (Publisher × Operation)) (f : File)
      → IsMarked id f
      → IsMarked id (perform_all steps f)
  unfolding perform_all
  perform_all-IsMarked id [] f m = m
  perform_all-IsMarked id ((p, op) ∷ steps) f m =
      perform_all-IsMarked id steps (perform iso op p f).file (perform-IsMarked id op p f m)
