-- ===== src/Endpoint/Published.antt =====
-- The publisher of a service and the clients that read its record: what a renewal or a publication means
-- for `endpoint_is_healthy`, and what the mark of an unhealthy service means.
use local_ai_broker.Prelude.{
  ℕ, ◌+◌, ◌≤◌, String, ◌≡◌, ◌≢◌, refl, ◌∙◌, ap, true, false, none, some, arith, str_eq, inl, inr,
  ltb, leb, ◌&&◌, contains, [], ◌∷◌,
}
use local_ai_broker.Prelude.Result.{ok, Result-cases}
use local_ai_broker.Prelude.Text.{is_empty, lower, or_else}
use local_ai_broker.Service.{Url, Service}
use local_ai_broker.Registry.{Publisher, publish_body, mark_body, bounded_lease_expiry, duration_of}
use local_ai_broker.Endpoint.{effective_lease_expiry, max_age, is_current, endpoint_is_healthy}

module _ (iso : ℕ → String) where
  not_ready-unhealthy :
      (r : Service) (later interval : ℕ)
      → str_eq (lower r.state) "ready" ≡ false
      → endpoint_is_healthy later interval r ≡ false
  unfolding endpoint_is_healthy
  not_ready-unhealthy r later interval h = ground arith

  -- Once a service is marked unhealthy no client finds it healthy, at any time and with any interval.
  pub mark_body-unhealthy :
      (reason : String) (now : ℕ) (p : Publisher) (r new : Service) (later interval : ℕ)
      → mark_body iso reason now p r ≡ ok new
      → endpoint_is_healthy later interval new ≡ false
  unfolding mark_body lower
  mark_body-unhealthy reason now p r new later interval h =
      let state : new.state ≡ "unhealthy" = ground arith in
      not_ready-unhealthy new later interval (ap (λ s. str_eq (lower s) "ready") state)

  -- `isoformat` never gives an empty text.
  module _ (iso_text : (t : ℕ) → is_empty (iso t) ≡ false) where
    -- The lease that a publication or a renewal writes is the one that clients read.
    bounded-effective :
        (r s : Service) (candidate expiry : ℕ)
        → bounded_lease_expiry r candidate ≡ ok expiry
        → (is_empty r.absolute_lease_expires_at.text ≡ true
            → r.absolute_lease_expires_at.time ≡ none)
        → s.lease_expires_at ≡ record { text = iso expiry; time = some expiry }
        → s.absolute_lease_expires_at ≡ r.absolute_lease_expires_at
        → effective_lease_expiry s ≡ some expiry
    unfolding bounded_lease_expiry effective_lease_expiry
    bounded-effective r s candidate expiry h w l a = ground (arith, iso_text expiry)

    -- What the endpoint of a published record needs for a client to use it at all.
    pub record IsReachable (endpoint : Url) (bearer_token : String) (r : Service) : Type 0 where
      pub text : is_empty endpoint.text ≡ false
      pub scheme : contains endpoint.scheme ("http" ∷ "https" ∷ []) ≡ true
      pub hostname : is_empty endpoint.hostname ≡ false
      pub token : is_empty bearer_token ≡ false
      pub not_disabled : r.healthy ≢ some false
      pub bound :
          is_empty r.absolute_lease_expires_at.text ≡ true → r.absolute_lease_expires_at.time ≡ none

    healthy-current :
        (r : Service) (later interval : ℕ)
        → str_eq (lower r.state) "ready" ≡ true
        → str_eq (lower r.auth_type) "bearer" ≡ true
        → is_empty r.health_error ≡ true
        → IsReachable r.endpoint r.bearer_token r
        → endpoint_is_healthy later interval r ≡ is_current later interval r
    unfolding endpoint_is_healthy
    healthy-current r later interval s a e h = ground (arith, h.not_disabled)

    current-exact :
        (r : Service) (expiry now later interval : ℕ)
        → effective_lease_expiry r ≡ some expiry
        → r.heartbeat_at.time ≡ some now
        → is_current later interval r ≡ (ltb later expiry && leb later (now + max_age interval))
    unfolding is_current
    current-exact r expiry now later interval l h = ground arith

    abbrev published : Url → String → String → ℕ → ℕ → Service → Service
    published endpoint bearer_token job now expiry r = record r {
      state = "ready";
      endpoint = endpoint;
      auth_type = "bearer";
      bearer_token = bearer_token;
      slurm_job_id = or_else job r.slurm_job_id;
      heartbeat_at = record { text = iso now; time = some now };
      lease_expires_at = record { text = iso expiry; time = some expiry };
      health_error = "";
      failure_category = "";
    }

    publish-writes :
        (endpoint : Url) (bearer_token job : String) (now : ℕ) (p : Publisher) (r new : Service)
        → publish_body iso endpoint bearer_token job now p r ≡ ok new
        → (expiry : ℕ) × (bounded_lease_expiry r (now + duration_of p) ≡ ok expiry)
          × (new ≡ published endpoint bearer_token job now expiry r)
    unfolding publish_body
    publish-writes endpoint bearer_token job now p r new h =
        elim (Result-cases (bounded_lease_expiry r (now + duration_of p))) [
          | inl (expiry, e) ↦ (expiry, e, ground arith)
          | inr (error, e) ↦ absurd (ground arith)
        ]

    published-healthy :
        (endpoint : Url) (bearer_token job : String) (now expiry candidate later interval : ℕ)
        (r : Service)
        → bounded_lease_expiry r candidate ≡ ok expiry
        → IsReachable endpoint bearer_token r
        → endpoint_is_healthy later interval (published endpoint bearer_token job now expiry r)
          ≡ (ltb later expiry && leb later (now + max_age interval))
    unfolding lower
    published-healthy endpoint bearer_token job now expiry candidate later interval r bounded
          reach =
        healthy-current (published endpoint bearer_token job now expiry r) later interval refl refl
          refl
          (record {
            text = reach.text;
            scheme = reach.scheme;
            hostname = reach.hostname;
            token = reach.token;
            not_disabled = reach.not_disabled;
            bound = reach.bound;
          })
        ∙ current-exact (published endpoint bearer_token job now expiry r) expiry now later interval
            (bounded-effective r (published endpoint bearer_token job now expiry r) candidate expiry
              bounded reach.bound refl refl)
            refl

    bounded-le :
        (r : Service) (candidate expiry : ℕ)
        → bounded_lease_expiry r candidate ≡ ok expiry
        → expiry ≤ candidate
    unfolding bounded_lease_expiry
    bounded-le r candidate expiry h = ground arith

    -- A publication that succeeds, of a URL and a token that clients accept, writes a lease that ends no
    -- later than the publisher's duration allows, and clients then find the record healthy exactly before
    -- that end and while the heartbeat is at most three health intervals old.
    pub publish-healthy :
        (endpoint : Url) (bearer_token job : String) (now : ℕ) (p : Publisher) (r new : Service)
        → publish_body iso endpoint bearer_token job now p r ≡ ok new
        → IsReachable endpoint bearer_token r
        → (expiry : ℕ) × (new.lease_expires_at.time ≡ some expiry)
          × (expiry ≤ now + duration_of p)
          × ((later interval : ℕ)
              → endpoint_is_healthy later interval new
                ≡ (ltb later expiry && leb later (now + max_age interval)))
    publish-healthy endpoint bearer_token job now p r new h reach =
        let (expiry, bounded, written) = publish-writes endpoint bearer_token job now p r new h in
        (
          expiry,
          ap (λ s. s.lease_expires_at.time) written,
          bounded-le r _ expiry bounded,
          λ later interval.
              ap (endpoint_is_healthy later interval) written
              ∙ published-healthy endpoint bearer_token job now expiry (now + duration_of p) later
                  interval r bounded reach,
        )
