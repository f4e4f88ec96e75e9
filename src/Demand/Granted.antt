-- ===== src/Demand/Granted.antt =====
-- What a demand that returns has checked.
use local_ai_broker.Prelude.{
  ℕ, ◌+◌, ◌≤◌, ◌<◌, String, false, Option, none, some, List, [], ◌∷◌, str_eq, eq_iff, not, ◌||◌,
  leb, ltb, ◌≡◌, refl, ◌∙◌, sym, ap, arith, inl, inr, Bool-cases, Option-cases,
}
use local_ai_broker.Prelude.Result.{raise≢ok, ok-injective, ok}
use local_ai_broker.Prelude.Text.{is_empty}
use local_ai_broker.Prelude.Membership.{In}
use local_ai_broker.Service.{Service}
use local_ai_broker.Demand.{
  Response, Poll, absent, unreadable, not_object, answered, response_schema, demand_age,
  is_incomplete, validate_times, validate_ready_service, verify_response, answer, poll_loop,
}

-- A service that may be used at a time.
pub record IsUsable (now interval : ℕ) (tier : String) (r granted : Service) : Type 0 where
  pub same_tier : r.tier ≡ tier
  pub complete : is_incomplete r ≡ false
  pub bearer : (r.auth_type ≡ "bearer") × (is_empty r.bearer_token ≡ false)
  pub leased : (lease : ℕ) × (r.lease_expires_at.time ≡ some lease) × (now < lease)
  pub alive :
      (heartbeat : ℕ) × (r.heartbeat_at.time ≡ some heartbeat)
      × (now ≤ heartbeat + demand_age interval)
  pub returned : granted ≡ record r { state = "ready" }

after : (lease now : ℕ) → leb lease now ≡ false → now < lease
after lease now h = ground arith

not_before : (limit now : ℕ) → ltb limit now ≡ false → now ≤ limit
not_before limit now h = ground arith

-- What the last checks ask of a service.
abbrev IsCurrent : ℕ → ℕ → Service → Service → Type 0
IsCurrent now interval r granted =
    ((lease : ℕ) × (r.lease_expires_at.time ≡ some lease) × (now < lease))
    × ((heartbeat : ℕ) × (r.heartbeat_at.time ≡ some heartbeat)
        × (now ≤ heartbeat + demand_age interval))
    × (granted ≡ record r { state = "ready" })

validate_times-IsCurrent :
    (now interval : ℕ) (r granted : Service)
    → validate_times now interval r ≡ ok granted
    → IsCurrent now interval r granted
unfolding validate_times
validate_times-IsCurrent now interval r granted h = elim (Option-cases r.lease_expires_at.time) [
  | inl no_lease ↦ absurd (raise≢ok (rw (no_lease, validate_times) at h))
  | inr (lease, l) ↦ elim (Bool-cases (leb lease now)) [
    | inl over ↦ absurd (raise≢ok (rw (l, over, validate_times) at h))
    | inr live ↦ elim (Option-cases r.heartbeat_at.time) [
      | inl no_beat ↦ absurd (raise≢ok (rw (l, live, no_beat, validate_times) at h))
      | inr (beat, b) ↦ elim (Bool-cases (ltb (beat + demand_age interval) now)) [
        | inl stale ↦ absurd (raise≢ok (rw (l, live, b, stale, validate_times) at h))
        | inr fresh ↦ (
          (lease, l, after lease now live),
          (beat, b, not_before (beat + demand_age interval) now fresh),
          sym (ok-injective (rw (l, live, b, fresh, validate_times) at h)),
        )
      ]
    ]
  ]
]

bearer_checked :
    (auth token : String)
    → (not (str_eq auth "bearer") || is_empty token) ≡ false
    → (auth ≡ "bearer") × (is_empty token ≡ false)
bearer_checked auth token h = (ground (arith, eq_iff auth "bearer"), ground arith)

validate_ready_service-IsUsable :
    (now interval : ℕ) (tier : String) (service : Option Service) (granted : Service)
    → validate_ready_service now interval tier service ≡ ok granted
    → (r : Service) × (service ≡ some r) × IsUsable now interval tier r granted
unfolding validate_ready_service
validate_ready_service-IsUsable now interval tier none granted h = absurd (raise≢ok h)
validate_ready_service-IsUsable now interval tier (some r) granted h =
    elim (Bool-cases (str_eq r.tier tier)) [
      | inr other ↦ absurd (raise≢ok (rw (other, validate_ready_service) at h))
      | inl own ↦ elim (Bool-cases (is_incomplete r)) [
        | inl gap ↦ absurd (raise≢ok (rw (own, gap, validate_ready_service) at h))
        | inr complete ↦
            elim (Bool-cases (not (str_eq r.auth_type "bearer") || is_empty r.bearer_token)) [
              | inl open_door ↦
                  absurd (raise≢ok (rw (own, complete, open_door, validate_ready_service) at h))
              | inr closed ↦
                  let current =
                    validate_times-IsCurrent now interval r granted
                      (rw (own, complete, closed, validate_ready_service) at h) in
                  (
                    r,
                    refl,
                    record {
                      same_tier = (eq_iff r.tier tier).0 own;
                      complete = complete;
                      bearer = bearer_checked r.auth_type r.bearer_token closed;
                      leased = current.0;
                      alive = current.1;
                      returned = current.2;
                    },
                  )
            ]
      ]
    ]

module _ (response_signature : Response → String) (request_id tier : String) (interval : ℕ) where
  -- The response that granted a service.
  pub record IsGranted (polls : List Poll) (granted : Service) : Type 0 where
    pub now : ℕ
    pub response : Response
    pub service : Service
    pub polled : In (answered now response) polls
    pub schema : response.schema ≡ response_schema
    pub own_request : response.request_id ≡ request_id
    pub signed :
        (response.signature ≡ response_signature response) × (is_empty response.signature ≡ false)
    pub ready : response.state ≡ "ready"
    pub held : response.service ≡ some service
    pub usable : IsUsable now interval tier service granted

  later :
      (p : Poll) (polls : List Poll) (granted : Service)
      → IsGranted polls granted
      → IsGranted (p ∷ polls) granted
  later p polls granted g = record {
    now = g.now;
    response = g.response;
    service = g.service;
    polled = inr g.polled;
    schema = g.schema;
    own_request = g.own_request;
    signed = g.signed;
    ready = g.ready;
    held = g.held;
    usable = g.usable;
  }

  answer-IsGranted :
      (now : ℕ) (r : Response) (polls : List Poll) (granted : Service)
      → answer response_signature request_id tier interval now r ≡ some (ok granted)
      → IsGranted (answered now r ∷ polls) granted
  unfolding answer verify_response
  answer-IsGranted now r polls granted h =
      let valid : validate_ready_service now interval tier r.service ≡ ok granted = ground arith in
      let (service, held, usable) =
        validate_ready_service-IsUsable now interval tier r.service granted valid in
      record {
        now = now;
        response = r;
        service = service;
        polled = inl refl;
        schema = ground (arith, eq_iff r.schema response_schema);
        own_request = ground (arith, eq_iff r.request_id request_id);
        signed = (ground (arith, eq_iff r.signature (response_signature r)), ground arith);
        ready = ground (arith, eq_iff r.state "ready");
        held = held;
        usable = usable;
      }

  -- A demand that returns a service has polled a response of the schema, for its own request and with a
  -- signature that is not empty and is the one under the control token, which says that the service is
  -- ready; the service is of the tier that was asked for, complete and with bearer authentication, its
  -- lease was not over and its heartbeat not too old when it was checked, and what is returned is that
  -- service, in the state ready.
  pub poll_loop-IsGranted :
      (polls : List Poll) (granted : Service)
      → poll_loop response_signature request_id tier interval polls ≡ ok granted
      → IsGranted polls granted
  unfolding poll_loop
  poll_loop-IsGranted [] granted h = cc
  poll_loop-IsGranted (absent ∷ polls) granted h =
      later absent polls granted (poll_loop-IsGranted polls granted h)
  poll_loop-IsGranted (unreadable ∷ polls) granted h = cc
  poll_loop-IsGranted (not_object ∷ polls) granted h = cc
  poll_loop-IsGranted (answered now r ∷ polls) granted h =
      elim (Option-cases (answer response_signature request_id tier interval now r)) [
        | inl again ↦
            later (answered now r) polls granted
              (poll_loop-IsGranted polls granted (rw (again, poll_loop) at h))
        | inr (ended, e) ↦
            answer-IsGranted now r polls granted (e ∙ ap (λ x. some x) (rw (e, poll_loop) at h))
      ]
