-- ===== src/Synthesis/Trace.antt =====
-- The attempts that one tier of a synthesis leaves.
use mathlib.Core.Path.{subst}
use mathlib.Core.List.{append_assoc}
use local_ai_broker.Prelude.{
  ℕ, String, true, Option, none, some, List, [], ◌∷◌, ◌++◌, contains, ltb, ◌==◌, ◌&&◌, ◌≡◌, refl,
  ◌∙◌, ap, arith, ◌⊎◌, inl, inr, Bool-cases,
}
use local_ai_broker.Prelude.Result.{Result, ok, raise, Result-cases}
use local_ai_broker.Service.{Service, or_number}
use local_ai_broker.Synthesis.Attempts.{
  GpuError, Attempt, attempt_record, unavailable_category, endpoint_diagnostics,
}
use local_ai_broker.Synthesis.Validation.{Json, Reply, Synthesis, Messages, estimate_tokens}
use local_ai_broker.Synthesis.Resolution.{
  Serves, report-attempts, resolve_or_request_endpoint-Found,
}
use local_ai_broker.Synthesis.Grounded.{IsGrounded, validate_synthesis-IsGrounded}
use local_ai_broker.Synthesis.Tiers.{
  Callbacks, Session, Task, Outcome, resolve_or_request_endpoint, effective_limit, accept_reply,
  try_once, try_numbers, failed_endpoint, try_synthesis_tier,
}

module _ (json : Json) (task : Task) (tier : String) (gpu_count : ℕ) (reason : String) where
  -- An attempt that ends a tier with that outcome.
  abbrev pub Records : ℕ → Attempt → Outcome → Type 0
  Records number a o =
      (a.operation ≡ "synthesis")
      × (a.attempt ≡ number)
      × (a.escalation_reason ≡ reason)
      × (((x : Synthesis) × (o.result ≡ some x)
            × (a.status ≡ "succeeded")
            × ((endpoint : Service) × (o.endpoint ≡ some endpoint)
                × (endpoint.tier ≡ tier)
                × (endpoint.gpu_count ≡ gpu_count))
            × ((reply : Reply) × IsGrounded json reply task.evidence_ids
                  (or_number task.synthesis_output_token_budget
                    task.budgets.final_pack_token_budget)
                  x))
          ⊎ ((o.result ≡ none) × (a.status ≡ "failed") × (a.failure_category ≡ o.category)))

-- The attempts of a tier: one, or a first that failed in its validation and a second.
pub data TierTrace (json : Json) (task : Task) (tier : String) (gpu_count : ℕ) (reason : String)
    : Outcome → List Attempt → Type 0 where
  once :
      (a : Attempt) (o : Outcome)
      → Records json task tier gpu_count reason 1 a o
      → TierTrace json task tier gpu_count reason o (a ∷ [])
  twice :
      (a b : Attempt) (o o' : Outcome)
      → Records json task tier gpu_count reason 1 a o
      → o.result ≡ none
      → contains o.category ("unsupported_claim" ∷ "invalid_synthesis" ∷ []) ≡ true
      → Records json task tier gpu_count reason 2 b o'
      → TierTrace json task tier gpu_count reason o' (a ∷ b ∷ [])

module _ {W : Type 0} (json : Json) (callbacks : Callbacks W) (task : Task) (tier : String)
    (gpu_count : ℕ) (reason : String) where
  abbrev no_result : String → Option Service → Outcome
  no_result category endpoint = record { result = none; category = category; endpoint = endpoint }

  -- What one try leaves in the list of attempts, and what it says.
  abbrev Tried : ℕ → Service → List Attempt → Outcome ⊎ GpuError → List Attempt → Type 0
  Tried number endpoint before (inl o) after =
      (a : Attempt) × Records json task tier gpu_count reason number a o
      × (after ≡ before ++ a ∷ [])
  Tried number endpoint before (inr e) after =
      (a : Attempt) × Records json task tier gpu_count reason number a
        (no_result e.category (some endpoint))
      × (number ≡ 1)
      × (contains e.category ("unsupported_claim" ∷ "invalid_synthesis" ∷ []) ≡ true)
      × (after ≡ before ++ a ∷ [])

  accept_reply-IsGrounded :
      (answer : Result GpuError Reply) (x : Synthesis)
      → accept_reply json callbacks task answer ≡ ok x
      → (reply : Reply) × IsGrounded json reply task.evidence_ids
          (or_number task.synthesis_output_token_budget task.budgets.final_pack_token_budget)
          x
  unfolding accept_reply
  accept_reply-IsGrounded (ok reply) x h = (reply, validate_synthesis-IsGrounded json reply _ _ x h)
  accept_reply-IsGrounded (raise e) x h = cc

  try_once-Tried :
      (number : ℕ) (endpoint : Service) (feedback : Option GpuError) (s : Session W)
      → Serves callbacks tier gpu_count endpoint
      → Tried number endpoint s.attempts
          (try_once json callbacks task endpoint reason number feedback s).0
          (try_once json callbacks task endpoint reason number feedback s).1.attempts
  unfolding try_once attempt_record
  try_once-Tried number endpoint feedback s serves =
      let a : String → String → Attempt = λ outcome category.
        attempt_record (endpoint_diagnostics endpoint) "synthesis" outcome category reason number in
      let messages : Messages = record {
        query = task.query;
        evidence_ids = task.evidence_ids;
        feedback = feedback;
      } in
      elim (Bool-cases (
        ltb
          (effective_limit task.budgets.synthesis_context_token_budget
            endpoint.context_limit_tokens)
          (estimate_tokens (json.messages_length messages)))) [
            | inl h ↦
                rw (h, try_once)
                  (a "failed" "context_overflow", (refl, refl, refl, inr (refl, refl, refl)), refl)
            | inr h ↦
                elim (Result-cases
                  (accept_reply json callbacks task (callbacks.chat s.world endpoint messages).0)) [
                    | inl (x, h₁) ↦
                        let accepted =
                          accept_reply-IsGrounded (callbacks.chat s.world endpoint messages).0 x
                            h₁ in
                        rw (h, h₁, try_once)
                          (
                            a "succeeded" "",
                            (
                              refl,
                              refl,
                              refl,
                              inl (x, refl, refl, (endpoint, refl, serves.0, serves.1), accepted),
                            ),
                            refl,
                          )
                    | inr (e, h₁) ↦
                        elim (Bool-cases (
                          number == 1
                          && contains e.category
                              ("unsupported_claim" ∷ "invalid_synthesis" ∷ []))) [
                                | inl h₂ ↦
                                    rw (h, h₁, h₂, try_once)
                                      (
                                        a "failed" e.category,
                                        (refl, refl, refl, inr (refl, refl, refl)),
                                        ground arith,
                                        ground arith,
                                        ap (λ l. l ++ a "failed" e.category ∷ [])
                                            (report-attempts callbacks endpoint e _),
                                      )
                                | inr h₂ ↦
                                    rw (h, h₁, h₂, try_once)
                                      (
                                        a "failed" e.category,
                                        (refl, refl, refl, inr (refl, refl, refl)),
                                        ap (λ l. l ++ a "failed" e.category ∷ [])
                                            (report-attempts callbacks endpoint e _),
                                      )
                              ]
                  ]
          ]

  abbrev pub IsTierTrace : List Attempt → Outcome × Session W → Type 0
  IsTierTrace before ended =
      (trace : List Attempt) × TierTrace json task tier gpu_count reason ended.0 trace
      × (ended.1.attempts ≡ before ++ trace)

  -- The second try ends the tier, whatever it says.
  second-IsTierTrace :
      (endpoint : Service) (tried : (Outcome ⊎ GpuError) × Session W) (middle before : List Attempt)
      (e : GpuError) (a : Attempt)
      → Tried 2 endpoint middle tried.0 tried.1.attempts
      → Records json task tier gpu_count reason 1 a (no_result e.category (some endpoint))
      → contains e.category ("unsupported_claim" ∷ "invalid_synthesis" ∷ []) ≡ true
      → middle ≡ before ++ a ∷ []
      → IsTierTrace before (elim tried.0 [
        | inl o ↦ (o, tried.1)
        | inr e ↦ try_numbers json callbacks task endpoint reason [] (some e) tried.1
      ])
  second-IsTierTrace endpoint (inl o, s) middle before e a (b, ended, added) first_ended retried h =
      (
        a ∷ b ∷ [],
        twice a b (no_result e.category (some endpoint)) o first_ended refl retried ended,
        added ∙ ap (λ l. l ++ b ∷ []) h ∙ append_assoc before (a ∷ []) (b ∷ []),
      )
  second-IsTierTrace endpoint (inr e', s) middle before e a (b, ended, two, rest, added) first_ended
        retried h =
      absurd (omega arith)

  first-IsTierTrace :
      (endpoint : Service) (tried : (Outcome ⊎ GpuError) × Session W) (before : List Attempt)
      → Serves callbacks tier gpu_count endpoint
      → Tried 1 endpoint before tried.0 tried.1.attempts
      → IsTierTrace before (elim tried.0 [
        | inl o ↦ (o, tried.1)
        | inr e ↦ try_numbers json callbacks task endpoint reason (2 ∷ []) (some e) tried.1
      ])
  unfolding try_numbers
  first-IsTierTrace endpoint (inl o, s) before serves (a, ended, added) =
      (a ∷ [], once a o ended, added)
  first-IsTierTrace endpoint (inr e, s) before serves (a, ended, number, retried, added) =
      second-IsTierTrace endpoint (try_once json callbacks task endpoint reason 2 (some e) s)
        s.attempts before e a (try_once-Tried 2 endpoint (some e) s serves) ended retried added

  try_numbers-IsTierTrace :
      (endpoint : Service) (s : Session W)
      → Serves callbacks tier gpu_count endpoint
      → IsTierTrace s.attempts (try_numbers json callbacks task endpoint reason (1 ∷ 2 ∷ []) none s)
  unfolding try_numbers
  try_numbers-IsTierTrace endpoint s serves =
      first-IsTierTrace endpoint (try_once json callbacks task endpoint reason 1 none s) s.attempts
        serves (try_once-Tried 1 endpoint none s serves)

  failed_endpoint-IsTierTrace :
      (category : String) (error : Option GpuError) (s : Session W)
      → IsTierTrace s.attempts
          (failed_endpoint json callbacks tier gpu_count category reason error s)
  unfolding failed_endpoint attempt_record
  failed_endpoint-IsTierTrace category error s =
      (_, once _ _ (refl, refl, refl, inr (refl, refl, refl)), refl)

  found-IsTierTrace :
      (category : String) (found : (Option Service × Option GpuError) × Session W)
      (before : List Attempt)
      → found.1.attempts ≡ before
      → ((endpoint : Service)
          → found.0.0 ≡ some endpoint
          → Serves callbacks tier gpu_count endpoint)
      → IsTierTrace before (elim found.0.0 [
        | none ↦ failed_endpoint json callbacks tier gpu_count category reason found.0.1 found.1
        | some endpoint ↦ try_numbers json callbacks task endpoint reason (1 ∷ 2 ∷ []) none found.1
      ])
  found-IsTierTrace category ((none, e), s) before h serves =
      subst (λ l. IsTierTrace l (failed_endpoint json callbacks tier gpu_count category reason e s))
        h (failed_endpoint-IsTierTrace category e s)
  found-IsTierTrace category ((some endpoint, e), s) before h serves =
      subst
        (λ l. IsTierTrace l (try_numbers json callbacks task endpoint reason (1 ∷ 2 ∷ []) none s)) h
        (try_numbers-IsTierTrace endpoint s (serves endpoint refl))

  pub try_synthesis_tier-IsTierTrace :
      (s : Session W)
      → IsTierTrace s.attempts (try_synthesis_tier json callbacks task tier gpu_count reason s)
  unfolding try_synthesis_tier
  try_synthesis_tier-IsTierTrace s =
      let category = unavailable_category s.services tier in
      let found =
        resolve_or_request_endpoint-Found callbacks task tier "chat" gpu_count category reason s in
      found-IsTierTrace category
        (resolve_or_request_endpoint callbacks task tier "chat" gpu_count category reason s)
        s.attempts found.0 found.1
