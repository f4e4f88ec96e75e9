-- ===== src/Synthesis/Resolution.antt =====
-- What finding an endpoint and reporting a failure leave: no attempt, and an endpoint of the tier.
use local_ai_broker.Prelude.{
  ℕ, String, Option, some, ◌≡◌, refl, ◌∙◌, arith, eq_iff, inl, inr, Option-cases,
}
use local_ai_broker.Prelude.Result.{Result, Result-cases}
use local_ai_broker.Service.{Service}
use local_ai_broker.Endpoint.{is_candidate}
use local_ai_broker.Endpoint.Selected.{select_endpoint-IsSelected}
use local_ai_broker.Synthesis.Attempts.{GpuError}
use local_ai_broker.Synthesis.Tiers.{
  Callbacks, Session, Task, report_warm_service_failure, select_in, select_again, request_endpoint,
  resolve_or_request_endpoint,
}

module _ {W : Type 0} (callbacks : Callbacks W) where
  pub report-attempts :
      (endpoint : Service) (e : GpuError) (s : Session W)
      → (report_warm_service_failure callbacks endpoint e s).attempts ≡ s.attempts
  unfolding report_warm_service_failure
  report-attempts endpoint e s = elim (Option-cases callbacks.failure_reporter) [
    | inl h ↦ rw h
    | inr (reporter, h) ↦ ground arith
  ]

  -- An endpoint of the tier, with the GPUs asked for.
  abbrev pub Serves : String → ℕ → Service → Type 0
  Serves tier gpu_count endpoint = (endpoint.tier ≡ tier) × (endpoint.gpu_count ≡ gpu_count)

  select_in-Serves :
      (task : Task) (tier capability : String) (gpu_count : ℕ) (s : Session W) (endpoint : Service)
      → select_in callbacks task tier capability gpu_count s ≡ some endpoint
      → Serves tier gpu_count endpoint
  unfolding select_in is_candidate
  select_in-Serves task tier capability gpu_count s endpoint h =
      let selected =
        (select_endpoint-IsSelected (callbacks.clock s.world) task.health_interval s.services tier
            capability (some gpu_count)).0
          endpoint h in
      let passed = selected.candidate in (ground (arith, eq_iff endpoint.tier tier), ground arith)

  -- What finding an endpoint leaves.
  abbrev pub Found :
      String → ℕ → Session W → (Option Service × Option GpuError) × Session W → Type 0
  Found tier gpu_count s found =
      (found.1.attempts ≡ s.attempts)
      × ((endpoint : Service) → found.0.0 ≡ some endpoint → Serves tier gpu_count endpoint)

  select_again-Found :
      (task : Task) (tier capability : String) (gpu_count : ℕ) (s : Session W)
      → Found tier gpu_count s (select_again callbacks task tier capability gpu_count s)
  unfolding select_again
  select_again-Found task tier capability gpu_count s =
      elim (Option-cases (select_in callbacks task tier capability gpu_count s)) [
        | inl h ↦ rw (h, select_again) (refl, λ endpoint e. cc)
        | inr (r, h) ↦
            rw (h, select_again)
              (
                refl,
                λ endpoint e. select_in-Serves task tier capability gpu_count s endpoint (h ∙ e),
              )
      ]

  request_endpoint-Found :
      (task : Task) (tier capability : String) (gpu_count : ℕ) (category reason : String)
      (s : Session W) (requester : W → String → String → String → Result GpuError Service × W)
      → Found tier gpu_count s
          (request_endpoint callbacks task tier capability gpu_count category reason s requester)
  unfolding request_endpoint
  request_endpoint-Found task tier capability gpu_count category reason s requester =
      elim (Result-cases (requester s.world tier category reason).0) [
        | inl (r, h) ↦
            rw (h, request_endpoint) (select_again-Found task tier capability gpu_count _)
        | inr (e, h) ↦ rw (h, request_endpoint) (refl, λ endpoint e. cc)
      ]

  pub resolve_or_request_endpoint-Found :
      (task : Task) (tier capability : String) (gpu_count : ℕ) (category reason : String)
      (s : Session W)
      → Found tier gpu_count s
          (resolve_or_request_endpoint callbacks task tier capability gpu_count category reason s)
  unfolding resolve_or_request_endpoint
  resolve_or_request_endpoint-Found task tier capability gpu_count category reason s =
      elim (Option-cases (select_in callbacks task tier capability gpu_count s)) [
        | inr (r, h) ↦
            rw (h, resolve_or_request_endpoint)
              (
                refl,
                λ endpoint e. select_in-Serves task tier capability gpu_count s endpoint (h ∙ e),
              )
        | inl h ↦ elim (Option-cases callbacks.service_requester) [
          | inl h₁ ↦ rw (h, resolve_or_request_endpoint, h₁) (refl, λ endpoint e. cc)
          | inr (requester, h₁) ↦
              rw (h, h₁, resolve_or_request_endpoint)
                (request_endpoint-Found task tier capability gpu_count category reason s requester)
        ]
      ]
