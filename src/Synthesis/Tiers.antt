-- ===== src/Synthesis/Tiers.antt =====
-- The calls of one synthesis through the GPU tiers: `_report_warm_service_failure`,
-- `_resolve_or_request_endpoint`, `_try_synthesis_tier` and `synthesize_with_escalation` of
-- inspection_pipeline.py. The list of services and the list of attempts, which the source changes in
-- place, are fields of a session, and the world of the callbacks a third one.
use local_ai_broker.Prelude.{
  ℕ, String, Bool, Option, none, some, List, [], ◌∷◌, ◌++◌, contains, ltb, ◌==◌, if◌then◌else◌,
  ◌||◌, ◌&&◌, min, str_eq, ◌⊎◌, inl, inr,
}
use Prim.Native.String
use local_ai_broker.Prelude.Result.{Result, ok, raise}
use local_ai_broker.Prelude.Text.{or_else}
use local_ai_broker.Service.{Service, or_number}
use local_ai_broker.Contract.{TokenBudgets}
use local_ai_broker.Endpoint.{select_endpoint}
use local_ai_broker.Synthesis.Attempts.{
  GpuError, gpu_error, Attempt, attempt_record, endpoint_diagnostics, missing_endpoint_record,
  unavailable_category, multigpu_failures,
}
use local_ai_broker.Synthesis.Validation.{
  Json, Reply, Messages, Synthesis, validate_synthesis, estimate_tokens,
}

-- What the source calls and takes as an argument: the clock, the request of a service, the chat of an
-- endpoint and the report of a failure. Each may change the world `W`.
pub record Callbacks (W : Type 0) : Type 0 where
  pub clock : W → ℕ
  pub service_requester : Option (W → String → String → String → Result GpuError Service × W)
  pub chat : W → Service → Messages → Result GpuError Reply × W
  pub failure_reporter : Option (W → Service → String → W)

pub record Session (W : Type 0) : Type 0 where
  pub world : W
  pub services : List Service
  pub attempts : List Attempt

-- What stays the same in the whole synthesis; an absent output budget is 0.
pub record Task : Type 0 where
  pub query : String
  pub evidence_ids : List String
  pub budgets : TokenBudgets
  pub synthesis_output_token_budget : ℕ
  pub health_interval : ℕ

pub record Outcome : Type 0 where
  pub result : Option Synthesis
  pub category : String
  pub endpoint : Option Service

module _ {W : Type 0} where
  abbrev pub add_attempt : Attempt → Session W → Session W
  add_attempt a s = record {
    world = s.world;
    services = s.services;
    attempts = s.attempts ++ a ∷ [];
  }

  abbrev pub set_world : W → Session W → Session W
  set_world w s = record { world = w; services = s.services; attempts = s.attempts }

  abbrev pub append_service : Service → Session W → Session W
  append_service r s = record {
    world = s.world;
    services = s.services ++ r ∷ [];
    attempts = s.attempts;
  }

module _ {W : Type 0} (callbacks : Callbacks W) where
  unfoldable pub report_warm_service_failure : Service → GpuError → Session W → Session W
  report_warm_service_failure endpoint error s = elim callbacks.failure_reporter [
    | none ↦ s
    | some reporter ↦
        if contains error.category
          ("availability" ∷ "timeout" ∷ "service_failure" ∷ "authentication" ∷ "oom" ∷ [])
        then set_world (reporter s.world endpoint error.category) s
        else s
  ]

  unfoldable pub select_in : Task → String → String → ℕ → Session W → Option Service
  select_in task tier capability gpu_count s =
      select_endpoint (callbacks.clock s.world) task.health_interval s.services tier capability
        (some gpu_count)

  -- After a service was granted.
  unfoldable pub select_again :
      Task → String → String → ℕ → Session W → (Option Service × Option GpuError) × Session W
  select_again task tier capability gpu_count s =
      elim (select_in task tier capability gpu_count s) [
        | none ↦ (
          (
            none,
            some (gpu_error "service_failure" "demanded GPU service lacks the required capability"),
          ),
          s,
        )
        | some endpoint ↦ ((some endpoint, none), s)
      ]

  unfoldable pub request_endpoint :
      Task
      → String
      → String
      → ℕ
      → String
      → String
      → Session W
      → (W → String → String → String → Result GpuError Service × W)
      → (Option Service × Option GpuError) × Session W
  request_endpoint task tier capability gpu_count category reason s requester =
      let answer = requester s.world tier category reason in
      elim answer.0 [
        | raise e ↦ ((none, some e), set_world answer.1 s)
        | ok r ↦
            select_again task tier capability gpu_count (append_service r (set_world answer.1 s))
      ]

  unfoldable pub resolve_or_request_endpoint :
      Task
      → String
      → String
      → ℕ
      → String
      → String
      → Session W
      → (Option Service × Option GpuError) × Session W
  resolve_or_request_endpoint task tier capability gpu_count category reason s =
      elim (select_in task tier capability gpu_count s) [
        | some endpoint ↦ ((some endpoint, none), s)
        | none ↦ elim callbacks.service_requester [
          | none ↦ ((none, none), s)
          | some requester ↦
              request_endpoint task tier capability gpu_count category reason s requester
        ]
      ]

-- `min(value for value in (configured_limit, endpoint_limit) if value > 0)`; the configured limit of
-- `normalize_token_budgets` is positive.
unfoldable pub effective_limit : ℕ → ℕ → ℕ
effective_limit configured_limit endpoint_limit =
    if endpoint_limit == 0
    then configured_limit
    else if configured_limit == 0
    then endpoint_limit
    else min configured_limit endpoint_limit

-- `v100_category in MULTIGPU_FAILURES or v100_category == "unsupported_claim"`
abbrev pub needs_multigpu : String → Bool
needs_multigpu category = contains category multigpu_failures || str_eq category "unsupported_claim"

module _ {W : Type 0} (json : Json) (callbacks : Callbacks W) where
  -- The reply of the chat, validated.
  unfoldable pub accept_reply : Task → Result GpuError Reply → Result GpuError Synthesis
  accept_reply task (raise e) = raise e
  accept_reply task (ok reply) =
      validate_synthesis json reply task.evidence_ids
        (or_number task.synthesis_output_token_budget task.budgets.final_pack_token_budget)

  abbrev pub outcome : Option Synthesis → String → Option Service → Outcome
  outcome result category endpoint = record {
    result = result;
    category = category;
    endpoint = endpoint;
  }

  -- The body of the loop. It ends the loop with an outcome, or asks for one more try with an error to quote.
  unfoldable pub try_once :
      Task → Service → String → ℕ → Option GpuError → Session W → (Outcome ⊎ GpuError) × Session W
  try_once task endpoint reason number feedback s =
      let messages : Messages = record {
        query = task.query;
        evidence_ids = task.evidence_ids;
        feedback = feedback;
      } in
      let failed : String → Attempt = λ category.
        attempt_record (endpoint_diagnostics endpoint) "synthesis" "failed" category reason
          number in
      if ltb
        (effective_limit task.budgets.synthesis_context_token_budget endpoint.context_limit_tokens)
        (estimate_tokens (json.messages_length messages))
      then (
        inl (outcome none "context_overflow" (some endpoint)),
        add_attempt (failed "context_overflow") s,
      )
      else let answer = callbacks.chat s.world endpoint messages in
        elim (accept_reply task answer.0) [
          | ok validated ↦ (
            inl (outcome (some validated) "" (some endpoint)),
            add_attempt
                (attempt_record (endpoint_diagnostics endpoint) "synthesis" "succeeded" "" reason
                  number)
                (set_world answer.1 s),
          )
          | raise e ↦
              let reported =
                add_attempt (failed e.category)
                  (report_warm_service_failure callbacks endpoint e (set_world answer.1 s)) in
              if number == 1 && contains e.category ("unsupported_claim" ∷ "invalid_synthesis" ∷ [])
              then (inr e, reported)
              else (inl (outcome none e.category (some endpoint)), reported)
        ]

  -- `for number in (1, 2)`; the loop's `else` is its last line.
  unfoldable pub try_numbers :
      Task → Service → String → List ℕ → Option GpuError → Session W → Outcome × Session W
  unfolding try_once
  try_numbers task endpoint reason [] feedback s =
      (outcome none "invalid_synthesis" (some endpoint), s)
  try_numbers task endpoint reason (number ∷ numbers) feedback s =
      let tried = try_once task endpoint reason number feedback s in
      elim tried.0 [
        | inl o ↦ (o, tried.1)
        | inr e ↦ try_numbers task endpoint reason numbers (some e) tried.1
      ]

  unfoldable pub failed_endpoint :
      String → ℕ → String → String → Option GpuError → Session W → Outcome × Session W
  failed_endpoint tier gpu_count initial_category reason demand_error s =
      let category : String = elim demand_error [ none ↦ initial_category | some e ↦ e.category ] in
      (
        outcome none category none,
        add_attempt
            (attempt_record (missing_endpoint_record tier gpu_count demand_error) "synthesis"
              "failed" category reason 1)
            s,
      )

  unfoldable pub try_synthesis_tier : Task → String → ℕ → String → Session W → Outcome × Session W
  try_synthesis_tier task tier gpu_count reason s =
      let initial_category = unavailable_category s.services tier in
      let found =
        resolve_or_request_endpoint callbacks task tier "chat" gpu_count initial_category reason
          s in
      elim found.0.0 [
        | none ↦ failed_endpoint tier gpu_count initial_category reason found.0.1 found.1
        | some endpoint ↦ try_numbers task endpoint reason (1 ∷ 2 ∷ []) none found.1
      ]

  unfoldable pub a100_step :
      Task → String → Session W → (Option Synthesis × Option Service) × Session W
  a100_step task v100_category s =
      let count = if needs_multigpu v100_category then 4 else 1 in
      let tier = if needs_multigpu v100_category then "a100-multigpu" else "a100-single" in
      let last =
        try_synthesis_tier task tier count
          (String.◌++◌ "v100_" (or_else v100_category "service_failure")) s in
      elim last.0.result [
        | none ↦ ((none, none), last.1)
        | some synthesis ↦ ((some synthesis, last.0.endpoint), last.1)
      ]

  unfoldable pub v100_step :
      Task → String → Session W → (Option Synthesis × Option Service) × Session W
  v100_step task last_category s =
      let v100 =
        try_synthesis_tier task "v100-reasoning" 4
          (String.◌++◌ "p40_" (or_else last_category "service_failure")) s in
      elim v100.0.result [
        | some synthesis ↦ ((some synthesis, v100.0.endpoint), v100.1)
        | none ↦ a100_step task v100.0.category v100.1
      ]

  unfoldable pub synthesize_with_escalation :
      Task → Session W → (Option Synthesis × Option Service) × Session W
  synthesize_with_escalation task s =
      let p40 = try_synthesis_tier task "p40-synthesis" 1 "primary_synthesis" s in
      elim p40.0.result [
        | some synthesis ↦ ((some synthesis, p40.0.endpoint), p40.1)
        | none ↦ v100_step task p40.0.category p40.1
      ]
