-- ===== src/Synthesis/Escalation.antt =====
-- The way of a whole synthesis through the tiers.
use Prim.Native.String
use mathlib.Core.List.{append_assoc}
use local_ai_broker.Prelude.{
  String, Option, none, some, List, ◌++◌, if◌then◌else◌, ◌≡◌, ◌∙◌, ap, inl, inr, Option-cases,
}
use local_ai_broker.Prelude.Text.{or_else}
use local_ai_broker.Service.{Service}
use local_ai_broker.Synthesis.Attempts.{Attempt}
use local_ai_broker.Synthesis.Validation.{Json, Synthesis}
use local_ai_broker.Synthesis.Trace.{TierTrace, try_synthesis_tier-IsTierTrace}
use local_ai_broker.Synthesis.Tiers.{
  Callbacks, Session, Task, Outcome, try_synthesis_tier, needs_multigpu, a100_step, v100_step,
  synthesize_with_escalation,
}

-- The reason that a tier gives for the category the tier before it ended with.
abbrev pub escalated : String → String → String
escalated prefix category = String.◌++◌ prefix (or_else category "service_failure")

module _ (json : Json) (task : Task) where
  abbrev pub P40Trace : Outcome → List Attempt → Type 0
  P40Trace = TierTrace json task "p40-synthesis" 1 "primary_synthesis"

  abbrev pub V100Trace : String → Outcome → List Attempt → Type 0
  V100Trace category = TierTrace json task "v100-reasoning" 4 (escalated "p40_" category)

  abbrev pub A100Trace : String → Outcome → List Attempt → Type 0
  A100Trace category =
      TierTrace json task (if needs_multigpu category then "a100-multigpu" else "a100-single")
        (if needs_multigpu category then 4 else 1) (escalated "v100_" category)

-- What is returned, and the attempts of the tiers in their order.
pub data Escalation (json : Json) (task : Task)
    : Option Synthesis → Option Service → List Attempt → Type 0 where
  by_p40 :
      (o : Outcome) (t : List Attempt) (x : Synthesis)
      → P40Trace json task o t
      → o.result ≡ some x
      → Escalation json task (some x) o.endpoint t
  by_v100 :
      (o o' : Outcome) (t t' : List Attempt) (x : Synthesis)
      → P40Trace json task o t
      → o.result ≡ none
      → V100Trace json task o.category o' t'
      → o'.result ≡ some x
      → Escalation json task (some x) o'.endpoint (t ++ t')
  by_a100 :
      (o o' o'' : Outcome) (t t' t'' : List Attempt) (x : Synthesis)
      → P40Trace json task o t
      → o.result ≡ none
      → V100Trace json task o.category o' t'
      → o'.result ≡ none
      → A100Trace json task o'.category o'' t''
      → o''.result ≡ some x
      → Escalation json task (some x) o''.endpoint (t ++ (t' ++ t''))
  exhausted :
      (o o' o'' : Outcome) (t t' t'' : List Attempt)
      → P40Trace json task o t
      → o.result ≡ none
      → V100Trace json task o.category o' t'
      → o'.result ≡ none
      → A100Trace json task o'.category o'' t''
      → o''.result ≡ none
      → Escalation json task none none (t ++ (t' ++ t''))

module _ {W : Type 0} (json : Json) (callbacks : Callbacks W) (task : Task) where
  -- The way from a list of attempts to what a call ended with.
  abbrev pub Climbs : List Attempt → (Option Synthesis × Option Service) × Session W → Type 0
  Climbs before ended =
      (trace : List Attempt) × Escalation json task ended.0.0 ended.0.1 trace
      × (ended.1.attempts ≡ before ++ trace)

  a100_step-Climbs :
      (o o' : Outcome) (t t' before : List Attempt) (s : Session W)
      → P40Trace json task o t
      → o.result ≡ none
      → V100Trace json task o.category o' t'
      → o'.result ≡ none
      → s.attempts ≡ before ++ (t ++ t')
      → Climbs before (a100_step json callbacks task o'.category s)
  unfolding a100_step
  a100_step-Climbs o o' t t' before s p40 p40_none v100 v100_none h =
      let count = if needs_multigpu o'.category then 4 else 1 in
      let tier : String = if needs_multigpu o'.category then "a100-multigpu" else "a100-single" in
      let last =
        try_synthesis_tier json callbacks task tier count (escalated "v100_" o'.category) s in
      let (t'', a100, added) =
        try_synthesis_tier-IsTierTrace json callbacks task tier count
          (escalated "v100_" o'.category) s in
      let all_added : last.1.attempts ≡ before ++ (t ++ (t' ++ t'')) =
        added
        ∙ ap (λ l. l ++ t'') h
        ∙ append_assoc before (t ++ t') t''
        ∙ ap (λ l. before ++ l) (append_assoc t t' t'') in
      elim (Option-cases last.0.result) [
        | inl e ↦
            rw (e, a100_step)
              (
                t ++ (t' ++ t''),
                exhausted o o' last.0 t t' t'' p40 p40_none v100 v100_none a100 e,
                all_added,
              )
        | inr (x, e) ↦
            rw (e, a100_step)
              (
                t ++ (t' ++ t''),
                by_a100 o o' last.0 t t' t'' x p40 p40_none v100 v100_none a100 e,
                all_added,
              )
      ]

  v100_step-Climbs :
      (o : Outcome) (t before : List Attempt) (s : Session W)
      → P40Trace json task o t
      → o.result ≡ none
      → s.attempts ≡ before ++ t
      → Climbs before (v100_step json callbacks task o.category s)
  unfolding v100_step
  v100_step-Climbs o t before s p40 p40_none h =
      let v100 =
        try_synthesis_tier json callbacks task "v100-reasoning" 4 (escalated "p40_" o.category) s in
      let (t', trace, added) =
        try_synthesis_tier-IsTierTrace json callbacks task "v100-reasoning" 4
          (escalated "p40_" o.category) s in
      let all_added : v100.1.attempts ≡ before ++ (t ++ t') =
        added ∙ ap (λ l. l ++ t') h ∙ append_assoc before t t' in
      elim (Option-cases v100.0.result) [
        | inr (x, e) ↦
            rw (e, v100_step) (t ++ t', by_v100 o v100.0 t t' x p40 p40_none trace e, all_added)
        | inl e ↦
            rw (e, v100_step)
              (a100_step-Climbs o v100.0 t t' before v100.1 p40 p40_none trace e all_added)
      ]

  -- A synthesis only appends to the attempts. What it appends are the attempts of the P40 tier, of one
  -- GPU, then, where that tier gave no result, of the V100 tier, of four, then, where that gave none, of
  -- the A100 tier, of four GPUs where the V100 tier ended with a failure that more GPUs may mend and of
  -- one GPU elsewhere; each tier names the category that the tier before it ended with, and has one
  -- attempt, or a first that failed in the validation and a second. The result and the endpoint are those
  -- of the last tier that was tried, and none where it failed; a result is there only where the last
  -- attempt succeeded.
  pub synthesize_with_escalation-Climbs :
      (s : Session W) → Climbs s.attempts (synthesize_with_escalation json callbacks task s)
  unfolding synthesize_with_escalation
  synthesize_with_escalation-Climbs s =
      let p40 = try_synthesis_tier json callbacks task "p40-synthesis" 1 "primary_synthesis" s in
      let (t, trace, added) =
        try_synthesis_tier-IsTierTrace json callbacks task "p40-synthesis" 1 "primary_synthesis"
          s in
      elim (Option-cases p40.0.result) [
        | inr (x, e) ↦ rw (e, synthesize_with_escalation) (t, by_p40 p40.0 t x trace e, added)
        | inl e ↦
            rw (e, synthesize_with_escalation)
              (v100_step-Climbs p40.0 t s.attempts p40.1 trace e added)
      ]
