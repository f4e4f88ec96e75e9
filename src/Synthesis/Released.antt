-- ===== src/Synthesis/Released.antt =====
-- What a whole synthesis returns, and how many attempts it makes.
use mathlib.Core.Path.{subst}
use local_ai_broker.Prelude.{
  ℕ, ◌≤◌, ◌+◌, String, Option, some, List, ◌++◌, length, length-append, ◌≡◌, ◌∙◌, ap, arith, inl,
  inr,
}
use local_ai_broker.Service.{Service, or_number}
use local_ai_broker.Synthesis.Attempts.{Attempt}
use local_ai_broker.Synthesis.Validation.{Json, Reply, Synthesis}
use local_ai_broker.Synthesis.Grounded.{IsGrounded}
use local_ai_broker.Synthesis.Trace.{TierTrace, once, twice, Records}
use local_ai_broker.Synthesis.Escalation.{
  Escalation, by_p40, by_v100, by_a100, exhausted, synthesize_with_escalation-Climbs,
}
use local_ai_broker.Synthesis.Tiers.{Callbacks, Session, Task, Outcome, synthesize_with_escalation}

module _ (json : Json) (task : Task) where
  -- The budget of the output is the one set for the synthesis, or else that of the final pack.
  abbrev pub IsReleased : Option Service → Synthesis → Type 0
  IsReleased found x =
      ((endpoint : Service) × (found ≡ some endpoint))
      × ((reply : Reply) × IsGrounded json reply task.evidence_ids
            (or_number task.synthesis_output_token_budget task.budgets.final_pack_token_budget) x)

  Records-IsReleased :
      (tier : String) (gpu_count : ℕ) (reason : String) (number : ℕ) (a : Attempt) (o : Outcome)
      (x : Synthesis)
      → Records json task tier gpu_count reason number a o
      → o.result ≡ some x
      → IsReleased o.endpoint x
  Records-IsReleased tier gpu_count reason number a o x
        (op, n, r, inl (y, e, ok_status, endpoint, released)) h =
      let same : y ≡ x = ground arith in
      (
        (endpoint.0, endpoint.1),
        (released.0, subst (IsGrounded json released.0 task.evidence_ids _) same released.1),
      )
  Records-IsReleased tier gpu_count reason number a o x (op, n, r, inr (e, failed, category)) h =
      ground arith

  TierTrace-IsReleased :
      (tier : String) (gpu_count : ℕ) (reason : String) (o : Outcome) (t : List Attempt)
      (x : Synthesis)
      → TierTrace json task tier gpu_count reason o t
      → o.result ≡ some x
      → IsReleased o.endpoint x
  TierTrace-IsReleased tier n reason o t x (once a _ r) h =
      Records-IsReleased tier n reason 1 a o x r h
  TierTrace-IsReleased tier n reason o t x (twice a b o' _ r e c r') h =
      Records-IsReleased tier n reason 2 b o x r' h

  TierTrace-length :
      (tier : String) (gpu_count : ℕ) (reason : String) (o : Outcome) (t : List Attempt)
      → TierTrace json task tier gpu_count reason o t
      → (1 ≤ length t) × (length t ≤ 2)
  TierTrace-length tier n reason o t (once a _ r) = (omega arith, omega arith)
  TierTrace-length tier n reason o t (twice a b o' _ r e c r') = (omega arith, omega arith)

  Escalation-IsReleased :
      (result : Option Synthesis) (found : Option Service) (t : List Attempt) (x : Synthesis)
      → Escalation json task result found t
      → result ≡ some x
      → IsReleased found x
  Escalation-IsReleased result found t x (by_p40 o _ y p e) h =
      TierTrace-IsReleased _ _ _ o _ x p (e ∙ h)
  Escalation-IsReleased result found t x (by_v100 o o' _ _ y p n v e) h =
      TierTrace-IsReleased _ _ _ o' _ x v (e ∙ h)
  Escalation-IsReleased result found t x (by_a100 o o' o'' _ _ _ y p n v n' a e) h =
      TierTrace-IsReleased _ _ _ o'' _ x a (e ∙ h)
  Escalation-IsReleased result found t x (exhausted _ _ _ _ _ _ _ _ _ _ _ _) h = cc

  Escalation-length :
      (result : Option Synthesis) (found : Option Service) (trace : List Attempt)
      → Escalation json task result found trace
      → (1 ≤ length trace) × (length trace ≤ 6)
  Escalation-length result found trace (by_p40 o t y p e) =
      let bound = TierTrace-length _ _ _ o t p in (omega arith, omega arith)
  Escalation-length result found trace (by_v100 o o' t t' y p n v e) =
      let bound = TierTrace-length _ _ _ o t p in
      let bound' = TierTrace-length _ _ _ o' t' v in
      (omega (arith, length-append t t'), omega (arith, length-append t t'))
  Escalation-length result found trace (by_a100 o o' o'' t t' t'' y p n v n' a e) =
      let bound = TierTrace-length _ _ _ o t p in
      let bound' = TierTrace-length _ _ _ o' t' v in
      let bound'' = TierTrace-length _ _ _ o'' t'' a in
      (
        omega (arith, length-append t (t' ++ t''), length-append t' t''),
        omega (arith, length-append t (t' ++ t''), length-append t' t''),
      )
  Escalation-length result found trace (exhausted o o' o'' t t' t'' p n v n' a e) =
      let bound = TierTrace-length _ _ _ o t p in
      let bound' = TierTrace-length _ _ _ o' t' v in
      let bound'' = TierTrace-length _ _ _ o'' t'' a in
      (
        omega (arith, length-append t (t' ++ t''), length-append t' t''),
        omega (arith, length-append t (t' ++ t''), length-append t' t''),
      )

module _ {W : Type 0} (json : Json) (callbacks : Callbacks W) (task : Task) (s : Session W) where
  -- A synthesis that is returned comes with an endpoint, and is the grounded reading of some reply:
  -- its findings cite only ids of the evidence and it is within the budget.
  pub synthesize_with_escalation-IsReleased :
      (x : Synthesis)
      → (synthesize_with_escalation json callbacks task s).0.0 ≡ some x
      → IsReleased json task (synthesize_with_escalation json callbacks task s).0.1 x
  synthesize_with_escalation-IsReleased x h =
      let (trace, way, added) = synthesize_with_escalation-Climbs json callbacks task s in
      Escalation-IsReleased json task _ _ trace x way h

  -- A synthesis appends at least one attempt and at most six.
  pub synthesize_with_escalation-bound :
      (length s.attempts + 1 ≤ length (synthesize_with_escalation json callbacks task s).1.attempts)
      × (length (synthesize_with_escalation json callbacks task s).1.attempts
          ≤ length s.attempts + 6)
  synthesize_with_escalation-bound =
      let (trace, way, added) = synthesize_with_escalation-Climbs json callbacks task s in
      let bound = Escalation-length json task _ _ trace way in
      let total : length (synthesize_with_escalation json callbacks task s).1.attempts
          ≡ length s.attempts + length trace =
        ap length added ∙ length-append s.attempts trace in
      (omega arith, omega arith)
