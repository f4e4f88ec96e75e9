-- ===== src/Lexical/Guidance/Recorded.antt =====
-- The modes that strategies and the runtime record, and the paths of the selected chunks.
use local_ai_broker.Prelude.{
  ◌≡◌, ◌↔◌, String, Bool, true, false, not, List, [], ◌∷◌, ◌++◌, ◌||◌, ◌&&◌, str_eq, contains, keep,
  map, All, refl, sym, ap, ◌∙◌, arith, inl, inr, Bool-cases, eq_iff,
}
use mathlib.Core.Bool.{false≢true, true≢false}
use mathlib.Core.Path.{subst}
use local_ai_broker.Prelude.Text.{is_empty}
use local_ai_broker.Prelude.Membership.{
  In, All-In, In-All, contains-In, In-contains, keep-eq-nil, keep-false,
}
use local_ai_broker.Lexical.Blocks.{hits_excluded}
use local_ai_broker.Lexical.Merging.{StrategyStat}
use local_ai_broker.Lexical.Picking.{Adapter, Selected}
use local_ai_broker.Lexical.Guidance.{mode_of, degraded_modes, modes_of, contaminated}

-- The modes as they are recorded, with an empty text for one that is missing.
abbrev pub recorded_modes : List StrategyStat → Adapter → List String
recorded_modes executions adapter =
    map (λ (s : StrategyStat). s.backend_mode) executions ++ adapter.backend_mode ∷ []

abbrev pub weakened : List String
weakened = "heuristic" ∷ "fallback" ∷ "unavailable" ∷ "configured_local_llm" ∷ []

-- The modes that are asked about are not that of a missing one.
abbrev IsKnown : String → Type 0
IsKnown x = (str_eq x "unknown" ≡ false) × (is_empty x ≡ false)

mode_of-same : (x mode : String) → IsKnown x → str_eq x (mode_of mode) ≡ str_eq x mode
mode_of-same x String.[] (known, full) =
    known
    ∙ sym (elim (Bool-cases (str_eq x "")) [
      | inr apart ↦ apart
      | inl same ↦ absurd (false≢true (sym full ∙ ap is_empty ((eq_iff x "").0 same)))
    ])
mode_of-same x (String.◌∷◌ c mode) known = refl

pub contains-modes_of :
    (x : String) (executions : List StrategyStat) (adapter : Adapter)
    → IsKnown x
    → contains x (modes_of executions adapter) ≡ contains x (recorded_modes executions adapter)
contains-modes_of x [] adapter known =
    ap (λ b. b || false) (mode_of-same x adapter.backend_mode known)
contains-modes_of x (s ∷ ss) adapter known =
    ground (arith, mode_of-same x s.backend_mode known, contains-modes_of x ss adapter known)

weakened-IsKnown : (x : String) → In x weakened → IsKnown x
weakened-IsKnown x (inl same) = subst IsKnown (sym same) (refl, refl)
weakened-IsKnown x (inr (inl same)) = subst IsKnown (sym same) (refl, refl)
weakened-IsKnown x (inr (inr (inl same))) = subst IsKnown (sym same) (refl, refl)
weakened-IsKnown x (inr (inr (inr (inl same)))) = subst IsKnown (sym same) (refl, refl)
weakened-IsKnown x (inr (inr (inr (inr none_more)))) = absurd none_more

module _ (executions : List StrategyStat) (adapter : Adapter) where
  pub strong_iff :
      ((mode : String)
        → contains mode degraded_modes ≡ true
        → contains mode (modes_of executions adapter) ≡ false)
      ↔ All (λ mode. contains mode weakened ≡ false) (recorded_modes executions adapter)
  strong_iff = (
    λ strong. In-All _ (recorded_modes executions adapter) (λ mode place.
        elim (Bool-cases (contains mode weakened)) [
          | inr fine ↦ fine
          | inl weak ↦ absurd (
              false≢true (
                sym (strong mode weak)
                ∙ contains-modes_of mode executions adapter
                    (weakened-IsKnown mode (contains-In mode weakened weak))
                ∙ In-contains mode (recorded_modes executions adapter) place))
        ]),
    λ each mode weak.
        contains-modes_of mode executions adapter
          (weakened-IsKnown mode (contains-In mode weakened weak))
        ∙ elim (Bool-cases (contains mode (recorded_modes executions adapter))) [
          | inr absent ↦ absent
          | inl there ↦ absurd (
              true≢false (
                sym weak
                ∙ All-In (λ m. contains m weakened ≡ false) mode (recorded_modes executions adapter)
                    each (contains-In mode (recorded_modes executions adapter) there)))
        ],
  )

-- No selected path is under an excluded directory.
module _ (parts_of : String → List String) (excluded : List String) where
  abbrev pub IsClean : Selected → Type 0
  IsClean s =
      (not (is_empty s.chunk.path) && hits_excluded excluded (parts_of s.chunk.path)) ≡ false

  pub uncontaminated_iff :
      (selected : List Selected)
      → (contaminated parts_of excluded selected ≡ []) ↔ All IsClean selected
  uncontaminated_iff selected = (λ nothing. cleaned selected nothing, kept selected)
    where
      test : String → Bool
      test path = not (is_empty path) && hits_excluded excluded (parts_of path)

      paths : List Selected → List String
      paths ss = map (λ (s : Selected). s.chunk.path) ss

      cleaned : (ss : List Selected) → keep test (paths ss) ≡ [] → All IsClean ss
      cleaned ss nothing = spread ss (keep-eq-nil test (paths ss) nothing)
        where
          spread : (ts : List Selected) → All (λ p. test p ≡ false) (paths ts) → All IsClean ts
          spread [] h = tt
          spread (t ∷ ts) h = (h.0, spread ts h.1)

      kept : (ss : List Selected) → All IsClean ss → keep test (paths ss) ≡ []
      kept [] h = refl
      kept (s ∷ ss) h = keep-false test s.chunk.path (paths ss) h.0 ∙ kept ss h.1
