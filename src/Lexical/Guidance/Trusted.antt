-- ===== src/Lexical/Guidance/Trusted.antt =====
-- When a result calls its evidence ready.
use mathlib.Core.Bool.{false≢true}
use local_ai_broker.Prelude.{
  ◌≡◌, ◌↔◌, ◌⊎◌, String, Bool, true, false, not, List, [], ◌∷◌, ◌++◌, ◌||◌, ◌&&◌, str_eq, contains,
  any, all, All, when, map, ltb, length, ◌==◌, refl, sym, ap, ◌∙◌, arith, inl, inr, Bool-cases,
  eq_iff,
}
use local_ai_broker.Prelude.Distinct.{member-append, str_eq_comm}
use local_ai_broker.Evidence.{PackState}
use local_ai_broker.RepoSummary.{tally, count_in}
use local_ai_broker.RepoSummary.Counted.{occurrences, count_in-tally}
use local_ai_broker.Lexical.Merging.{Retrieval, StrategyStat}
use local_ai_broker.Lexical.Picking.{Adapter, Selected}
use local_ai_broker.Lexical.Pack.{Evidence}
use local_ai_broker.Lexical.Guidance.Recorded.{
  recorded_modes, weakened, contains-modes_of, strong_iff, IsClean, uncontaminated_iff,
}
use local_ai_broker.Lexical.Guidance.{
  mode_of, degraded_modes, modes_of, contaminated, PolicySignals, build_retrieval_policy_signals,
  validation_warnings, build_usage_guidance, AgentSummary, confidence_label, build_agent_summary,
}

occurrences-contains : (x : String) (xs : List String) → ltb 0 (occurrences x xs) ≡ contains x xs
occurrences-contains x [] = refl
occurrences-contains x (y ∷ ys) = ground (arith, occurrences-contains x ys, str_eq_comm x y)

counted-contains :
    (x : String) (xs : List String) → ltb 0 (count_in x (tally xs [])) ≡ contains x xs
unfolding count_in
counted-contains x xs = ground (arith, count_in-tally x xs [], occurrences-contains x xs)

contains-when : (b : Bool) (x y : String) → contains x (when b y) ≡ (b && str_eq x y)
contains-when false x y = refl
contains-when true x y = ground arith

-- The warnings of a result, by what each stands for.
abbrev warned : (p d n i q r : Bool) → List String
warned p d n i q r =
    when p "FINAL_EVIDENCE_PACK_TRIMMED"
    ++ (when d "LOCAL_RETRIEVAL_DEGRADED"
        ++ when n "NO_REAL_RETRIEVAL_BACKEND"
        ++ when i "IGNORED_PATH_RETRIEVAL_CONTAMINATION")
    ++ when q "NO_REQUESTED_RETRIEVAL_STRATEGY_EXECUTED"
    ++ when r "MISSING_EVIDENCE_REFS"

guidance-warned :
    (p d n i q r : Bool)
    → (build_usage_guidance (warned p d n i q r)).needs_direct_verification ≡ (n || d || i)
unfolding build_usage_guidance
guidance-warned p d n i q r = simp (member-append, contains-when) (ground arith)

-- The confidence is never high where the evidence is to be verified.
confidence-verified :
    (task_type : String) (evidence : List Evidence) (warnings : List String)
    → (build_agent_summary task_type evidence warnings).usage_guidance.needs_direct_verification
      ≡ true
    → ((build_agent_summary task_type evidence warnings).confidence ≡ "low")
      ⊎ ((build_agent_summary task_type evidence warnings).confidence ≡ "medium")
unfolding build_agent_summary build_usage_guidance confidence_label
confidence-verified task_type evidence warnings verify =
    elim (Bool-cases (contains "NO_REAL_RETRIEVAL_BACKEND" warnings)) [
      | inl unreal ↦ rw (unreal, build_agent_summary, build_usage_guidance) (inl refl)
      | inr real ↦
          elim (Bool-cases (
            contains "LOCAL_RETRIEVAL_DEGRADED" warnings
            || contains "IGNORED_PATH_RETRIEVAL_CONTAMINATION" warnings)) [
              | inl weak ↦ rw (real, weak, build_agent_summary, build_usage_guidance) (inr refl)
              | inr ready ↦ absurd (false≢true (rw (real, ready, build_usage_guidance) at verify))
            ]
    ]

any-false :
    (p : String → Bool) (xs : List String)
    → any p xs ≡ false
    → (x : String) → contains x xs ≡ true
    → p x ≡ false
any-false p [] h x there = cc
any-false p (y ∷ ys) h x there = elim (Bool-cases (str_eq x y)) [
  | inl same ↦ ap p ((eq_iff x y).0 same) ∙ ground arith
  | inr apart ↦ any-false p ys (ground arith) x (ground arith)
]

any-none :
    (p : String → Bool) (xs : List String)
    → ((x : String) → contains x xs ≡ true → p x ≡ false)
    → any p xs ≡ false
any-none p [] none_holds = refl
any-none p (y ∷ ys) none_holds = ground (
  arith,
  (eq_iff y y).1 refl,
  none_holds y,
  any-none p ys (λ x there. none_holds x (ground arith)),
)

module _ (parts_of : String → List String) (task_type : String) (executions : List StrategyStat)
    (selected : List Selected) (excluded : List String) (adapter : Adapter) where
  abbrev pub modes : List String
  modes = modes_of executions adapter

  abbrev pub signals : PolicySignals
  signals = build_retrieval_policy_signals parts_of task_type executions selected excluded adapter

  heuristic_counted :
      contains "heuristic" modes ≡ false → str_eq (mode_of adapter.backend_mode) "heuristic" ≡ false
  heuristic_counted none_there = ground (
    arith,
    member-append str_eq "heuristic" (map (λ (s : StrategyStat). mode_of s.backend_mode) executions)
        (mode_of adapter.backend_mode ∷ []),
    str_eq_comm (mode_of adapter.backend_mode) "heuristic",
  )

  degraded_any :
      any (λ mode. ltb 0 (count_in mode (tally modes []))) degraded_modes
      ≡ any (λ mode. contains mode modes) degraded_modes
  degraded_any =
      rw
        (
          counted-contains "heuristic" modes,
          counted-contains "fallback" modes,
          counted-contains "unavailable" modes,
          counted-contains "configured_local_llm" modes,
        )
        refl

  -- What the code counts where the evidence is called ready.
  abbrev IsStrong : Type 0
  IsStrong =
      (contains "real" modes ≡ true)
      × ((mode : String) → contains mode degraded_modes ≡ true → contains mode modes ≡ false)
      × (contaminated parts_of excluded selected ≡ [])

  abbrev weak : Bool
  weak = any (λ mode. contains mode modes) degraded_modes

  abbrev unreal : Bool
  unreal =
      (str_eq task_type "rag_compress"
        && (str_eq (mode_of adapter.backend_mode) "heuristic"
            && str_eq adapter.name "deterministic"))
      || count_in "real" (tally modes []) == 0

  abbrev spoiled : Bool
  spoiled = ltb 0 (length (contaminated parts_of excluded selected))

  strong_counts : ((unreal || weak || spoiled) ≡ false) ↔ IsStrong
  strong_counts = (
    λ h. (
      ground (arith, counted-contains "real" modes),
      any-false (λ mode. contains mode modes) degraded_modes (ground arith),
      nothing (contaminated parts_of excluded selected) (ground arith),
    ),
    λ (real, strong, clean).
        let none_weak = any-none (λ mode. contains mode modes) degraded_modes strong in
        ground (
          arith,
          counted-contains "real" modes,
          heuristic_counted (strong "heuristic" refl),
          ap length clean,
          none_weak,
        ),
  )
    where
      nothing : (l : List String) → ltb 0 (length l) ≡ false → l ≡ []
      nothing [] e = refl
      nothing (x ∷ xs) e = absurd (ground arith)

  -- What is recorded where the evidence is called ready.
  abbrev pub IsReady : Type 0
  IsReady =
      (contains "real" (recorded_modes executions adapter) ≡ true)
      × All (λ mode. contains mode weakened ≡ false) (recorded_modes executions adapter)
      × All (IsClean parts_of excluded) selected

  counted : ((unreal || weak || spoiled) ≡ false) ↔ IsReady
  counted = (
    λ h.
        let (real, strong, clean) = strong_counts.0 h in
        (
          sym (contains-modes_of "real" executions adapter (refl, refl)) ∙ real,
          (strong_iff executions adapter).0 strong,
          (uncontaminated_iff parts_of excluded selected).0 clean,
        ),
    λ (real, strong, clean). strong_counts.1 (
      contains-modes_of "real" executions adapter (refl, refl) ∙ real,
      (strong_iff executions adapter).1 strong,
      (uncontaminated_iff parts_of excluded selected).1 clean,
    ),
  )

  -- Warnings of such a result, with whatever budget and statistics.
  module _ (pack : PackState Evidence) (retrieval : Retrieval) (evidence : List Evidence) where
    abbrev pub summary : AgentSummary
    summary =
        build_agent_summary task_type evidence (validation_warnings pack signals retrieval evidence)

    verification : summary.usage_guidance.needs_direct_verification ≡ (unreal || weak || spoiled)
    unfolding build_agent_summary build_retrieval_policy_signals validation_warnings
    verification =
        guidance-warned (ltb 0 pack.trimmed_evidence_count)
          (any (λ mode. ltb 0 (count_in mode (tally modes []))) degraded_modes) unreal spoiled
          (ltb 0 (length retrieval.requested_strategies) && length retrieval.strategies == 0)
          (not (all (λ (e : Evidence). ltb 0 (length e.source_refs)) evidence))
        ∙ ap (λ b. unreal || b || spoiled) degraded_any

    -- A result calls its evidence ready exactly where, of the modes that are recorded for the executed
    -- strategies and the runtime, one is real and none is heuristic, fallback, unavailable or
    -- configured_local_llm, and no selected path is under an excluded directory; otherwise its
    -- confidence is low or medium. A mode that is missing counts for neither, as that of the strategy
    -- fallback is, whose use therefore keeps no evidence from being called ready.
    pub build_agent_summary-IsReady :
        (summary.usage_guidance.needs_direct_verification ≡ false ↔ IsReady)
        × (summary.usage_guidance.needs_direct_verification ≡ true
            → (summary.confidence ≡ "low") ⊎ (summary.confidence ≡ "medium"))
    build_agent_summary-IsReady = (
      (λ ready. counted.0 (sym verification ∙ ready), λ ready. verification ∙ counted.1 ready),
      confidence-verified task_type evidence (validation_warnings pack signals retrieval evidence),
    )
