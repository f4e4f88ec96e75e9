-- ===== src/Lexical/Planning/Planned.antt =====
-- What a plan of a retrieval promises.
use local_ai_broker.Prelude.{
  ℕ, String, Bool, true, false, not, List, [], ◌∷◌, ◌++◌, ◌||◌, ◌&&◌, str_eq, contains, keep,
  distinct, ◌≡◌, ◌⊎◌, refl, sym, arith, inl, inr, Bool-cases, ap, ◌∙◌, eq_iff,
}
use local_ai_broker.Prelude.Text.{strip}
use local_ai_broker.Lexical.{Input}
use local_ai_broker.Lexical.Blocks.{ChunkManifest}
use local_ai_broker.Prelude.{when, map}
use local_ai_broker.Prelude.Distinct.{member-append}
use local_ai_broker.Prelude.Search.{is_some}
use local_ai_broker.Lexical.Unique.{contains-unique_preserving_order}
use local_ai_broker.Lexical.Execution.{strategy_of}
use local_ai_broker.Lexical.Planning.{
  Tools, Requested, names, name, names_loop, normalize_strategy_names, default_strategies,
  found_strategies, available_strategies, RetrievalPlan, or_list, plan_retrieval,
}

contains-names_loop :
    (x : String) (seen items : List String)
    → contains x seen ≡ true
    → contains x (names_loop seen items) ≡ false
unfolding names_loop
contains-names_loop x seen [] h = refl
contains-names_loop x seen (item ∷ items) h = elim (Bool-cases (str_eq x (strip item))) [
  | inl same ↦
      let moved : contains (strip item) seen ≡ true =
        ap (λ s. contains s seen) (sym ((eq_iff x (strip item)).0 same)) ∙ h in
      ground (arith, contains-names_loop x seen items)
  | inr apart ↦
      ground
        (arith, contains-names_loop x seen items, contains-names_loop x (strip item ∷ seen) items)
]

names_loop-distinct : (seen items : List String) → distinct str_eq (names_loop seen items) ≡ true
unfolding names_loop
names_loop-distinct seen [] = refl
names_loop-distinct seen (item ∷ items) = ground (
  arith,
  names_loop-distinct seen items,
  names_loop-distinct (strip item ∷ seen) items,
  contains-names_loop (strip item) (strip item ∷ seen) items,
  (eq_iff (strip item) (strip item)).1 refl,
)

requested-distinct : (r : Requested) → distinct str_eq (normalize_strategy_names r) ≡ true
unfolding normalize_strategy_names
requested-distinct (names items) = names_loop-distinct [] items
requested-distinct (name item) = ground (arith, names_loop-distinct [] (item ∷ []))

defaults-distinct : (task_type : String) → distinct str_eq (default_strategies task_type) ≡ true
unfolding default_strategies
defaults-distinct task_type = ground arith

planned-distinct :
    (r : Requested) (task_type : String)
    → distinct str_eq (or_list (normalize_strategy_names r) (default_strategies task_type)) ≡ true
planned-distinct r task_type = chosen (normalize_strategy_names r) (requested-distinct r)
  where
    chosen :
        (l : List String)
        → distinct str_eq l ≡ true
        → distinct str_eq (or_list l (default_strategies task_type)) ≡ true
    chosen [] d = defaults-distinct task_type
    chosen (x ∷ xs) d = d

contains-keep :
    (x : String) (p : String → Bool) (xs : List String)
    → contains x (keep p xs) ≡ (contains x xs && p x)
contains-keep x p [] = refl
contains-keep x p (y ∷ ys) = elim (Bool-cases (str_eq x y)) [
  | inl same ↦
      let moved : p x ≡ p y = ap p ((eq_iff x y).0 same) in ground (arith, contains-keep x p ys)
  | inr apart ↦ ground (arith, contains-keep x p ys)
]

keep-distinct :
    (p : String → Bool) (xs : List String)
    → distinct str_eq xs ≡ true
    → distinct str_eq (keep p xs) ≡ true
keep-distinct p [] d = refl
keep-distinct p (x ∷ xs) d = ground (arith, keep-distinct p xs, contains-keep x p xs)

-- The strategies that a plan starts from, and those that it falls back to, against the plan.
pub record IsPlan (planned defaults : List String) (p : RetrievalPlan) : Type 0 where
  pub once : distinct str_eq p.effective_strategies ≡ true
  pub available :
      (x : String)
      → contains x p.effective_strategies ≡ true
      → contains x p.available_strategies ≡ true
  pub runs :
      (x : String) → contains x p.effective_strategies ≡ true → is_some (strategy_of x) ≡ true
  pub divided :
      (x : String)
      → contains x planned ≡ true
      → (contains x p.effective_strategies ≡ contains x p.available_strategies)
        × (contains x p.skipped_strategies ≡ not (contains x p.available_strategies))
  pub fallback :
      (x : String)
      → contains x p.effective_strategies ≡ true
      → contains x planned ≡ false
      → (contains x defaults ≡ true)
        × ((y : String) → contains y planned ≡ true → contains y p.available_strategies ≡ false)
  pub empty :
      p.effective_strategies ≡ []
      → (x : String) → (contains x planned || contains x defaults) ≡ true
      → contains x p.available_strategies ≡ false

-- What is taken of the planned and of the default strategies, by what can run.
module _ (can : String → Bool) (planned defaults : List String) where
  or_list-cases :
      (or_list (keep can planned) (keep can defaults) ≡ keep can planned)
      ⊎ ((keep can planned ≡ [])
          × (or_list (keep can planned) (keep can defaults) ≡ keep can defaults))
  or_list-cases = chosen (keep can planned)
    where
      chosen :
          (l : List String)
          → (or_list l (keep can defaults) ≡ l)
            ⊎ ((l ≡ []) × (or_list l (keep can defaults) ≡ keep can defaults))
      chosen [] = inr (refl, refl)
      chosen (x ∷ xs) = inl refl

  planned_cannot : keep can planned ≡ [] → (x : String) → contains x planned ≡ true → can x ≡ false
  planned_cannot nothing x there =
      ground (arith, contains-keep x can planned, ap (contains x) nothing)

  abbrev taken : List String
  taken = or_list (keep can planned) (keep can defaults)

  taken-distinct :
      distinct str_eq planned ≡ true
      → distinct str_eq defaults ≡ true
      → distinct str_eq taken ≡ true
  taken-distinct d e = elim or_list-cases [
    | inl own ↦ rw own (keep-distinct can planned d)
    | inr (nothing, default) ↦ rw default (keep-distinct can defaults e)
  ]

  taken_can : (x : String) → contains x taken ≡ true → can x ≡ true
  taken_can x there = elim or_list-cases [
    | inl own ↦ ground (arith, ap (contains x) own, contains-keep x can planned)
    | inr (nothing, default) ↦ ground (arith, ap (contains x) default, contains-keep x can defaults)
  ]

  taken_planned : (x : String) → contains x planned ≡ true → contains x taken ≡ can x
  taken_planned x there = elim or_list-cases [
    | inl own ↦ ground (arith, ap (contains x) own, contains-keep x can planned)
    | inr (nothing, default) ↦ ground (
      arith,
      ap (contains x) default,
      contains-keep x can defaults,
      planned_cannot nothing x there,
    )
  ]

  taken_default :
      (x : String)
      → contains x taken ≡ true
      → contains x planned ≡ false
      → (contains x defaults ≡ true) × ((y : String) → contains y planned ≡ true → can y ≡ false)
  taken_default x there other = elim or_list-cases [
    | inl own ↦ absurd (ground (arith, ap (contains x) own, contains-keep x can planned))
    | inr (nothing, default) ↦ (
      ground (arith, ap (contains x) default, contains-keep x can defaults),
      planned_cannot nothing,
    )
  ]

  taken_none :
      taken ≡ [] → (x : String) → (contains x planned || contains x defaults) ≡ true → can x ≡ false
  taken_none none_taken x there = elim or_list-cases [
    | inl own ↦
        let nothing = sym own ∙ none_taken in
        let other : keep can defaults ≡ [] =
          ap (λ l. or_list l (keep can defaults)) (sym nothing) ∙ none_taken in
        ground (
          arith,
          ap (contains x) nothing,
          ap (contains x) other,
          contains-keep x can planned,
          contains-keep x can defaults,
        )
    | inr (nothing, default) ↦ ground (
      arith,
      ap (contains x) nothing,
      ap (contains x) (sym default ∙ none_taken),
      contains-keep x can planned,
      contains-keep x can defaults,
    )
  ]

executable : String → Bool
executable strategy = is_some (strategy_of strategy)

-- A list of strategies that all have an executor.
Run : List String → Type 0
Run l = (x : String) → contains x l ≡ true → executable x ≡ true

Run-when : (b : Bool) (y : String) → executable y ≡ true → Run (when b y)
unfolding Run
Run-when false y runs x there = cc
Run-when true y runs x there = ap executable ((eq_iff x y).0 (ground arith)) ∙ runs

Run-next :
    (b : Bool) (y : String) (l : List String) → executable y ≡ true → Run l → Run (l ++ when b y)
unfolding Run
Run-next b y l runs others x there =
    ground (arith, member-append str_eq x l (when b y), Run-when b y runs x, others x)

found_strategies-Run :
    (tools : Tools) (task_type : String) (discovered : List Input)
    → Run (found_strategies tools task_type discovered)
unfolding found_strategies executable strategy_of
found_strategies-Run tools task_type discovered =
    let input_types = map (λ (item : Input). item.type) discovered in
    let logs = contains "log" input_types in
    let code = contains "repo" input_types || contains "file" input_types in
    let debugs = str_eq task_type "debug_with_local_context" in
    Run-next (contains "artifact" input_types) "artifact_context" _ refl (
      Run-next (contains "document" input_types) "embeddings" _ refl (
        Run-next (code && (debugs || str_eq task_type "propose_patch")) "git_diff_history" _ refl (
          Run-next (code && tools.tree_sitter) "tree_sitter" _ refl (
            Run-next (code) "bm25" _ refl (
              Run-next (code && tools.ripgrep) "ripgrep" _ refl (
                Run-next (code && str_eq task_type "inspect_repo") "repo_structure" _ refl (
                  Run-next (logs && debugs) "stack_trace_path" _ refl (
                    Run-next (logs) "bm25" _ refl
                      (Run-when (logs && tools.ripgrep) "ripgrep" refl)))))))))

available_strategies-Run :
    (tools : Tools) (task_type : String) (discovered : List Input)
    → Run (available_strategies tools task_type discovered)
unfolding available_strategies Run
available_strategies-Run tools task_type discovered x there =
    found_strategies-Run tools task_type discovered x (
      sym (contains-unique_preserving_order x (found_strategies tools task_type discovered))
      ∙ there)

-- A plan names no strategy twice, only strategies that are available and have an executor; a planned
-- strategy (a requested one, or a default one where none is requested) is effective where it is
-- available and skipped where it is not; another one is effective only as a default, where no planned
-- one is available; and none is effective only where no planned and no default one is available.
pub plan_retrieval-IsPlan :
    (tools : Tools) (task_type : String) (retrieval_strategies : Requested)
    (discovered : List Input) (chunk_manifest : ChunkManifest) (budget : ℕ)
    → IsPlan
        (or_list (normalize_strategy_names retrieval_strategies) (default_strategies task_type))
        (default_strategies task_type)
        (plan_retrieval tools task_type retrieval_strategies discovered chunk_manifest budget)
unfolding plan_retrieval executable Run
plan_retrieval-IsPlan tools task_type requested discovered manifest budget =
    let available = available_strategies tools task_type discovered in
    let defaults = default_strategies task_type in
    let planned = or_list (normalize_strategy_names requested) defaults in
    let can = λ (x : String). contains x available in
    let once = planned-distinct requested task_type in
    record {
      once = taken-distinct can planned defaults once (defaults-distinct task_type);
      available = taken_can can planned defaults;
      runs = λ x there.
          available_strategies-Run tools task_type discovered x
            (taken_can can planned defaults x there);
      divided = λ x there. (
        taken_planned can planned defaults x there,
        contains-keep x (λ y. not (can y)) planned ∙ ap (λ b. b && not (can x)) there,
      );
      fallback = taken_default can planned defaults;
      empty = taken_none can planned defaults;
    }
