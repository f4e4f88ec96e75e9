-- ===== src/Lexical/Merging/Gathered.antt =====
-- The candidates of an executed plan: each one stands for a chunk that a strategy of the plan scored.
use local_ai_broker.Prelude.{
  ℕ, suc, ◌+◌, ◌≤◌, ◌<◌, String, Bool, true, false, none, some, List, [], ◌∷◌, ◌++◌, str_eq,
  contains, distinct, length, take, map, ◌==◌, if◌then◌else◌, ◌≡◌, refl, ap, ◌∙◌, arith, inl, inr,
  Bool-cases, Option-cases, All, All-take, All-snoc, All-sort_by, length-append, eq_iff,
}
use local_ai_broker.Prelude.Distinct.{str_eq_comm, distinct-snoc, member-append}
use local_ai_broker.Prelude.TextOrder.{sort_by-eq-nil}
use local_ai_broker.Prelude.Membership.{In}
use mathlib.Core.List.{cons≢nil}
use local_ai_broker.Lexical.{Chunk}
use local_ai_broker.Lexical.Unique.{contains-unique_preserving_order}
use local_ai_broker.Lexical.Execution.{strategy_of, execute}
use local_ai_broker.Lexical.Execution.Signals.{Findings, Executed, Task}
use local_ai_broker.Lexical.Merging.{
  Candidate, id_of, make_candidate, scores_before, candidates_loop, strategy_candidates, joined,
  merge_one, merge_all, Merging, run_strategies,
}

-- What a strategy gives a chunk; nothing where it has no executor.
unfoldable pub score_of : (Chunk → Findings) → Task → String → Chunk → ℕ
score_of found task name chunk = elim (strategy_of name) [
  | none ↦ 0
  | some strategy ↦ (execute strategy (found chunk) chunk task).score
]

-- A candidate that stands for one of the chunks, with a score above 0 and strategies of a list, at least one.
pub record IsBacked (chunks : List Chunk) (names : List String) (c : Candidate) : Type 0 where
  pub of_chunk : In c.chunk chunks
  pub positive : 0 < c.score
  pub strategies :
      (name : String) → contains name c.matched_strategies ≡ true → contains name names ≡ true

module _ (P : Candidate → Type 0) (executor : Chunk → Executed) (name : String) where
  candidates_loop-All :
      (chunks : List Chunk) (mode detail : String) (scored : List Candidate)
      → ((chunk : Chunk)
          → In chunk chunks
          → 0 < (executor chunk).score
          → P (make_candidate chunk (executor chunk).score (executor chunk).reasons (name ∷ [])))
      → All P scored
      → All P (candidates_loop executor name chunks mode detail scored).candidates
  unfolding candidates_loop
  candidates_loop-All [] mode detail scored each h = h
  candidates_loop-All (chunk ∷ chunks) mode detail scored each h =
      candidates_loop-All chunks _ _ _ (λ c place. each c (inr place))
        (elim (Bool-cases ((executor chunk).score == 0)) [
          | inl nothing ↦ rw nothing h
          | inr something ↦
              rw something (All-snoc P scored _ h (each chunk (inl refl) (ground arith)))
        ])

-- Where the loop has no candidate, it scored nothing.
candidates_loop-none :
    (executor : Chunk → Executed) (name : String) (chunks : List Chunk) (mode detail : String)
    (scored : List Candidate)
    → (candidates_loop executor name chunks mode detail scored).candidates ≡ []
    → (scored ≡ []) × ((chunk : Chunk) → In chunk chunks → (executor chunk).score ≡ 0)
unfolding candidates_loop
candidates_loop-none executor name [] mode detail scored h = (h, λ chunk place. absurd place)
candidates_loop-none executor name (chunk ∷ chunks) mode detail scored h =
    let (before, each) = candidates_loop-none executor name chunks _ _ _ h in
    elim (Bool-cases ((executor chunk).score == 0)) [
      | inl nothing ↦ (
        rw nothing at before,
        λ c. elim [
          | inl same ↦ ap (λ x. (executor x).score) same ∙ ground arith
          | inr later ↦ each c later
        ],
      )
      | inr something ↦
          let longer : scored
                ++ make_candidate chunk (executor chunk).score (executor chunk).reasons (name ∷ [])
                  ∷ []
              ≡ [] =
            rw something at before in
          absurd (
            omega (
              arith,
              ap length longer,
              length-append scored (
                  make_candidate chunk (executor chunk).score (executor chunk).reasons (name ∷ [])
                  ∷ []),
            ))
    ]

take-eq-nil : {A : Type 0} (n : ℕ) (xs : List A) → take (suc n) xs ≡ [] → xs ≡ []
take-eq-nil n [] h = refl
take-eq-nil n (x ∷ xs) h = absurd (cons≢nil h)

module _ (found : Chunk → Findings) (task : Task) (chunks : List Chunk) where
  strategy_candidates-IsBacked :
      (name : String) (names : List String)
      → contains name names ≡ true
      → All (IsBacked chunks names) (strategy_candidates found task name chunks).candidates
  unfolding strategy_candidates
  strategy_candidates-IsBacked name names there = elim (Option-cases (strategy_of name)) [
    | inl missing ↦ rw (missing, strategy_candidates) tt
    | inr (strategy, present) ↦
        rw (present, strategy_candidates)
          (All-take (IsBacked chunks names) 24 _ (
            All-sort_by (IsBacked chunks names) scores_before _ (
              candidates_loop-All (IsBacked chunks names)
                (λ chunk. execute strategy (found chunk) chunk task) name chunks "heuristic"
                "deterministic_executor" []
                (λ chunk place positive. record {
                  of_chunk = place;
                  positive = positive;
                  strategies =
                      λ x h. ap (λ y. contains y names) ((eq_iff x name).0 (ground arith)) ∙ there;
                })
                tt)))
  ]

  strategy_candidates-none :
      (name : String)
      → (strategy_candidates found task name chunks).candidates ≡ []
      → (chunk : Chunk) → In chunk chunks
      → score_of found task name chunk ≡ 0
  unfolding strategy_candidates score_of
  strategy_candidates-none name h chunk place = elim (Option-cases (strategy_of name)) [
    | inl missing ↦ rw (missing, score_of) refl
    | inr (strategy, present) ↦
        rw (present, score_of)
          ((candidates_loop-none (λ c. execute strategy (found c) c task) name chunks "heuristic"
              "deterministic_executor" []
              (sort_by-eq-nil scores_before _
                (take-eq-nil 23 _ (rw (present, strategy_candidates) at h)))).1
            chunk place)
  ]

joined-IsBacked :
    (chunks : List Chunk) (names : List String) (x c : Candidate)
    → IsBacked chunks names x
    → IsBacked chunks names c
    → IsBacked chunks names (joined x c)
joined-IsBacked chunks names x c b d = record {
  of_chunk = b.of_chunk;
  positive = omega (arith, b.positive);
  strategies = λ name there. ground (
    arith,
    contains-unique_preserving_order name (x.matched_strategies ++ c.matched_strategies),
    member-append str_eq name x.matched_strategies c.matched_strategies,
    b.strategies name,
    d.strategies name,
  );
}

-- What a merge keeps: the ids stay different, and the candidates stay backed.
module _ (chunks : List Chunk) (names : List String) where
  merge_one-IsBacked :
      (c : Candidate) (merged : List Candidate)
      → IsBacked chunks names c
      → All (IsBacked chunks names) merged
      → All (IsBacked chunks names) (merge_one c merged)
  unfolding merge_one
  merge_one-IsBacked c [] b h = (b, tt)
  merge_one-IsBacked c (x ∷ xs) b h = elim (Bool-cases (str_eq (id_of x) (id_of c))) [
    | inl same ↦ rw (same, merge_one) (joined-IsBacked chunks names x c h.0 b, h.1)
    | inr apart ↦ rw (apart, merge_one) (h.0, merge_one-IsBacked c xs b h.1)
  ]

  merge_all-IsBacked :
      (cs merged : List Candidate)
      → All (IsBacked chunks names) cs
      → All (IsBacked chunks names) merged
      → All (IsBacked chunks names) (merge_all cs merged)
  unfolding merge_all
  merge_all-IsBacked [] merged h k = k
  merge_all-IsBacked (c ∷ cs) merged h k =
      merge_all-IsBacked cs (merge_one c merged) h.1 (merge_one-IsBacked c merged h.0 k)

abbrev pub ids_of : List Candidate → List String
ids_of cs = map id_of cs

ids_of-merge_one :
    (c : Candidate) (merged : List Candidate)
    → ids_of (merge_one c merged) ≡ (
        if contains (id_of c) (ids_of merged) then ids_of merged else ids_of merged ++ id_of c ∷ [])
unfolding merge_one
ids_of-merge_one c [] = refl
ids_of-merge_one c (x ∷ xs) = elim (Bool-cases (str_eq (id_of x) (id_of c))) [
  | inl same ↦ rw (same, merge_one, str_eq_comm (id_of c) (id_of x) ∙ same) refl
  | inr apart ↦
      rw (apart, merge_one, str_eq_comm (id_of c) (id_of x) ∙ apart)
        (ap (λ l. id_of x ∷ l) (ids_of-merge_one c xs) ∙ pushed (contains (id_of c) (ids_of xs)))
]
  where
    pushed :
        (b : Bool)
        → id_of x ∷ (if b then ids_of xs else ids_of xs ++ id_of c ∷ [])
          ≡ (if b then id_of x ∷ ids_of xs else id_of x ∷ ids_of xs ++ id_of c ∷ [])
    pushed true = refl
    pushed false = refl

merge_all-distinct :
    (cs merged : List Candidate)
    → distinct str_eq (ids_of merged) ≡ true
    → distinct str_eq (ids_of (merge_all cs merged)) ≡ true
unfolding merge_all
merge_all-distinct [] merged d = d
merge_all-distinct (c ∷ cs) merged d = merge_all-distinct cs (merge_one c merged) (
    ap (distinct str_eq) (ids_of-merge_one c merged)
    ∙ elim (Bool-cases (contains (id_of c) (ids_of merged))) [
      | inl old ↦ rw old d
      | inr new ↦ rw new (distinct-snoc str_eq str_eq_comm (ids_of merged) (id_of c) d new)
    ])

merge_one-some :
    (c : Candidate) (merged : List Candidate)
    → 1 + length merged ≤ length (merge_one c merged) + length merged
unfolding merge_one
merge_one-some c [] = omega arith
merge_one-some c (x ∷ xs) = ground arith

merge_all-none : (cs merged : List Candidate) → merge_all cs merged ≡ [] → (cs ≡ []) × (merged ≡ [])
unfolding merge_all
merge_all-none [] merged h = (refl, h)
merge_all-none (c ∷ cs) merged h =
    absurd (
      omega
        (arith, ap length (merge_all-none cs (merge_one c merged) h).1, merge_one-some c merged))

-- What a run of the strategies keeps, and that it scored nothing where it merged nothing.
module _ (found : Chunk → Findings) (task : Task) (chunks : List Chunk) where
  pub run_strategies-IsBacked :
      (all names : List String) (m : Merging)
      → ((name : String) → In name names → contains name all ≡ true)
      → All (IsBacked chunks all) m.merged
      → distinct str_eq (ids_of m.merged) ≡ true
      → All (IsBacked chunks all) (run_strategies found task chunks names m).merged
        × (distinct str_eq (ids_of (run_strategies found task chunks names m).merged) ≡ true)
  unfolding run_strategies
  run_strategies-IsBacked all [] m within h d = (h, d)
  run_strategies-IsBacked all (name ∷ names) m within h d =
      let cs = (strategy_candidates found task name chunks).candidates in
      run_strategies-IsBacked all names _ (λ n place. within n (inr place))
        (merge_all-IsBacked chunks all cs m.merged
          (strategy_candidates-IsBacked found task chunks name all (within name (inl refl))) h)
        (merge_all-distinct cs m.merged d)

  pub run_strategies-none :
      (names : List String) (m : Merging)
      → (run_strategies found task chunks names m).merged ≡ []
      → (m.merged ≡ [])
        × ((name : String)
            → In name names
            → (chunk : Chunk) → In chunk chunks
            → score_of found task name chunk ≡ 0)
  unfolding run_strategies
  run_strategies-none [] m h = (h, λ name place. absurd place)
  run_strategies-none (name ∷ names) m h =
      let (nothing, later) = run_strategies-none names _ h in
      let (no_candidates, before) =
        merge_all-none (strategy_candidates found task name chunks).candidates m.merged nothing in
      (
        before,
        λ n. elim [
          | inl same ↦ λ chunk place.
              ap (λ x. score_of found task x chunk) same
              ∙ strategy_candidates-none found task chunks name no_candidates chunk place
          | inr place ↦ later n place
        ],
      )
