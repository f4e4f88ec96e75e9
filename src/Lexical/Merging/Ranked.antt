-- ===== src/Lexical/Merging/Ranked.antt =====
-- What the execution of a plan returns.
use local_ai_broker.Prelude.{
  ℕ, ◌≤◌, String, true, List, [], ◌∷◌, str_eq, distinct, length, take, sort_by, ◌≡◌, refl, ap,
  arith, ◌∙◌, All, All-take, map-take, All-sort_by, length-take, length-map,
}
use local_ai_broker.Prelude.Distinct.{str_eq_comm, distinct-take}
use local_ai_broker.Prelude.Sorting.{Sorted, Sorted-take, sort_by-Sorted, distinct-sort_by}
use local_ai_broker.Prelude.TextOrder.{sort_by-eq-nil}
use local_ai_broker.Prelude.Membership.{In, In-contains}
use local_ai_broker.Service.{or_number}
use local_ai_broker.Lexical.{Chunk}
use local_ai_broker.Lexical.Planning.{RetrievalPlan}
use local_ai_broker.Lexical.Blocks.{ChunkManifest}
use local_ai_broker.Lexical.Execution.Signals.{Findings, Task}
use local_ai_broker.Lexical.Merging.{
  Candidate, id_of, make_candidate, fallback_score, scores_before, Merging, run_strategies,
  fallback_candidates, StrategyStat, or_fallback, candidate_limit, execute_retrieval_plan,
}
use local_ai_broker.Lexical.Merging.Gathered.{
  score_of, IsBacked, ids_of, run_strategies-IsBacked, run_strategies-none,
}

module _ (found : Chunk → Findings) (task : Task) (chunks : List Chunk) where
  -- Candidates of strategies, or, where these score nothing, the first chunks.
  pub data IsRetrieved (names : List String) (limit : ℕ) (candidates : List Candidate)
      : Type 0 where
    scored :
        distinct str_eq (ids_of candidates) ≡ true
        → All (IsBacked chunks names) candidates
        → Sorted scores_before candidates
        → length candidates ≤ limit
        → IsRetrieved names limit candidates
    unscored :
        candidates ≡ take limit (fallback_candidates found task chunks)
        → ((name : String)
            → In name names
            → (chunk : Chunk) → In chunk chunks
            → score_of found task name chunk ≡ 0)
        → IsRetrieved names limit candidates

module _ (found : Chunk → Findings) (task : Task) (chunks : List Chunk) where
  or_fallback-IsRetrieved :
      (names : List String) (limit : ℕ) (sorted : List Candidate) (stats : List StrategyStat)
      → distinct str_eq (ids_of sorted) ≡ true
      → All (IsBacked chunks names) sorted
      → Sorted scores_before sorted
      → (sorted ≡ []
          → (name : String) → In name names
          → (chunk : Chunk) → In chunk chunks
          → score_of found task name chunk ≡ 0)
      → IsRetrieved found task chunks names limit
          (take limit (or_fallback found task chunks sorted stats).0)
  unfolding or_fallback
  or_fallback-IsRetrieved names limit [] stats d b o nothing = unscored refl (nothing refl)
  or_fallback-IsRetrieved names limit (c ∷ cs) stats d b o nothing =
      scored
        (ap (distinct str_eq) (map-take id_of limit (c ∷ cs))
          ∙ distinct-take str_eq limit (ids_of (c ∷ cs)) d)
        (All-take (IsBacked chunks names) limit (c ∷ cs) b)
        (Sorted-take scores_before limit (c ∷ cs) o) (omega (arith, length-take limit (c ∷ cs)))

  -- The candidates of a plan have different ids, each stands for one of the chunks, has a score above 0 and only
  -- strategies of the plan, none scores more than the one in front of it, and they are at most as many as
  -- the limit, which is at most 48; only where every strategy of the plan gives every chunk 0 they are
  -- instead the first chunks, with the fallback's scores.
  pub execute_retrieval_plan-IsRetrieved :
      (manifest : ChunkManifest) (budget : ℕ) (plan : RetrievalPlan)
      → (candidate_limit (or_number budget 64000) ≤ 48)
        × IsRetrieved found task chunks plan.effective_strategies
            (candidate_limit (or_number budget 64000))
            (execute_retrieval_plan found task chunks manifest budget plan).candidates
  unfolding execute_retrieval_plan
  execute_retrieval_plan-IsRetrieved manifest budget plan =
      let names = plan.effective_strategies in
      let empty : Merging = record { merged = []; strategy_hits = []; strategy_stats = [] } in
      let m = run_strategies found task chunks names empty in
      let (backed, different) =
        run_strategies-IsBacked found task chunks names names empty
          (λ name place. In-contains name names place) tt refl in
      (
        omega arith,
        or_fallback-IsRetrieved names (candidate_limit (or_number budget 64000))
            (sort_by scores_before m.merged) m.strategy_stats
            (distinct-sort_by scores_before str_eq id_of str_eq_comm m.merged different)
            (All-sort_by (IsBacked chunks names) scores_before m.merged backed)
            (sort_by-Sorted scores_before (λ a b h. ground arith) m.merged)
            (λ nothing.
              (run_strategies-none found task chunks names empty
                (sort_by-eq-nil scores_before m.merged nothing)).1),
      )

  or_fallback-some :
      (sorted : List Candidate) (stats : List StrategyStat)
      → 1 ≤ length chunks
      → 1 ≤ length (or_fallback found task chunks sorted stats).0
  unfolding or_fallback
  or_fallback-some (c ∷ cs) stats some_chunk = omega arith
  or_fallback-some [] stats some_chunk = omega (
    arith,
    length-map
        (λ (c : Chunk).
          make_candidate c (fallback_score found task c) ("fallback" ∷ []) ("fallback" ∷ []))
        (take 24 chunks),
    length-take 24 chunks,
  )

  -- Where there is a chunk, a plan gives a candidate.
  pub execute_retrieval_plan-some :
      (manifest : ChunkManifest) (budget : ℕ) (plan : RetrievalPlan)
      → 1 ≤ length chunks
      → 1 ≤ length (execute_retrieval_plan found task chunks manifest budget plan).candidates
  unfolding execute_retrieval_plan
  execute_retrieval_plan-some manifest budget plan some_chunk =
      let empty : Merging = record { merged = []; strategy_hits = []; strategy_stats = [] } in
      let m = run_strategies found task chunks plan.effective_strategies empty in
      let all = or_fallback found task chunks (sort_by scores_before m.merged) m.strategy_stats in
      omega (
        arith,
        length-take (candidate_limit (or_number budget 64000)) all.0,
        or_fallback-some (sort_by scores_before m.merged) m.strategy_stats some_chunk,
      )
