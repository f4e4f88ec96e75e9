-- ===== src/LogAnalysis/Aggregate/Merged.antt =====
-- What a reducer of log analyses returns, from what its children returned.
use local_ai_broker.Prelude.{
  ℕ, ◌≤◌, ◌<◌, String, Bool, true, Option, none, some, List, [], ◌∷◌, str_eq, length, length-take,
  ◌≡◌, refl, ap, ◌∙◌, sym, inl, inr, take, arith, map, distinct,
}
use mathlib.Core.Path.{subst}
use local_ai_broker.Prelude.Distinct.{str_eq_comm}
use local_ai_broker.Prelude.Result.{ok, Result-cases, raise≢ok, ok-injective}
use local_ai_broker.Reduce.{
  RunDir, Reduced, dedupe, flatten_lists, reduce_children, collect_child_outcomes,
}
use local_ai_broker.Reduce.Dedupe.{dedupe-take, first_of_key}
use local_ai_broker.Reduce.Collect.{payloads, collect_child_outcomes-IsDivided}
use local_ai_broker.Reduce.Totals.{Adds, reduce_children-Adds}
use local_ai_broker.LogAnalysis.Aggregate.{
  ChildFinding, LogPayload, LogReduction, AggregateSummary, merged, no_merged_findings, same_code,
  code_of, itself, dedupe_findings, build_aggregate_summary, reduction, aggregate_child_results,
}

map-itself : (xs : List String) → map itself xs ≡ xs
map-itself [] = refl
map-itself (x ∷ xs) = ap (λ l. x ∷ l) (map-itself xs)

same_code_comm : (a b : Option String) → same_code a b ≡ same_code b a
same_code_comm none none = refl
same_code_comm none (some b) = refl
same_code_comm (some a) none = refl
same_code_comm (some a) (some b) = str_eq_comm a b

abbrev pub Counts : ℕ → AggregateSummary → Type 0
Counts n (merged analyses primary) = analyses ≡ n
Counts n (no_merged_findings analyses) = analyses ≡ n

module _ {A : Type 0} {E : Type 0} where
  -- The findings of the children in their order, those of a code that came before left out.
  abbrev pub merged_findings : List (LogPayload A E) → List (ChildFinding A)
  merged_findings results =
      first_of_key code_of same_code [] (flatten_lists (map (λ p. p.top_findings) results))

  abbrev pub IsMerged : List (LogPayload A E) → LogReduction A E → Type 0
  IsMerged results r =
      (r.totals.results ≡ results)
      × (r.top_findings ≡ take 8 (merged_findings results))
      × (distinct same_code (map code_of r.top_findings) ≡ true)
      × (distinct str_eq r.suggested_next_steps ≡ true)
      × (length r.suggested_next_steps ≤ 8)
      × (length r.timeline ≤ 12)
      × Counts (length results) r.summary

  Counts-summary :
      (results : List (LogPayload A E)) (fs : List (ChildFinding A))
      → Counts (length results) (build_aggregate_summary results fs)
  unfolding build_aggregate_summary
  Counts-summary results [] = refl
  Counts-summary results (f ∷ fs) = refl

  reduction-IsMerged :
      (reduced : Reduced (LogPayload A E)) → IsMerged reduced.results (reduction reduced)
  unfolding reduction dedupe_findings
  reduction-IsMerged reduced =
      let results = reduced.results in
      let items = flatten_lists (map {A = LogPayload A E} (λ p. p.top_findings) results) in
      let steps = flatten_lists (map {A = LogPayload A E} (λ p. p.suggested_next_steps) results) in
      let (first, different) = dedupe-take code_of same_code 8 items (omega arith) same_code_comm in
      let (kept, unlike) = dedupe-take itself str_eq 8 steps (omega arith) str_eq_comm in
      (
        refl,
        first,
        different,
        ap (distinct str_eq) (sym (map-itself (dedupe itself str_eq 8 steps))) ∙ unlike,
        omega (arith, ap length kept, length-take 8 (first_of_key itself str_eq [] steps)),
        omega (
          arith,
          length-take 12 (flatten_lists (map {A = LogPayload A E} (λ p. p.timeline) results)),
        ),
        Counts-summary results (dedupe code_of same_code 8 items),
      )

  -- The result of the reducer is of the payloads of the children, in their order: its findings are the first
  -- eight of those whose code none before them has, no two of a code; its steps at most eight, none
  -- twice, its events at most twelve, and its summary counts the payloads. There is at least one payload.
  pub aggregate_child_results-IsMerged :
      (ids : List String) (allow_partial : Bool) (dirs : String → RunDir (LogPayload A E))
      (r : LogReduction A E)
      → aggregate_child_results ids allow_partial dirs ≡ ok r
      → IsMerged (payloads dirs ids) r × (0 < length (payloads dirs ids))
  unfolding aggregate_child_results
  aggregate_child_results-IsMerged ids allow_partial dirs r h =
      elim (Result-cases (reduce_children ids allow_partial dirs)) [
        | inl (reduced, e) ↦
            let adds =
              subst (Adds ids allow_partial (collect_child_outcomes dirs ids)) e
                (reduce_children-Adds ids allow_partial dirs) in
            let (pending, kept, failed, whole) = collect_child_outcomes-IsDivided dirs ids in
            let results : reduced.results ≡ payloads dirs ids = adds.0 ∙ kept in
            let same : reduction reduced ≡ r =
              ok-injective (rw (e, aggregate_child_results) at h) in
            (
              subst (λ q. IsMerged (payloads dirs ids) q) same
                  (subst (λ l. IsMerged l (reduction reduced)) results
                    (reduction-IsMerged reduced)),
              omega (arith, adds.1, adds.2, ap length kept),
            )
        | inr (error, e) ↦ absurd (raise≢ok (rw (e, aggregate_child_results) at h))
      ]
