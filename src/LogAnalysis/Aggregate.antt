-- ===== src/LogAnalysis/Aggregate.antt =====
-- The reduction of log analyses, workers/log-analysis/main.py: `aggregate_child_results`, `dedupe_findings` and
-- `build_aggregate_summary`, over the reduction that the workers share.
pub mod Merged
use local_ai_broker.Prelude.{
  ℕ, String, Bool, true, false, Option, none, some, List, [], ◌∷◌, str_eq, length, take, map,
}
use local_ai_broker.Prelude.Result.{Result, ok, raise}
use local_ai_broker.Reduce.{RunDir, Reduced, ReduceError, dedupe, flatten_lists, reduce_children}

-- A finding of a child's payload, by its code, where it has one, and the rest of it.
pub record ChildFinding (A : Type 0) : Type 0 where
  pub code : Option String
  pub details : A

-- The lists of a child's payload: none where the key holds something else than a list, or, inside of
-- it, something else than an object or a text.
pub record LogPayload (A : Type 0) (E : Type 0) : Type 0 where
  pub top_findings : Option (List (Option (ChildFinding A)))
  pub timeline : Option (List E)
  pub suggested_next_steps : Option (List (Option String))

pub data AggregateSummary : Type 0 where
  merged : (analyses : ℕ) (primary : String) → AggregateSummary
  no_merged_findings : (analyses : ℕ) → AggregateSummary

pub record LogReduction (A : Type 0) (E : Type 0) : Type 0 where
  pub summary : AggregateSummary
  pub top_findings : List (ChildFinding A)
  pub timeline : List E
  pub suggested_next_steps : List String
  pub totals : Reduced (LogPayload A E)

abbrev pub same_code : Option String → Option String → Bool
same_code none none = true
same_code none (some c) = false
same_code (some c) none = false
same_code (some c) (some d) = str_eq c d

abbrev pub itself : String → String
itself s = s

abbrev pub code_of : {A : Type 0} → ChildFinding A → Option String
code_of f = f.code

unfoldable pub dedupe_findings :
    {A : Type 0} → List (Option (ChildFinding A)) → ℕ → List (ChildFinding A)
unfolding dedupe
dedupe_findings items limit = dedupe code_of same_code limit items

abbrev code_or_unknown : Option String → String
code_or_unknown none = "UNKNOWN"
code_or_unknown (some c) = c

module _ {A : Type 0} {E : Type 0} where
  unfoldable pub build_aggregate_summary :
      List (LogPayload A E) → List (ChildFinding A) → AggregateSummary
  build_aggregate_summary payloads [] = no_merged_findings (length payloads)
  build_aggregate_summary payloads (f ∷ fs) = merged (length payloads) (code_or_unknown f.code)

  unfoldable pub reduction : Reduced (LogPayload A E) → LogReduction A E
  reduction reduced =
      let payloads = reduced.results in
      let findings = dedupe_findings (flatten_lists (map (λ p. p.top_findings) payloads)) 8 in
      record {
        summary = build_aggregate_summary payloads findings;
        top_findings = findings;
        timeline = take 12 (flatten_lists (map (λ p. p.timeline) payloads));
        suggested_next_steps =
            dedupe itself str_eq 8 (flatten_lists (map (λ p. p.suggested_next_steps) payloads));
        totals = reduced;
      }

  -- From the last look at the children; no payload of a result is an empty one.
  unfoldable pub aggregate_child_results :
      List String
      → Bool
      → (String → RunDir (LogPayload A E))
      → Result ReduceError (LogReduction A E)
  aggregate_child_results ids allow_partial dirs = elim (reduce_children ids allow_partial dirs) [
    | ok reduced ↦ ok (reduction reduced)
    | raise error ↦ raise error
  ]
