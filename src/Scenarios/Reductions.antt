-- ===== src/Scenarios/Reductions.antt =====
-- Four children, of which one is done twice over, one has failed and one is late.
use local_ai_broker.Prelude.{
  ℕ, String, true, false, none, some, List, [], ◌∷◌, str_eq, length, ◌≡◌, refl, ◌<◌, if◌then◌else◌,
}
use local_ai_broker.Prelude.Text.{lower}
use local_ai_broker.Prelude.Result.{ok, raise}
use local_ai_broker.Reduce.{
  RunDir, absent, readable, unreadable, child_failed, collect_child, collect_loop,
  collect_child_outcomes, dedupe, dedupe_loop, flatten_lists, check_outcomes, reduce_children,
  timed_out,
}
use local_ai_broker.Reduce.Collect.{payloads}
use local_ai_broker.Reduce.Totals.{Adds, reduce_children-Adds}
use local_ai_broker.LogAnalysis.Aggregate.{
  ChildFinding, LogPayload, LogReduction, merged, dedupe_findings, build_aggregate_summary,
  reduction, aggregate_child_results, itself,
}
use local_ai_broker.LogAnalysis.Aggregate.Merged.{IsMerged, aggregate_child_results-IsMerged}

abbrev finding : String → ChildFinding ℕ
finding code = record { code = some code; details = 1 }

abbrev payload : String → LogPayload ℕ ℕ
payload code = record {
  top_findings = some (some (finding "TEST_FAILURE") ∷ none ∷ some (finding code) ∷ []);
  timeline = some (1 ∷ 2 ∷ []);
  suggested_next_steps = some (some "Inspect." ∷ none ∷ some code ∷ []);
}

abbrev dirs : String → RunDir (LogPayload ℕ ℕ)
dirs id =
    if str_eq id "a"
    then record {
      result = readable (payload "MODULE_NOT_FOUND");
      heartbeat = absent;
      metadata = absent;
    }
    else if str_eq id "b"
    then record { result = absent; heartbeat = readable "Failed"; metadata = absent }
    else if str_eq id "c"
    then record { result = unreadable; heartbeat = absent; metadata = absent }
    else record {
      result = readable (payload "TEST_FAILURE");
      heartbeat = absent;
      metadata = unreadable;
    }

abbrev ids : List String
ids = "a" ∷ "b" ∷ "c" ∷ "d" ∷ []

one_is_late : reduce_children ids false dirs ≡ raise (timed_out 2 1 4)
unfolding reduce_children check_outcomes collect_child_outcomes collect_loop collect_child
    child_failed lower
one_is_late = refl

reduce_children-Adds_example :
    Adds ids true (collect_child_outcomes dirs ids) (reduce_children ids true dirs)
reduce_children-Adds_example = reduce_children-Adds ids true dirs

two_steps :
    dedupe itself str_eq 2 (some "a" ∷ none ∷ some "b" ∷ some "a" ∷ some "c" ∷ []) ≡ "a" ∷ "b" ∷ []
unfolding dedupe dedupe_loop
two_steps = refl

abbrev merged_result : LogReduction ℕ ℕ
merged_result = record {
  summary = merged 2 "TEST_FAILURE";
  top_findings = finding "TEST_FAILURE" ∷ finding "MODULE_NOT_FOUND" ∷ [];
  timeline = 1 ∷ 2 ∷ 1 ∷ 2 ∷ [];
  suggested_next_steps = "Inspect." ∷ "MODULE_NOT_FOUND" ∷ "TEST_FAILURE" ∷ [];
  totals = record {
    results = payload "MODULE_NOT_FOUND" ∷ payload "TEST_FAILURE" ∷ [];
    partial_reduce = true;
    children_total = 4;
    children_succeeded = 2;
    children_failed = 2;
  };
}

merges : aggregate_child_results ids true dirs ≡ ok merged_result
unfolding aggregate_child_results reduction dedupe_findings dedupe dedupe_loop
    build_aggregate_summary flatten_lists reduce_children check_outcomes collect_child_outcomes
    collect_loop collect_child child_failed lower
merges = refl

aggregate_child_results-IsMerged_example :
    IsMerged (payloads dirs ids) merged_result × (0 < length (payloads dirs ids))
aggregate_child_results-IsMerged_example =
    aggregate_child_results-IsMerged ids true dirs merged_result merges
