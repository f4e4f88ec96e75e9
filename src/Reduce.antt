-- ===== src/Reduce.antt =====
-- The reduction of child results, which workers/log-analysis/main.py and workers/repo-summary/main.py
-- write alike: `try_load_json`, `child_failed`, `collect_child_outcomes`, `flatten_lists`, `dedupe_strings`,
-- `dedupe_findings` and `dedupe_objects`, and the waiting and the checks of their aggregation. The run
-- directories of the children are a function from job ids, which differs from one look to the next.
pub mod Collect
pub mod Dedupe
pub mod Totals
use local_ai_broker.Prelude.{
  ℕ, ◌+◌, String, Bool, true, false, not, Option, none, some, List, [], ◌∷◌, ◌++◌, str_eq, ltb,
  ◌==◌, if◌then◌else◌, ◌&&◌, ◌||◌, length, member,
}
use local_ai_broker.Prelude.Result.{Result, ok, raise}
use local_ai_broker.Prelude.Text.{lower}

-- A JSON file as `exists` and `try_load_json` see it.
pub data JsonFile (A : Type 0) : Type 0 where
  absent unreadable : JsonFile A
  readable : A → JsonFile A

-- The files of a run directory, with the `state` of the heartbeat and the `status` of the metadata.
pub record RunDir (R : Type 0) : Type 0 where
  pub result : JsonFile R
  pub heartbeat : JsonFile String
  pub metadata : JsonFile String

abbrev pub says_failed : JsonFile String → Bool
says_failed absent = false
says_failed unreadable = false
says_failed (readable state) = str_eq (lower state) "failed"

unfoldable pub child_failed : {R : Type 0} → RunDir R → Bool
unfolding lower
child_failed dir = says_failed dir.heartbeat || says_failed dir.metadata

pub record Outcomes (R : Type 0) : Type 0 where
  pub pending : List String
  pub results : List R
  pub failed : List String

module _ {R : Type 0} where
  abbrev pub no_outcomes : Outcomes R
  no_outcomes = record { pending = []; results = []; failed = [] }

  -- The body of the loop, on what it has collected.
  unfoldable pub collect_child : String → RunDir R → Outcomes R → Outcomes R
  collect_child job_id dir o = elim dir.result [
    | readable payload ↦ record o { results = o.results ++ payload ∷ [] }
    | unreadable ↦ record o { pending = o.pending ++ job_id ∷ [] }
    | absent ↦
        if child_failed dir
        then record o { failed = o.failed ++ job_id ∷ [] }
        else record o { pending = o.pending ++ job_id ∷ [] }
  ]

  unfoldable pub collect_loop : (String → RunDir R) → List String → Outcomes R → Outcomes R
  collect_loop dirs [] o = o
  collect_loop dirs (id ∷ ids) o = collect_loop dirs ids (collect_child id (dirs id) o)

  unfoldable pub collect_child_outcomes : (String → RunDir R) → List String → Outcomes R
  unfolding collect_loop
  collect_child_outcomes dirs ids = collect_loop dirs ids no_outcomes

-- `flatten_lists`: none where the value is no list.
unfoldable pub flatten_lists : {A : Type 0} → List (Option (List A)) → List A
flatten_lists [] = []
flatten_lists (none ∷ values) = flatten_lists values
flatten_lists (some value ∷ values) = value ++ flatten_lists values

-- The deduplications, by a key; none is an item of another type, which is passed over.
module _ {A K : Type 0} (key : A → K) (same : K → K → Bool) (limit : ℕ) where
  unfoldable pub dedupe_loop : List K → List A → List (Option A) → List A
  dedupe_loop seen output [] = output
  dedupe_loop seen output (none ∷ items) = dedupe_loop seen output items
  dedupe_loop seen output (some item ∷ items) =
      let later = dedupe_loop (key item ∷ seen) (output ++ item ∷ []) items in
      let skipped = dedupe_loop seen output items in
      if member same (key item) seen
      then skipped
      else if length (output ++ item ∷ []) == limit
      then output ++ item ∷ []
      else later

  unfoldable pub dedupe : List (Option A) → List A
  unfolding dedupe_loop
  dedupe items = dedupe_loop [] [] items

-- The metrics of a heartbeat while the reducer waits.
pub record WaitMetrics : Type 0 where
  pub children_ready : ℕ
  pub children_failed : ℕ
  pub children_pending : ℕ

pub data ReduceError : Type 0 where
  timed_out : (ready failed total : ℕ) → ReduceError
  no_results : (failed total : ℕ) → ReduceError

-- `aggregate_metrics`, with the fraction as its two numbers, and whether there is a warning.
pub record Reduced (R : Type 0) : Type 0 where
  pub results : List R
  pub partial_reduce : Bool
  pub children_total : ℕ
  pub children_succeeded : ℕ
  pub children_failed : ℕ

module _ {R : Type 0} (ids : List String) where
  -- The loop until the deadline: one look for each round, and a heartbeat where children are pending.
  unfoldable pub wait_loop : List (String → RunDir R) → List WaitMetrics
  wait_loop [] = []
  wait_loop (dirs ∷ rounds) =
      let o = collect_child_outcomes dirs ids in
      let rest = wait_loop rounds in
      if length o.pending == 0
      then []
      else record {
        children_ready = length o.results;
        children_failed = length o.failed;
        children_pending = length o.pending;
      }
        ∷ rest

  -- The checks after the last look.
  unfoldable pub check_outcomes : Bool → Outcomes R → Result ReduceError (Reduced R)
  check_outcomes allow_partial o =
      if ltb 0 (length o.pending) && not allow_partial
      then raise (timed_out (length o.results) (length o.failed) (length ids))
      else if length o.results == 0
      then raise (no_results (length o.failed) (length ids))
      else ok (record {
        results = o.results;
        partial_reduce = ltb 0 (length o.failed) || ltb 0 (length o.pending);
        children_total = length ids;
        children_succeeded = length o.results;
        children_failed = length o.failed + length o.pending;
      })

  -- What the reducer returns, from its last look.
  unfoldable pub reduce_children : Bool → (String → RunDir R) → Result ReduceError (Reduced R)
  reduce_children allow_partial dirs =
      check_outcomes allow_partial (collect_child_outcomes dirs ids)
