-- ===== src/Reduce/Collect.antt =====
-- How `collect_child_outcomes` divides the children.
use mathlib.Core.List.{append-nil, append_assoc}
use local_ai_broker.Prelude.{
  ℕ, ◌+◌, String, Bool, true, false, not, List, [], ◌∷◌, ◌++◌, length, length-append, keep,
  if◌then◌else◌, ◌≡◌, sym, ◌∙◌, ap, arith,
}
use local_ai_broker.Reduce.{
  absent, unreadable, readable, RunDir, Outcomes, child_failed, no_outcomes, collect_child,
  collect_loop, collect_child_outcomes,
}

abbrev one_if : Bool → ℕ
one_if false = 0
one_if true = 1

keep-cons :
    (p : String → Bool) (x : String) (xs : List String)
    → keep p (x ∷ xs) ≡ (if p x then x ∷ [] else []) ++ keep p xs
keep-cons p x xs = ground arith

module _ {R : Type 0} where
  -- A child is done with a payload, has failed, or is pending otherwise.
  abbrev pub payload_of : RunDir R → List R
  payload_of dir = elim dir.result [ readable payload ↦ payload ∷ [] | _ ↦ [] ]

  abbrev pub has_failed : RunDir R → Bool
  has_failed dir = elim dir.result [ absent ↦ child_failed dir | _ ↦ false ]

  abbrev pub is_pending : RunDir R → Bool
  is_pending dir = elim dir.result [
    | readable payload ↦ false
    | unreadable ↦ true
    | absent ↦ not (child_failed dir)
  ]

  abbrev pub payloads : (String → RunDir R) → List String → List R
  payloads dirs [] = []
  payloads dirs (id ∷ ids) = payload_of (dirs id) ++ payloads dirs ids

  -- One child adds to one of the three lists.
  abbrev extended : String → RunDir R → Outcomes R → Outcomes R
  extended id dir o = record {
    pending = o.pending ++ (if is_pending dir then id ∷ [] else []);
    results = o.results ++ payload_of dir;
    failed = o.failed ++ (if has_failed dir then id ∷ [] else []);
  }

  collect_child-extended :
      (id : String) (dir : RunDir R) (o : Outcomes R) → collect_child id dir o ≡ extended id dir o
  unfolding collect_child
  collect_child-extended id dir o =
      ground (arith, append-nil o.pending, append-nil o.results, append-nil o.failed)

  abbrev collected : (String → RunDir R) → List String → Outcomes R → Outcomes R
  collected dirs ids o = record {
    pending = o.pending ++ keep (λ id. is_pending (dirs id)) ids;
    results = o.results ++ payloads dirs ids;
    failed = o.failed ++ keep (λ id. has_failed (dirs id)) ids;
  }

  collect_loop-collected :
      (dirs : String → RunDir R) (ids : List String) (o : Outcomes R)
      → collect_loop dirs ids o ≡ collected dirs ids o
  unfolding collect_loop
  collect_loop-collected dirs [] o =
      ground (arith, append-nil o.pending, append-nil o.results, append-nil o.failed)
  collect_loop-collected dirs (id ∷ ids) o =
      ap (collect_loop dirs ids) (collect_child-extended id (dirs id) o)
      ∙ collect_loop-collected dirs ids (extended id (dirs id) o)
      ∙ regrouped
    where
      regrouped : collected dirs ids (extended id (dirs id) o) ≡ collected dirs (id ∷ ids) o
      regrouped = λ i. record {
        pending =
            (append_assoc o.pending (if is_pending (dirs id) then id ∷ [] else [])
                  (keep (λ j. is_pending (dirs j)) ids)
                ∙ ap (λ l. o.pending ++ l) (sym (keep-cons (λ j. is_pending (dirs j)) id ids)))
              i;
        results = append_assoc o.results (payload_of (dirs id)) (payloads dirs ids) i;
        failed =
            (append_assoc o.failed (if has_failed (dirs id) then id ∷ [] else [])
                  (keep (λ j. has_failed (dirs j)) ids)
                ∙ ap (λ l. o.failed ++ l) (sym (keep-cons (λ j. has_failed (dirs j)) id ids)))
              i;
      }

  -- Each child counts once.
  abbrev count_of : RunDir R → ℕ
  count_of dir = one_if (is_pending dir) + length (payload_of dir) + one_if (has_failed dir)

  count_of-eq-one : (dir : RunDir R) → count_of dir ≡ 1
  count_of-eq-one dir = ground arith

  counts :
      (dirs : String → RunDir R) (ids : List String)
      → length (keep (λ id. is_pending (dirs id)) ids)
          + length (payloads dirs ids)
          + length (keep (λ id. has_failed (dirs id)) ids)
        ≡ length ids
  counts dirs [] = omega arith
  counts dirs (id ∷ ids) =
      ground (arith, counts dirs ids, length-append (payload_of (dirs id)) (payloads dirs ids))

  -- The pending children are those, in their order, whose result is there and unreadable, or is not there while no
  -- file says that they failed; the failed ones those without a result that a file says so of; the results are
  -- the payloads of the rest, in their order; and the three are as many as the children.
  pub collect_child_outcomes-IsDivided :
      (dirs : String → RunDir R) (ids : List String)
      → ((collect_child_outcomes dirs ids).pending ≡ keep (λ id. is_pending (dirs id)) ids)
        × ((collect_child_outcomes dirs ids).results ≡ payloads dirs ids)
        × ((collect_child_outcomes dirs ids).failed ≡ keep (λ id. has_failed (dirs id)) ids)
        × (length (collect_child_outcomes dirs ids).pending
              + length (collect_child_outcomes dirs ids).results
              + length (collect_child_outcomes dirs ids).failed
            ≡ length ids)
  unfolding collect_child_outcomes
  collect_child_outcomes-IsDivided dirs ids =
      let e = collect_loop-collected dirs ids no_outcomes in
      (
        ap (λ o. o.pending) e,
        ap (λ o. o.results) e,
        ap (λ o. o.failed) e,
        ap (λ o. length o.pending + length o.results + length o.failed) e ∙ counts dirs ids,
      )
