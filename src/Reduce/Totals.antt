-- ===== src/Reduce/Totals.antt =====
-- The checks of the reducers after their last look.
use local_ai_broker.Prelude.{
  ℕ, suc, ◌+◌, ◌≤◌, ◌<◌, String, Bool, true, false, List, [], ◌∷◌, length, ◌≡◌, refl, arith, inl,
  inr, Bool-cases, ltb, ◌==◌, All, ◌↔◌,
}
use mathlib.Core.Bool.{true≢false}
use local_ai_broker.Prelude.Result.{Result, ok, raise}
use local_ai_broker.Reduce.{
  RunDir, Outcomes, collect_child_outcomes, Reduced, ReduceError, timed_out, no_results,
  check_outcomes, reduce_children, WaitMetrics, wait_loop,
}
use local_ai_broker.Reduce.Collect.{collect_child_outcomes-IsDivided}

positive : (n : ℕ) → ltb 0 (suc n) ≡ true
positive n = ground arith

nonzero : (n : ℕ) → (suc n == 0) ≡ false
nonzero n = ground arith

-- The heartbeats of a wait: each counts the children of one look, some of them pending.
abbrev pub Counts : List String → WaitMetrics → Type 0
Counts ids m =
    (0 < m.children_pending)
    × (m.children_ready + m.children_failed + m.children_pending ≡ length ids)

module _ {R : Type 0} where
  -- What the reducer may return of a look that divided the children as `o`.
  abbrev pub Adds : List String → Bool → Outcomes R → Result ReduceError (Reduced R) → Type 0
  Adds ids allow_partial o (ok r) =
      (r.results ≡ o.results)
      × (r.children_succeeded ≡ length o.results)
      × (0 < r.children_succeeded)
      × (r.children_succeeded + r.children_failed ≡ length ids)
      × ((r.partial_reduce ≡ false) ↔ (r.children_succeeded ≡ length ids))
      × (allow_partial ≡ false → o.pending ≡ [])
  Adds ids allow_partial o (raise (timed_out ready failed total)) =
      (allow_partial ≡ false) × (0 < length o.pending) × (ready + failed < total)
  Adds ids allow_partial o (raise (no_results failed total)) =
      (o.results ≡ []) × (failed ≤ total) × (allow_partial ≡ false → failed ≡ total)

  check_lists-Adds :
      (ids : List String) (allow_partial : Bool) (pending : List String) (results : List R)
      (failed : List String)
      → length pending + length results + length failed ≡ length ids
      → let o : Outcomes R = record { pending = pending; results = results; failed = failed } in
        Adds ids allow_partial o (check_outcomes ids allow_partial o)
  unfolding check_outcomes
  check_lists-Adds ids false [] [] failed e = (refl, omega (arith, e), λ _. omega (arith, e))
  check_lists-Adds ids true [] [] failed e = (refl, omega (arith, e), λ h. absurd (true≢false h))
  check_lists-Adds ids true (p ∷ pending) [] failed e =
      rw (positive (length pending)) (refl, omega (arith, e), λ h. absurd (true≢false h))
  check_lists-Adds ids false (p ∷ pending) results failed e =
      rw (positive (length pending)) (refl, omega arith, omega (arith, e))
  check_lists-Adds ids false [] (r ∷ results) failed e =
      rw (nonzero (length results))
        (refl, refl, omega arith, omega (arith, e), ground (arith, e), λ _. refl)
  check_lists-Adds ids true [] (r ∷ results) failed e =
      rw (nonzero (length results))
        (refl, refl, omega arith, omega (arith, e), ground (arith, e), λ _. refl)
  check_lists-Adds ids true (p ∷ pending) (r ∷ results) failed e =
      rw (positive (length pending), nonzero (length results))
        (refl, refl, omega arith, omega (arith, e), ground (arith, e), λ h. absurd (true≢false h))

  -- What the reducer returns adds up. A result counts its payloads, has at least one successful child, its failed children are the rest
  -- of the children, its warning of a partial reduction is missing exactly where every child succeeded, and
  -- without leave for a partial one no child was pending. It raises the first error without that leave
  -- and with a child pending, so that the ready and failed ones are not all; and the second where there is no
  -- result, in which case all children had failed or there is that leave.
  pub reduce_children-Adds :
      (ids : List String) (allow_partial : Bool) (dirs : String → RunDir R)
      → Adds ids allow_partial
          (collect_child_outcomes dirs ids)
          (reduce_children ids allow_partial dirs)
  unfolding reduce_children
  reduce_children-Adds ids allow_partial dirs =
      let o = collect_child_outcomes dirs ids in
      check_lists-Adds ids allow_partial o.pending o.results o.failed
        (collect_child_outcomes-IsDivided dirs ids).3

  -- Every heartbeat while the reducer waits has a pending child, and counts each child once; and there are at
  -- most as many as rounds before the deadline.
  pub wait_loop-Counts :
      (ids : List String) (rounds : List (String → RunDir R))
      → All (Counts ids) (wait_loop ids rounds) × (length (wait_loop ids rounds) ≤ length rounds)
  unfolding wait_loop
  wait_loop-Counts ids [] = (tt, omega arith)
  wait_loop-Counts ids (dirs ∷ rounds) =
      let (rest, fewer) = wait_loop-Counts ids rounds in
      let o = collect_child_outcomes dirs ids in
      let whole = (collect_child_outcomes-IsDivided dirs ids).3 in
      elim (Bool-cases (length o.pending == 0)) [
        | inl e ↦ rw (e) (tt, omega arith)
        | inr e ↦ rw (e) (((ground arith, omega (arith, whole)), rest), omega (arith, fewer))
      ]
