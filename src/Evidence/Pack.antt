-- ===== src/Evidence/Pack.antt =====
-- `enforce_final_pack_budget` keeps the longest prefix that fits.
use mathlib.Core.Path.{subst}
use local_ai_broker.Prelude.{
  ℕ, zero, suc, ◌+◌, ◌≤◌, ◌<◌, true, false, List, [], ◌∷◌, ◌&&◌, ltb, ◌==◌, take, length, drop_last,
  length-drop_last, ◌≡◌, refl, sym, ◌∙◌, ap, arith, inl, inr, Bool-cases, ◌↔◌,
}
use local_ai_broker.Evidence.{pop_loop, enforce_final_pack_budget}

drop_last-take :
    {E : Type 0} (xs : List E) (n : ℕ) → n < length xs → take n (drop_last xs) ≡ take n xs
drop_last-take [] n h = refl
drop_last-take (x ∷ []) zero h = refl
drop_last-take (x ∷ []) (suc n) h = absurd (omega arith)
drop_last-take (x ∷ y ∷ xs) zero h = refl
drop_last-take (x ∷ y ∷ xs) (suc n) h = ap (λ l. x ∷ l) (drop_last-take (y ∷ xs) n (omega arith))

take-length : {E : Type 0} (xs : List E) → take (length xs) xs ≡ xs
take-length [] = refl
take-length (x ∷ xs) = ap (λ l. x ∷ l) (take-length xs)

module _ {E : Type 0} (estimate : List E → ℕ) (budget_limit : ℕ) where
  -- A prefix that fits, or is of one item or none, and that no longer prefix fits.
  abbrev pub IsLongest : List E → List E → Type 0
  IsLongest evidence kept =
      (take (length kept) evidence ≡ kept)
      × (length kept ≤ length evidence)
      × (1 < length kept → estimate kept ≤ budget_limit)
      × ((n : ℕ)
          → length kept < n
          → n ≤ length evidence
          → budget_limit < estimate (take n evidence))
      × (1 ≤ length evidence → 1 ≤ length kept)

  longer_prefix :
      (kept : List E) (n : ℕ) {m : ℕ}
      → (ltb 1 (length kept) && ltb budget_limit (estimate kept)) ≡ true
      → m < n
      → n ≤ length kept
      → ((k : ℕ)
          → m < k
          → k ≤ length (drop_last kept)
          → budget_limit < estimate (take k (drop_last kept)))
      → budget_limit < estimate (take n kept)
  longer_prefix kept n over a b longer = elim (Bool-cases (ltb n (length kept))) [
    | inl shorter ↦
        subst (λ l. budget_limit < estimate l) (drop_last-take kept n (ground arith))
          (longer n a (ground (arith, length-drop_last kept)))
    | inr whole ↦
        let size : length kept ≡ n = ground arith in
        subst (λ l. budget_limit < estimate l)
          (sym (subst (λ k. take k kept ≡ kept) size (take-length kept))) (ground arith)
  ]

  pop_loop-IsLongest :
      (fuel : ℕ) (kept : List E)
      → length kept ≤ fuel + 1
      → IsLongest kept (pop_loop estimate fuel budget_limit kept)
  unfolding pop_loop
  pop_loop-IsLongest zero kept f = (
    take-length kept,
    omega arith,
    λ h. absurd (omega arith),
    λ n a b. absurd (omega arith),
    λ h. h,
  )
  pop_loop-IsLongest (suc fuel) kept f =
      let shorter = drop_last kept in
      let rest = pop_loop estimate fuel budget_limit shorter in
      let (prefix, size, fits, longer, some_left) =
        pop_loop-IsLongest fuel shorter (omega (arith, length-drop_last kept)) in
      elim (Bool-cases (ltb 1 (length kept) && ltb budget_limit (estimate kept))) [
        | inr stop ↦
            rw (stop, pop_loop)
              (
                take-length kept,
                omega arith,
                λ h. ground arith,
                λ n a b. absurd (omega arith),
                λ h. h,
              )
        | inl over ↦
            rw (over, pop_loop)
              (
                sym (drop_last-take kept (length rest) (ground (arith, length-drop_last kept)))
                    ∙ prefix,
                omega (arith, length-drop_last kept),
                fits,
                λ n a b. longer_prefix kept n over a b longer,
                λ h. some_left (ground (arith, length-drop_last kept)),
              )
      ]

  -- With a limit above 0, the evidence that is kept is a prefix of the evidence; it fits the limit if it
  -- has more than one item, no longer prefix fits, at least one item is kept of some evidence, the flag
  -- says whether what is kept fits, and the count is that of the items dropped.
  pub enforce_final_pack_budget-IsLongest :
      (evidence : List E)
      → 0 < budget_limit
      → IsLongest evidence (enforce_final_pack_budget estimate evidence budget_limit).kept
        × ((enforce_final_pack_budget estimate evidence budget_limit).budget_ok ≡ true
            ↔ estimate (enforce_final_pack_budget estimate evidence budget_limit).kept
              ≤ budget_limit)
        × (length (enforce_final_pack_budget estimate evidence budget_limit).kept
              + (enforce_final_pack_budget estimate evidence budget_limit).trimmed_evidence_count
            ≡ length evidence)
  unfolding enforce_final_pack_budget
  enforce_final_pack_budget-IsLongest evidence positive =
      let set : (budget_limit == 0) ≡ false = ground arith in
      let kept = pop_loop-IsLongest (length evidence) evidence (omega arith) in
      rw (set, enforce_final_pack_budget) (kept, ground arith, omega (arith, kept.1))
