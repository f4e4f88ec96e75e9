-- ===== src/Prelude/Sorting.antt =====
-- What a sort gives: as many items, and none before the one in front of it.
use Prim.Native.Nat.{ℕ, zero, suc}
use mathlib.Core.Path.{◌≡◌, refl, ap, ◌∙◌}
use mathlib.Core.Bool.{Bool, true, false, ◌||◌}
use mathlib.Core.Logic.{inl, inr}
use mathlib.Core.List.{List, [], ◌∷◌, map}
use native.Mathlib.Omega.{arith}
use local_ai_broker.Prelude.Tests.{Bool-cases}
use local_ai_broker.Prelude.Lists.{length, take, member, distinct, sort_insert, sort_by}

module _ {ℓ} {A : Type ℓ} (before : A → A → Bool) where
  length-sort_insert : (x : A) (xs : List A) → length (sort_insert before x xs) ≡ suc (length xs)
  unfolding sort_insert
  length-sort_insert x [] = refl
  length-sort_insert x (y ∷ ys) = elim (Bool-cases (before y x)) [
    | inl first ↦ rw (first, sort_insert) (ap suc (length-sort_insert x ys))
    | inr other ↦ rw (other, sort_insert) refl
  ]

  pub length-sort_by : (xs : List A) → length (sort_by before xs) ≡ length xs
  unfolding sort_by
  length-sort_by [] = refl
  length-sort_by (x ∷ xs) = length-sort_insert x (sort_by before xs) ∙ ap suc (length-sort_by xs)

  -- No item comes before the one in front of it.
  abbrev pub Sorted : List A → Type 0
  Sorted [] = Unit
  Sorted (x ∷ []) = Unit
  Sorted (x ∷ y ∷ ys) = (before y x ≡ false) × Sorted (y ∷ ys)

  module _ (asymm : (a b : A) → before a b ≡ true → before b a ≡ false) where
    -- A sorted list behind an item that nothing of it comes before.
    behind-Sorted :
        (x y : A) (ys : List A)
        → before y x ≡ true
        → Sorted (y ∷ ys)
        → Sorted (sort_insert before x ys)
        → Sorted (y ∷ sort_insert before x ys)
    unfolding sort_insert
    behind-Sorted x y [] first h k = (asymm y x first, k)
    behind-Sorted x y (z ∷ zs) first h k = elim (Bool-cases (before z x)) [
      | inl second ↦ rw (second, sort_insert) (h.0, rw (second, sort_insert) at k)
      | inr other ↦ rw (other, sort_insert) (asymm y x first, rw (other, sort_insert) at k)
    ]

    Sorted-tail : (y : A) (ys : List A) → Sorted (y ∷ ys) → Sorted ys
    Sorted-tail y [] h = tt
    Sorted-tail y (z ∷ zs) h = h.1

    sort_insert-Sorted : (x : A) (xs : List A) → Sorted xs → Sorted (sort_insert before x xs)
    unfolding sort_insert
    sort_insert-Sorted x [] h = tt
    sort_insert-Sorted x (y ∷ ys) h = elim (Bool-cases (before y x)) [
      | inl first ↦
          rw (first, sort_insert)
            (behind-Sorted x y ys first h (sort_insert-Sorted x ys (Sorted-tail y ys h)))
      | inr other ↦ rw (other, sort_insert) (other, h)
    ]

    pub sort_by-Sorted : (xs : List A) → Sorted (sort_by before xs)
    unfolding sort_by
    sort_by-Sorted [] = tt
    sort_by-Sorted (x ∷ xs) = sort_insert-Sorted x (sort_by before xs) (sort_by-Sorted xs)

  pub Sorted-take : (n : ℕ) (xs : List A) → Sorted xs → Sorted (take n xs)
  Sorted-take zero xs h = tt
  Sorted-take (suc n) [] h = tt
  Sorted-take (suc zero) (x ∷ xs) h = tt
  Sorted-take (suc (suc n)) (x ∷ []) h = tt
  Sorted-take (suc (suc n)) (x ∷ y ∷ ys) h = (h.0, Sorted-take (suc n) (y ∷ ys) h.1)

  -- A key that no two items share.
  module _ {K : Type 0} (same : K → K → Bool) (key : A → K)
      (symmetric : (a b : K) → same a b ≡ same b a) where
    member-sort_insert :
        (k : K) (x : A) (xs : List A)
        → member same k (map key (sort_insert before x xs))
          ≡ (same k (key x) || member same k (map key xs))
    unfolding sort_insert
    member-sort_insert k x [] = refl
    member-sort_insert k x (y ∷ ys) = elim (Bool-cases (before y x)) [
      | inr other ↦ rw (other, sort_insert) refl
      | inl first ↦ rw (first, sort_insert) (ground (arith, member-sort_insert k x ys))
    ]

    distinct-sort_insert :
        (x : A) (xs : List A)
        → member same (key x) (map key xs) ≡ false
        → distinct same (map key xs) ≡ true
        → distinct same (map key (sort_insert before x xs)) ≡ true
    unfolding sort_insert
    distinct-sort_insert x [] m d = refl
    distinct-sort_insert x (y ∷ ys) m d = elim (Bool-cases (before y x)) [
      | inr other ↦ rw (other, sort_insert) (ground (arith, m, d))
      | inl first ↦
          rw (first, sort_insert)
            (ground (
              arith,
              m,
              d,
              member-sort_insert (key y) x ys,
              symmetric (key x) (key y),
              distinct-sort_insert x ys,
            ))
    ]

    pub member-sort_by :
        (k : K) (xs : List A)
        → member same k (map key (sort_by before xs)) ≡ member same k (map key xs)
    unfolding sort_by
    member-sort_by k [] = refl
    member-sort_by k (x ∷ xs) =
        member-sort_insert k x (sort_by before xs)
        ∙ ap (λ b. same k (key x) || b) (member-sort_by k xs)

    pub distinct-sort_by :
        (xs : List A)
        → distinct same (map key xs) ≡ true
        → distinct same (map key (sort_by before xs)) ≡ true
    unfolding sort_by
    distinct-sort_by [] d = refl
    distinct-sort_by (x ∷ xs) d =
        distinct-sort_insert x (sort_by before xs) (member-sort_by (key x) xs ∙ ground (arith, d))
          (distinct-sort_by xs (ground (arith, d)))
