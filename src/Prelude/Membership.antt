-- ===== src/Prelude/Membership.antt =====
-- Membership as a type, with the place in the list kept.
use mathlib.Core.Path.{◌≡◌, refl, ap, sym, subst, ◌∙◌}
use mathlib.Core.Bool.{Bool, true, false, false≢true}
use mathlib.Core.Logic.{◌⊎◌, inl, inr}
use mathlib.Core.List.{List, [], ◌∷◌, ◌++◌, map, cons≢nil}
use native.Mathlib.Omega.{arith}
use local_ai_broker.Prelude.Tests.{Bool-cases}
use Prim.Native.String.{String}
use Prim.Native.Nat.{ℕ, zero, suc}
use text.Mathlib.Text.{◌==◌ as str_eq}
use text.Mathlib.TextEquality.{eq_iff}
use local_ai_broker.Prelude.Lists.{contains, take, All, keep, sort_by, sort_insert}

module _ {A : Type 0} where
  abbrev pub In : A → List A → Type 0
  In x [] = ⊥
  In x (y ∷ ys) = (x ≡ y) ⊎ In x ys

  pub keep-true :
      (p : A → Bool) (y : A) (ys : List A) → p y ≡ true → keep p (y ∷ ys) ≡ y ∷ keep p ys
  keep-true p y ys h = ground arith

  pub keep-false : (p : A → Bool) (y : A) (ys : List A) → p y ≡ false → keep p (y ∷ ys) ≡ keep p ys
  keep-false p y ys h = ground arith

  pub In-keep : (p : A → Bool) (x : A) (xs : List A) → In x (keep p xs) → In x xs × (p x ≡ true)
  In-keep p x [] m = absurd m
  In-keep p x (y ∷ ys) m = elim (Bool-cases (p y)) [
    | inl kept ↦ elim (subst (In x) (keep-true p y ys kept) m) [
      | inl same ↦ (inl same, ap p same ∙ kept)
      | inr later ↦ let (place, holds) = In-keep p x ys later in (inr place, holds)
    ]
    | inr dropped ↦
        let (place, holds) = In-keep p x ys (subst (In x) (keep-false p y ys dropped) m) in
        (inr place, holds)
  ]

  pub keep-In : (p : A → Bool) (x : A) (xs : List A) → In x xs → p x ≡ true → In x (keep p xs)
  keep-In p x [] place h = absurd place
  keep-In p x (y ∷ ys) place h = elim (Bool-cases (p y)) [
    | inl kept ↦
        subst (In x) (sym (keep-true p y ys kept))
          (elim place [ inl same ↦ inl same | inr later ↦ inr (keep-In p x ys later h) ])
    | inr dropped ↦ subst (In x) (sym (keep-false p y ys dropped)) (elim place [
      | inl same ↦ absurd (false≢true (sym dropped ∙ ap p (sym same) ∙ h))
      | inr later ↦ keep-In p x ys later h
    ])
  ]

  pub All-keep :
      (p : A → Bool) (P : A → Type 0) (xs : List A)
      → All P (keep p xs)
      → All (λ x. p x ≡ true → P x) xs
  All-keep p P [] h = tt
  All-keep p P (y ∷ ys) h = elim (Bool-cases (p y)) [
    | inl kept ↦
        let (now, rest) = subst (All P) (keep-true p y ys kept) h in
        (λ _. now, All-keep p P ys rest)
    | inr dropped ↦ (
      λ kept. absurd (false≢true (sym dropped ∙ kept)),
      All-keep p P ys (subst (All P) (keep-false p y ys dropped) h),
    )
  ]

  pub keep-eq-nil : (p : A → Bool) (xs : List A) → keep p xs ≡ [] → All (λ x. p x ≡ false) xs
  keep-eq-nil p [] h = tt
  keep-eq-nil p (y ∷ ys) h = elim (Bool-cases (p y)) [
    | inl kept ↦ absurd (cons≢nil (sym (keep-true p y ys kept) ∙ h))
    | inr dropped ↦ (dropped, keep-eq-nil p ys (sym (keep-false p y ys dropped) ∙ h))
  ]

  In-sort_insert :
      (before : A → A → Bool) (x z : A) (ys : List A)
      → In z (sort_insert before x ys)
      → (z ≡ x) ⊎ In z ys
  unfolding sort_insert
  In-sort_insert before x z [] m = m
  In-sort_insert before x z (y ∷ ys) m = elim (Bool-cases (before y x)) [
    | inl first ↦ elim (rw (first, sort_insert) at m) [
      | inl same ↦ inr (inl same)
      | inr later ↦ elim (In-sort_insert before x z ys later) [
        | inl e ↦ inl e
        | inr place ↦ inr (inr place)
      ]
    ]
    | inr other ↦ rw (other, sort_insert) at m
  ]

  pub In-sort_by :
      (before : A → A → Bool) (z : A) (xs : List A) → In z (sort_by before xs) → In z xs
  unfolding sort_by
  In-sort_by before z [] m = absurd m
  In-sort_by before z (x ∷ xs) m = elim (In-sort_insert before x z (sort_by before xs) m) [
    | inl same ↦ inl same
    | inr place ↦ inr (In-sort_by before z xs place)
  ]

module _ {A : Type 0} where
  sort_insert-In :
      (before : A → A → Bool) (z x : A) (ys : List A)
      → (z ≡ x) ⊎ In z ys
      → In z (sort_insert before x ys)
  unfolding sort_insert
  sort_insert-In before z x [] place = place
  sort_insert-In before z x (y ∷ ys) place = elim (Bool-cases (before y x)) [
    | inr other ↦ rw (other, sort_insert) place
    | inl first ↦
        rw (first, sort_insert)
          (elim place [
            | inl new ↦ inr (sort_insert-In before z x ys (inl new))
            | inr (inl same) ↦ inl same
            | inr (inr later) ↦ inr (sort_insert-In before z x ys (inr later))
          ])
  ]

  pub sort_by-In :
      (before : A → A → Bool) (z : A) (xs : List A) → In z xs → In z (sort_by before xs)
  unfolding sort_by
  sort_by-In before z [] place = absurd place
  sort_by-In before z (x ∷ xs) (inl same) = sort_insert-In before z x (sort_by before xs) (inl same)
  sort_by-In before z (x ∷ xs) (inr later) =
      sort_insert-In before z x (sort_by before xs) (inr (sort_by-In before z xs later))

pub In-append : {A : Type 0} (x : A) (xs ys : List A) → In x (xs ++ ys) → In x xs ⊎ In x ys
In-append x [] ys place = inr place
In-append x (y ∷ xs) ys (inl same) = inl (inl same)
In-append x (y ∷ xs) ys (inr later) = elim (In-append x xs ys later) [
  | inl before ↦ inl (inr before)
  | inr after ↦ inr after
]

pub In-append-left : {A : Type 0} (x : A) (xs ys : List A) → In x xs → In x (xs ++ ys)
In-append-left x [] ys m = absurd m
In-append-left x (y ∷ xs) ys (inl e) = inl e
In-append-left x (y ∷ xs) ys (inr m) = inr (In-append-left x xs ys m)

pub In-append-right : {A : Type 0} (x : A) (xs ys : List A) → In x ys → In x (xs ++ ys)
In-append-right x [] ys m = m
In-append-right x (y ∷ xs) ys m = inr (In-append-right x xs ys m)

pub nothing-In : {A : Type 0} (xs : List A) → ((x : A) → In x xs → ⊥) → xs ≡ []
nothing-In [] none_there = refl
nothing-In (x ∷ xs) none_there = absurd (none_there x (inl refl))

pub In-map :
    {A B : Type 0} (f : A → B) (y : B) (xs : List A)
    → In y (map f xs)
    → (x : A) × In x xs × (y ≡ f x)
In-map f y [] place = absurd place
In-map f y (x ∷ xs) (inl same) = (x, inl refl, same)
In-map f y (x ∷ xs) (inr later) = let (z, there, same) = In-map f y xs later in (z, inr there, same)

pub map-In : {A B : Type 0} (f : A → B) (x : A) (xs : List A) → In x xs → In (f x) (map f xs)
map-In f x [] place = absurd place
map-In f x (y ∷ ys) (inl same) = inl (ap f same)
map-In f x (y ∷ ys) (inr later) = inr (map-In f x ys later)

-- Where a text stands, the test finds it, and the other way round.
pub contains-In : (x : String) (xs : List String) → contains x xs ≡ true → In x xs
contains-In x [] h = cc
contains-In x (y ∷ ys) h = elim (Bool-cases (str_eq x y)) [
  | inl same ↦ inl ((eq_iff x y).0 same)
  | inr other ↦ inr (contains-In x ys (ground arith))
]

pub In-contains : (x : String) (xs : List String) → In x xs → contains x xs ≡ true
In-contains x [] place = absurd place
In-contains x (y ∷ ys) (inl e) = ground (arith, (eq_iff x y).1 e)
In-contains x (y ∷ ys) (inr place) = ground (arith, In-contains x ys place)

pub In-take : {A : Type 0} (x : A) (n : ℕ) (xs : List A) → In x (take n xs) → In x xs
In-take x zero xs place = absurd place
In-take x (suc n) [] place = place
In-take x (suc n) (y ∷ ys) (inl same) = inl same
In-take x (suc n) (y ∷ ys) (inr later) = inr (In-take x n ys later)

pub All-In : {A : Type 0} (P : A → Type 0) (x : A) (xs : List A) → All P xs → In x xs → P x
All-In P x [] h place = absurd place
All-In P x (y ∷ ys) h (inl same) = subst P (sym same) h.0
All-In P x (y ∷ ys) h (inr later) = All-In P x ys h.1 later

pub In-All : {A : Type 0} (P : A → Type 0) (xs : List A) → ((x : A) → In x xs → P x) → All P xs
In-All P [] each = tt
In-All P (x ∷ xs) each = (each x (inl refl), In-All P xs (λ y place. each y (inr place)))
