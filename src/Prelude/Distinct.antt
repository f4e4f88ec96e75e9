-- ===== src/Prelude/Distinct.antt =====
-- Lists that hold no item twice.
use mathlib.Core.Path.{◌≡◌, refl}
use mathlib.Core.Bool.{Bool, true, false, ◌||◌}
use mathlib.Core.List.{List, [], ◌∷◌, ◌++◌}
use native.Mathlib.Omega.{arith}
use mathlib.Core.Path.{ap, ◌∙◌}
use mathlib.Core.Logic.{inl, inr}
use local_ai_broker.Prelude.Tests.{Bool-cases}
use local_ai_broker.Prelude.Lists.{contains}
use local_ai_broker.Prelude.Lists.{member, distinct, take}
use Prim.Native.Nat.{ℕ, zero, suc}
use Prim.Native.String.{String}
use text.Mathlib.Text.{◌==◌ as str_eq}
use text.Mathlib.TextEquality.{eq_iff}

module _ {ℓ} {A : Type ℓ} (same : A → A → Bool) where
  pub member-append :
      (x : A) (xs ys : List A) → member same x (xs ++ ys) ≡ (member same x xs || member same x ys)
  member-append x [] ys = refl
  member-append x (y ∷ xs) ys = ground (arith, member-append x xs ys)

  -- What is appended is new, so the list stays distinct.
  pub distinct-snoc :
      ((a b : A) → same a b ≡ same b a)
      → (xs : List A) (x : A) → distinct same xs ≡ true
      → member same x xs ≡ false
      → distinct same (xs ++ x ∷ []) ≡ true
  distinct-snoc symmetric [] x d m = refl
  distinct-snoc symmetric (y ∷ xs) x d m =
      ground (arith, symmetric x y, member-append y xs (x ∷ []), distinct-snoc symmetric xs x)

  member-take :
      (x : A) (n : ℕ) (xs : List A) → member same x xs ≡ false → member same x (take n xs) ≡ false
  member-take x zero xs h = refl
  member-take x (suc n) [] h = refl
  member-take x (suc n) (y ∷ ys) h = ground (arith, member-take x n ys)

  pub distinct-take :
      (n : ℕ) (xs : List A) → distinct same xs ≡ true → distinct same (take n xs) ≡ true
  distinct-take zero xs h = refl
  distinct-take (suc n) [] h = refl
  distinct-take (suc n) (y ∷ ys) h = ground (arith, distinct-take n ys, member-take y n ys)

pub str_eq_comm : (a b : String) → str_eq a b ≡ str_eq b a
str_eq_comm a b = ground (arith, eq_iff a b, eq_iff b a)

pub str_eq_refl : (s : String) → str_eq s s ≡ true
str_eq_refl s = (eq_iff s s).1 refl

-- The first of a list without repetitions is not among the others.
pub distinct-apart :
    (first x : String) (xs : List String)
    → distinct str_eq (first ∷ xs) ≡ true
    → contains x xs ≡ true
    → str_eq first x ≡ false
distinct-apart first x xs d there = elim (Bool-cases (str_eq first x)) [
  | inr apart ↦ apart
  | inl same ↦
      let moved : contains first xs ≡ true =
        ap (λ y. contains y xs) ((eq_iff first x).0 same) ∙ there in
      ground arith
]
