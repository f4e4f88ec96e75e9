-- ===== src/Prelude/TextOrder.antt =====
-- Python's order on texts, by code points, with the laws that sorting by it needs.
use Prim.Native.Char.{code}
use Prim.Native.String.{String}
use mathlib.Core.Path.{◌≡◌, refl}
use mathlib.Core.Bool.{Bool, true, false, ◌&&◌, ◌||◌}
use mathlib.Core.List.{List, [], ◌∷◌, cons≢nil}
use mathlib.Core.Logic.{inl, inr}
use native.Mathlib.Omega.{arith}
use text.Mathlib.TextEquality.{Char-path}
use local_ai_broker.Prelude.Tests.{ltb, ◌==◌, Bool-cases}
use local_ai_broker.Prelude.Lists.{sort_by, sort_insert, All}

-- `a < b`
unfoldable pub str_lt : String → String → Bool
str_lt String.[] String.[] = false
str_lt String.[] (String.◌∷◌ d t) = true
str_lt (String.◌∷◌ c s) String.[] = false
str_lt (String.◌∷◌ c s) (String.◌∷◌ d t) =
    let rest = str_lt s t in ltb (code c) (code d) || (code c == code d && rest)

pub str_lt_asymm : (a b : String) → str_lt a b ≡ true → str_lt b a ≡ false
unfolding str_lt
str_lt_asymm String.[] String.[] h = cc
str_lt_asymm String.[] (String.◌∷◌ d t) h = refl
str_lt_asymm (String.◌∷◌ c s) String.[] h = cc
str_lt_asymm (String.◌∷◌ c s) (String.◌∷◌ d t) h = ground (arith, str_lt_asymm s t)

pub str_lt_neg_trans :
    (a b c : String) → str_lt a b ≡ false → str_lt b c ≡ false → str_lt a c ≡ false
unfolding str_lt
str_lt_neg_trans String.[] String.[] c h k = k
str_lt_neg_trans String.[] (String.◌∷◌ d t) c h k = cc
str_lt_neg_trans (String.◌∷◌ x s) String.[] String.[] h k = refl
str_lt_neg_trans (String.◌∷◌ x s) String.[] (String.◌∷◌ z u) h k = cc
str_lt_neg_trans (String.◌∷◌ x s) (String.◌∷◌ y t) String.[] h k = refl
str_lt_neg_trans (String.◌∷◌ x s) (String.◌∷◌ y t) (String.◌∷◌ z u) h k =
    ground (arith, str_lt_neg_trans s t u)

pub str_lt_antisymm : (a b : String) → str_lt a b ≡ false → str_lt b a ≡ false → a ≡ b
unfolding str_lt
str_lt_antisymm String.[] String.[] h k = refl
str_lt_antisymm String.[] (String.◌∷◌ d t) h k = cc
str_lt_antisymm (String.◌∷◌ c s) String.[] h k = cc
str_lt_antisymm (String.◌∷◌ c s) (String.◌∷◌ d t) h k = λ i.
    String.◌∷◌ (Char-path c d (omega (arith, same)) i)
      (str_lt_antisymm s t (ground arith) (ground arith) i)
  where
    same : code c ≡ code d
    same = ground arith

module _ {ℓ} {A : Type ℓ} (before : A → A → Bool) where
  sort_insert-ne-nil : (x : A) (xs : List A) → sort_insert before x xs ≡ [] → ⊥
  unfolding sort_insert
  sort_insert-ne-nil x [] h = cc
  sort_insert-ne-nil x (y ∷ ys) h = ground arith

  pub sort_by-eq-nil : (xs : List A) → sort_by before xs ≡ [] → xs ≡ []
  unfolding sort_by
  sort_by-eq-nil [] h = refl
  sort_by-eq-nil (x ∷ xs) h = absurd (sort_insert-ne-nil x (sort_by before xs) h)

-- A sort by a strict order begins with an item that none comes before.
module _ {ℓ} {A : Type ℓ} (before : A → A → Bool)
    (asymm : (a b : A) → before a b ≡ true → before b a ≡ false)
    (neg_trans : (a b c : A) → before a b ≡ false → before b c ≡ false → before a c ≡ false) where
  -- `x` heads the list and nothing in `ys` comes before it.
  abbrev pub Heads : List A → List A → Type 0
  Heads [] ys = Unit
  Heads (x ∷ xs) ys = All (λ y. before y x ≡ false) ys

  All-weaken :
      (x z : A) (ys : List A)
      → before x z ≡ false
      → All (λ y. before y x ≡ false) ys
      → All (λ y. before y z ≡ false) ys
  All-weaken x z [] h all = tt
  All-weaken x z (y ∷ ys) h all = (neg_trans y x z all.0 h, All-weaken x z ys h all.1)

  irrefl : (a : A) → before a a ≡ false
  irrefl a = elim (Bool-cases (before a a)) [ inl h ↦ asymm a a h | inr h ↦ h ]

  Heads-insert :
      (x : A) (sorted ys : List A)
      → Heads sorted ys
      → (sorted ≡ [] → ys ≡ [])
      → Heads (sort_insert before x sorted) (x ∷ ys)
  unfolding sort_insert
  Heads-insert x [] [] h e = (irrefl x, tt)
  Heads-insert x [] (y ∷ ys) h e = absurd (cons≢nil (e refl))
  Heads-insert x (s ∷ rest) ys h e = elim (Bool-cases (before s x)) [
    | inl first ↦ rw (first, sort_insert) (asymm s x first, h)
    | inr other ↦ rw (other, sort_insert) (irrefl x, All-weaken s x ys other h)
  ]

  -- The first item of the sorted list comes before, or level with, every item of the list.
  pub sort_by-Heads : (xs : List A) → Heads (sort_by before xs) xs
  unfolding sort_by
  sort_by-Heads [] = tt
  sort_by-Heads (x ∷ xs) =
      Heads-insert x (sort_by before xs) xs (sort_by-Heads xs) (sort_by-eq-nil before xs)
