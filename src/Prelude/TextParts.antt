-- ===== src/Prelude/TextParts.antt =====
-- Texts that are the front of others, and texts without their white space.
use Prim.Native.Nat.{ℕ, zero, suc}
use Prim.Native.String.{String, ◌++◌ as str_append}
use Prim.Native.String.append
use text.Mathlib.TextLemmas.{append_assoc}
use mathlib.Core.Path.{◌≡◌, ap, sym, ◌∙◌}
use mathlib.Core.Bool.{◌&&◌}
use mathlib.Core.Logic.{inl, inr}
use local_ai_broker.Prelude.Tests.{if◌then◌else◌, Bool-cases}
use local_ai_broker.Prelude.Text.{is_space, is_empty, rstrip, text_take}

-- The one text is the front of the other.
abbrev pub IsFront : String → String → Type 0
IsFront front text = (rest : String) × (text ≡ str_append front rest)

pub IsFront-trans : (a b c : String) → IsFront a b → IsFront b c → IsFront a c
IsFront-trans a b c (r, e) (t, f) =
    (str_append r t, f ∙ ap (λ x. str_append x t) e ∙ append_assoc a r t)

pub text_take-IsFront : (n : ℕ) (s : String) → IsFront (text_take n s) s
unfolding text_take
text_take-IsFront zero s = (s, sym (λ i. append.nil s i))
text_take-IsFront (suc n) String.[] = (String.[], sym (λ i. append.nil String.[] i))
text_take-IsFront (suc n) (String.◌∷◌ c s) =
    let (rest, e) = text_take-IsFront n s in
    (rest, ap (λ t. String.◌∷◌ c t) e ∙ sym (λ i. append.cons c (text_take n s) rest i))

pub rstrip-IsFront : (s : String) → IsFront (rstrip s) s
unfolding rstrip
rstrip-IsFront String.[] = (String.[], sym (λ i. append.nil String.[] i))
rstrip-IsFront (String.◌∷◌ c s) = elim (Bool-cases (is_space c && is_empty (rstrip s))) [
  | inl ends ↦ rw (ends, rstrip) (String.◌∷◌ c s, sym (λ i. append.nil (String.◌∷◌ c s) i))
  | inr goes ↦
      let (rest, e) = rstrip-IsFront s in
      rw (goes, rstrip)
        (rest, ap (λ t. String.◌∷◌ c t) e ∙ sym (λ i. append.cons c (rstrip s) rest i))
]

-- A text without its white space.
unfoldable pub letters : String → String
letters String.[] = String.[]
letters (String.◌∷◌ c s) = let rest = letters s in if is_space c then rest else String.◌∷◌ c rest

pub letters-append : (a b : String) → letters (str_append a b) ≡ str_append (letters a) (letters b)
unfolding letters
letters-append String.[] b = ap letters (λ i. append.nil b i) ∙ sym (λ i. append.nil (letters b) i)
letters-append (String.◌∷◌ c s) b =
    ap letters (λ i. append.cons c s b i) ∙ elim (Bool-cases (is_space c)) [
      | inl space ↦ rw space (letters-append s b)
      | inr letter ↦ rw letter (
          ap (λ t. String.◌∷◌ c t) (letters-append s b)
          ∙ sym (λ i. append.cons c (letters s) (letters b) i))
    ]
