-- ===== src/Chunking/Starts.antt =====
-- The first region of a file begins at its first line.
use mathlib.Core.Bool.{false≢true}
use local_ai_broker.Prelude.{
  ℕ, ◌≤◌, String, Bool, true, false, List, [], ◌∷◌, ◌==◌, sort_by, ◌≡◌, refl, sym, ◌∙◌, ap, arith,
  All, any, inl, inr, Bool-cases,
}
use local_ai_broker.Prelude.TextOrder.{sort_by-Heads, sort_by-eq-nil, Heads}
use local_ai_broker.Chunking.{Marker, put, put_all, earlier}

-- The list begins with the first line or one before it.
abbrev pub First : List Marker → Type 0
First [] = ⊥
First (x ∷ xs) = x.0 ≤ 1

earlier_asymm : (a b : Marker) → earlier a b ≡ true → earlier b a ≡ false
earlier_asymm a b h = ground arith

earlier_neg_trans :
    (a b c : Marker) → earlier a b ≡ false → earlier b c ≡ false → earlier a c ≡ false
earlier_neg_trans a b c h k = ground arith

abbrev starts_at : ℕ → List Marker → Bool
starts_at line ms = any (λ m. m.0 == line) ms

put-starts :
    (line : ℕ) (symbol : String) (ms : List Marker)
    → starts_at 1 ms ≡ true
    → starts_at 1 (put line symbol ms) ≡ true
unfolding put
put-starts line symbol [] h = cc
put-starts line symbol (m ∷ ms) h = ground (arith, put-starts line symbol ms)

put_all-starts :
    (markers ms : List Marker) → starts_at 1 ms ≡ true → starts_at 1 (put_all markers ms) ≡ true
unfolding put_all
put_all-starts [] ms h = h
put_all-starts (m ∷ markers) ms h =
    put_all-starts markers (put m.0 m.1 ms) (put-starts m.0 m.1 ms h)

heads-first :
    (x : Marker) (ms : List Marker)
    → All (λ y. earlier y x ≡ false) ms
    → starts_at 1 ms ≡ true
    → x.0 ≤ 1
heads-first x [] h s = cc
heads-first x (m ∷ ms) h s = elim (Bool-cases (m.0 == 1)) [
  | inl here ↦ ground (arith, h.0)
  | inr there ↦ heads-first x ms h.1 (ground arith)
]

sorted-First :
    (sorted ms : List Marker)
    → Heads earlier earlier_asymm earlier_neg_trans sorted ms
    → (sorted ≡ [] → ms ≡ [])
    → starts_at 1 ms ≡ true
    → First sorted
sorted-First [] ms h e s = false≢true (ap (starts_at 1) (sym (e refl)) ∙ s)
sorted-First (x ∷ xs) ms h e s = heads-first x ms h s

pub First-early : (markers : List Marker) → First (sort_by earlier (put_all markers ((1, "") ∷ [])))
First-early markers =
    sorted-First _ _
      (sort_by-Heads earlier earlier_asymm earlier_neg_trans (put_all markers ((1, "") ∷ [])))
      (sort_by-eq-nil earlier (put_all markers ((1, "") ∷ [])))
      (put_all-starts markers ((1, "") ∷ []) refl)
