-- ===== src/Chunking/Bytes.antt =====
-- The chunks of `_split_utf8_chunks` are the text again, in pieces of bounded size cut between characters.
use mathlib.Core.Path.{subst}
use mathlib.Core.Bool.{false≢true}
use mathlib.Core.List.{append-nil}
use local_ai_broker.Prelude.{
  ℕ, zero, suc, ◌≤◌, ◌<◌, Bool, true, false, List, [], ◌∷◌, ◌++◌, ◌&&◌, leb, ◌==◌, if◌then◌else◌,
  min, take, drop, length, take-append-drop, length-take, length-drop, ◌≡◌, refl, sym, ◌∙◌, ap,
  arith, All, inl, inr, Bool-cases, not,
}
use local_ai_broker.Chunking.{is_continuation, back_off, cut, split_loop, split_utf8_chunks}

abbrev pub concat : List (List ℕ) → List ℕ
concat [] = []
concat (x ∷ xs) = x ++ concat xs

back_off-le : (bytes : List ℕ) (k : ℕ) → back_off bytes k ≤ k
unfolding back_off
back_off-le bytes zero = omega arith
back_off-le bytes (suc k) = ground (arith, back_off-le bytes k)

cut-bounds :
    (max_bytes : ℕ) (bytes : List ℕ)
    → 1 ≤ max_bytes
    → 1 ≤ length bytes
    → (1 ≤ cut max_bytes bytes)
      × (cut max_bytes bytes ≤ length bytes)
      × (cut max_bytes bytes ≤ max_bytes)
unfolding cut
cut-bounds max_bytes bytes m l = ground (arith, back_off-le bytes (min (length bytes) max_bytes))

split_loop-concat :
    (fuel max_bytes : ℕ) (bytes : List ℕ)
    → 1 ≤ max_bytes
    → length bytes ≤ fuel
    → concat (split_loop fuel max_bytes bytes) ≡ bytes
unfolding split_loop
split_loop-concat zero max_bytes [] m l = refl
split_loop-concat zero max_bytes (b ∷ bytes) m l = absurd (omega arith)
split_loop-concat (suc fuel) max_bytes [] m l = refl
split_loop-concat (suc fuel) max_bytes (b ∷ bytes) m l =
    let end = cut max_bytes (b ∷ bytes) in
    let bounds = cut-bounds max_bytes (b ∷ bytes) m (omega arith) in
    ap (λ l. take end (b ∷ bytes) ++ l)
      (split_loop-concat fuel max_bytes (drop end (b ∷ bytes)) m
        (omega (arith, length-drop end (b ∷ bytes))))
    ∙ take-append-drop end (b ∷ bytes)

-- The byte at a place is there and continues a character.
abbrev pub continues : ℕ → List ℕ → Bool
continues k [] = false
continues zero (b ∷ bytes) = is_continuation b
continues (suc k) (b ∷ bytes) = continues k bytes

-- At most `more` continuation bytes, and then at most three after each byte that starts a character.
abbrev pub runs : ℕ → List ℕ → Bool
runs more [] = true
runs zero (b ∷ bytes) = not (is_continuation b) && runs 3 bytes
runs (suc more) (b ∷ bytes) =
    let rest = runs more bytes in
    let start = runs 3 bytes in if is_continuation b then rest else start

-- What the bytes of UTF-8 look like: no continuation first, and never four in a row.
abbrev pub IsEncoded : List ℕ → Type 0
IsEncoded bytes = runs 0 bytes ≡ true

continues-drop :
    (k : ℕ) (bytes : List ℕ)
    → elim (drop k bytes) [ [] ↦ false | b ∷ _ ↦ is_continuation b ] ≡ continues k bytes
continues-drop zero [] = refl
continues-drop zero (b ∷ bytes) = refl
continues-drop (suc k) [] = refl
continues-drop (suc k) (b ∷ bytes) = continues-drop k bytes

back_off-step :
    (bytes : List ℕ) (k : ℕ)
    → back_off bytes (suc k) ≡ (if continues (suc k) bytes then back_off bytes k else suc k)
unfolding back_off
back_off-step bytes k = ground (arith, continues-drop (suc k) bytes)

-- Where the search ends past the start, no character continues.
back_off-clean :
    (bytes : List ℕ) (k : ℕ) → 1 ≤ back_off bytes k → continues (back_off bytes k) bytes ≡ false
back_off-clean bytes zero h = absurd (unfold back_off in omega arith)
back_off-clean bytes (suc k) h = ground (arith, back_off-step bytes k, back_off-clean bytes k)

back_off-eq-zero :
    (bytes : List ℕ) (k : ℕ)
    → back_off bytes k ≡ 0
    → (j : ℕ) → 1 ≤ j
    → j ≤ k
    → continues j bytes ≡ true
back_off-eq-zero bytes zero h j low high = absurd (omega arith)
back_off-eq-zero bytes (suc k) h j low high =
    let here : continues (suc k) bytes ≡ true = ground (arith, back_off-step bytes k) in
    let before : back_off bytes k ≡ 0 = ground (arith, back_off-step bytes k) in
    elim (Bool-cases (leb j k)) [
      | inl below ↦ back_off-eq-zero bytes k before j low (ground arith)
      | inr last ↦ subst (λ i. continues i bytes ≡ true) (ground arith) here
    ]

runs-three :
    (more : ℕ) (bytes : List ℕ)
    → more ≤ 3
    → runs more bytes ≡ true
    → continues 0 bytes ≡ true
    → continues 1 bytes ≡ true
    → continues 2 bytes ≡ true
    → continues 3 bytes ≡ false
runs-three more [] m r a b c = refl
runs-three more (x ∷ []) m r a b c = refl
runs-three more (x ∷ y ∷ []) m r a b c = refl
runs-three more (x ∷ y ∷ z ∷ []) m r a b c = refl
runs-three zero (x ∷ y ∷ z ∷ w ∷ bytes) m r a b c = ground arith
runs-three (suc zero) (x ∷ y ∷ z ∷ w ∷ bytes) m r a b c = ground arith
runs-three (suc (suc zero)) (x ∷ y ∷ z ∷ w ∷ bytes) m r a b c = ground arith
runs-three (suc (suc (suc zero))) (x ∷ y ∷ z ∷ w ∷ bytes) m r a b c = ground arith
runs-three (suc (suc (suc (suc more)))) (x ∷ y ∷ z ∷ w ∷ bytes) m r a b c = absurd (omega arith)

-- Three bytes that continue a character are followed by none that does.
runs-four :
    (k more : ℕ) (bytes : List ℕ)
    → more ≤ 3
    → runs more bytes ≡ true
    → continues (suc k) bytes ≡ true
    → continues (suc (suc k)) bytes ≡ true
    → continues (suc (suc (suc k))) bytes ≡ true
    → continues (suc (suc (suc (suc k)))) bytes ≡ false
runs-four k more [] m r a b c = refl
runs-four zero zero (x ∷ bytes) m r a b c = runs-three 3 bytes (omega arith) (ground arith) a b c
runs-four zero (suc more) (x ∷ bytes) m r a b c = elim (Bool-cases (is_continuation x)) [
  | inl h ↦ runs-three more bytes (omega arith) (ground arith) a b c
  | inr h ↦ runs-three 3 bytes (omega arith) (ground arith) a b c
]
runs-four (suc k) zero (x ∷ bytes) m r a b c =
    runs-four k 3 bytes (omega arith) (ground arith) a b c
runs-four (suc k) (suc more) (x ∷ bytes) m r a b c = elim (Bool-cases (is_continuation x)) [
  | inl h ↦ runs-four k more bytes (omega arith) (ground arith) a b c
  | inr h ↦ runs-four k 3 bytes (omega arith) (ground arith) a b c
]

runs-drop :
    (k more : ℕ) (bytes : List ℕ)
    → runs more bytes ≡ true
    → continues k bytes ≡ false
    → IsEncoded (drop k bytes)
runs-drop zero more [] r c = refl
runs-drop (suc k) more [] r c = refl
runs-drop zero zero (b ∷ bytes) r c = r
runs-drop zero (suc more) (b ∷ bytes) r c = ground arith
runs-drop (suc k) zero (b ∷ bytes) r c = runs-drop k 3 bytes (ground arith) c
runs-drop (suc k) (suc more) (b ∷ bytes) r c = elim (Bool-cases (is_continuation b)) [
  | inl h ↦ runs-drop k more bytes (ground arith) c
  | inr h ↦ runs-drop k 3 bytes (ground arith) c
]

continues-end : (bytes : List ℕ) → continues (length bytes) bytes ≡ false
continues-end [] = refl
continues-end (b ∷ bytes) = continues-end bytes

back_off-four :
    (k : ℕ) (bytes : List ℕ) → IsEncoded bytes → back_off bytes (suc (suc (suc (suc k)))) ≡ 0 → ⊥
back_off-four k bytes r h =
    let all = back_off-eq-zero bytes (suc (suc (suc (suc k)))) h in
    let last =
      runs-four k 0 bytes (omega arith) r (all (suc k) (omega arith) (omega arith))
        (all (suc (suc k)) (omega arith) (omega arith))
        (all (suc (suc (suc k))) (omega arith) (omega arith)) in
    false≢true (sym last ∙ all (suc (suc (suc (suc k)))) (omega arith) (omega arith))

back_off-pos : (k : ℕ) (bytes : List ℕ) → 4 ≤ k → IsEncoded bytes → 1 ≤ back_off bytes k
back_off-pos (suc (suc (suc (suc k)))) bytes m r =
    elim (Bool-cases (back_off bytes (suc (suc (suc (suc k)))) == 0)) [
      | inl h ↦ absurd (back_off-four k bytes r (ground arith))
      | inr h ↦ ground arith
    ]
back_off-pos zero bytes m r = absurd (omega arith)
back_off-pos (suc zero) bytes m r = absurd (omega arith)
back_off-pos (suc (suc zero)) bytes m r = absurd (omega arith)
back_off-pos (suc (suc (suc zero))) bytes m r = absurd (omega arith)

cut-eq-length :
    (max_bytes : ℕ) (bytes : List ℕ) → length bytes ≤ max_bytes → cut max_bytes bytes ≡ length bytes
unfolding cut
cut-eq-length max_bytes bytes h = ground arith

cut-eq-back_off :
    (max_bytes : ℕ) (bytes : List ℕ)
    → max_bytes < length bytes
    → 1 ≤ back_off bytes max_bytes
    → cut max_bytes bytes ≡ back_off bytes max_bytes
unfolding cut
cut-eq-back_off max_bytes bytes h pos =
    let end : min (length bytes) max_bytes ≡ max_bytes = omega arith in rw end (ground arith)

cut-clean :
    (max_bytes : ℕ) (bytes : List ℕ)
    → 4 ≤ max_bytes
    → IsEncoded bytes
    → continues (cut max_bytes bytes) bytes ≡ false
cut-clean max_bytes bytes m r = elim (Bool-cases (leb (length bytes) max_bytes)) [
  | inl short ↦
      subst (λ k. continues k bytes ≡ false) (sym (cut-eq-length max_bytes bytes (ground arith)))
        (continues-end bytes)
  | inr long ↦
      let pos = back_off-pos max_bytes bytes m r in
      subst (λ k. continues k bytes ≡ false)
        (sym (cut-eq-back_off max_bytes bytes (ground arith) pos))
        (back_off-clean bytes max_bytes pos)
]

-- A cut that leaves bytes leaves them at the start of a character.
cut-IsEncoded :
    (max_bytes : ℕ) (bytes : List ℕ)
    → 4 ≤ max_bytes
    → IsEncoded bytes
    → IsEncoded (drop (cut max_bytes bytes) bytes)
cut-IsEncoded max_bytes bytes m r =
    runs-drop (cut max_bytes bytes) 0 bytes r (cut-clean max_bytes bytes m r)

encoded-clean : (bytes : List ℕ) → IsEncoded bytes → continues 0 bytes ≡ false
encoded-clean [] r = refl
encoded-clean (b ∷ bytes) r = ground arith

continues-take : (n : ℕ) (bytes : List ℕ) → IsEncoded bytes → continues 0 (take n bytes) ≡ false
continues-take zero bytes r = refl
continues-take (suc n) [] r = refl
continues-take (suc n) (b ∷ bytes) r = ground arith

-- A piece of a text: of bounded size, and beginning with a character.
abbrev pub IsPiece : ℕ → List ℕ → Type 0
IsPiece max_bytes piece =
    (1 ≤ length piece) × (length piece ≤ max_bytes) × (continues 0 piece ≡ false)

split_loop-IsPiece :
    (fuel max_bytes : ℕ) (bytes : List ℕ)
    → 4 ≤ max_bytes
    → IsEncoded bytes
    → All (IsPiece max_bytes) (split_loop fuel max_bytes bytes)
unfolding split_loop
split_loop-IsPiece zero max_bytes bytes m r = tt
split_loop-IsPiece (suc fuel) max_bytes [] m r = tt
split_loop-IsPiece (suc fuel) max_bytes (b ∷ bytes) m r =
    let end = cut max_bytes (b ∷ bytes) in
    let bounds = cut-bounds max_bytes (b ∷ bytes) (omega arith) (omega arith) in
    (
      (
        omega (arith, length-take end (b ∷ bytes)),
        omega (arith, length-take end (b ∷ bytes)),
        continues-take end (b ∷ bytes) r,
      ),
      split_loop-IsPiece fuel max_bytes (drop end (b ∷ bytes)) m
          (cut-IsEncoded max_bytes (b ∷ bytes) m r),
    )

-- Text of at least one byte, encoded as UTF-8, is cut into pieces that joined are the text again, each
-- of one byte at least and of `max_bytes` at most, and each beginning with a character, so that each can be
-- decoded by itself; `max_bytes` is 4 at least.
pub split_utf8_chunks-IsPiece :
    (max_bytes : ℕ) (encoded : List ℕ)
    → 4 ≤ max_bytes
    → 1 ≤ length encoded
    → IsEncoded encoded
    → (concat (split_utf8_chunks max_bytes encoded) ≡ encoded)
      × All (IsPiece max_bytes) (split_utf8_chunks max_bytes encoded)
unfolding split_utf8_chunks
split_utf8_chunks-IsPiece max_bytes encoded m l r =
    elim (Bool-cases (leb (length encoded) max_bytes)) [
      | inl short ↦
          rw (short, split_utf8_chunks)
            (append-nil encoded, ((l, ground arith, encoded-clean encoded r), tt))
      | inr long ↦
          rw (long, split_utf8_chunks)
            (
              split_loop-concat (length encoded) max_bytes encoded (omega arith) (omega arith),
              split_loop-IsPiece (length encoded) max_bytes encoded m r,
            )
    ]
