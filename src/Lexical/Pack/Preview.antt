-- ===== src/Lexical/Pack/Preview.antt =====
-- What the preview of an item shows of its chunk.
use Prim.Native.String.{◌++◌ as str_append}
use Prim.Native.String.append
use text.Mathlib.TextLemmas.{append_assoc, append-nil}
use local_ai_broker.Prelude.{
  ℕ, zero, suc, ◌-◌, ◌≤◌, ◌≡◌, ◌⊎◌, String, true, List, [], ◌∷◌, str_eq, take, leb, refl, sym, ap,
  ◌∙◌, arith, if◌then◌else◌, false, inl, inr, Bool-cases, not, ◌&&◌,
}
use Prim.Native.Char.{Char}
use mathlib.Core.Bool.{false≢true}
use local_ai_broker.Prelude.Text.{strip, rstrip, is_empty, is_space, text_length, text_take}
use local_ai_broker.Prelude.TextParts.{
  IsFront, IsFront-trans, text_take-IsFront, rstrip-IsFront, letters, letters-append,
}
use local_ai_broker.Lexical.Picking.{Adapter}
use local_ai_broker.Lexical.Pack.{truncate, words_loop, join_words, first_words, compress_text}
use local_ai_broker.Prelude.TextLength.{
  text_length-append, text_length-rstrip, text_length-take, dots_length,
}

-- A text of at most `limit` characters: another one without the white space at its ends, or the front of
-- that with dots.
abbrev pub IsCut : ℕ → String → String → Type 0
IsCut limit text shown =
    (text_length shown ≤ limit)
    × ((shown ≡ strip text)
        ⊎ ((front : String) × IsFront front (strip text) × (shown ≡ str_append front "...")))

-- What is shown of a chunk's text is cut from what a model that is there made of it, or from a text that has, but for
-- white space, the characters that stand at its front.
abbrev pub IsPreview : (String → String) → Adapter → String → String → Type 0
IsPreview compressed adapter content shown =
    (text : String) × (((str_eq adapter.name "llama.cpp" && adapter.llm_available ≡ true)
        × (text ≡ compressed content))
      ⊎ IsFront (letters text) (letters content))
    × IsCut 220 text shown

truncate-short : (text : String) (limit : ℕ) → 3 ≤ limit → text_length (truncate text limit) ≤ limit
unfolding truncate
truncate-short text limit room = elim (Bool-cases (leb (text_length (strip text)) limit)) [
  | inl short ↦ rw (short, truncate) (ground arith)
  | inr long ↦
      rw (long, truncate)
        (omega (
          arith,
          text_length-append (rstrip (text_take (limit - 3) (strip text))) "...",
          text_length-rstrip (text_take (limit - 3) (strip text)),
          text_length-take (limit - 3) (strip text),
          dots_length,
        ))
]

truncate-IsCut : (text : String) (limit : ℕ) → 3 ≤ limit → IsCut limit text (truncate text limit)
unfolding truncate
truncate-IsCut text limit room = (
  truncate-short text limit room,
  elim (Bool-cases (leb (text_length (strip text)) limit)) [
    | inl short ↦ rw (short, truncate) (inl refl)
    | inr long ↦
        let front = text_take (limit - 3) (strip text) in
        rw (long, truncate)
          (inr (
            rstrip front,
            IsFront-trans (rstrip front) front (strip text) (rstrip-IsFront front)
                (text_take-IsFront (limit - 3) (strip text)),
            refl,
          ))
  ],
)

-- The characters of words.
letters_of : List String → String
letters_of [] = ""
letters_of (w ∷ ws) = str_append (letters w) (letters_of ws)

letters-join_words : (ws : List String) → letters (join_words ws) ≡ letters_of ws
unfolding join_words letters_of letters
letters-join_words [] = refl
letters-join_words (w ∷ []) = sym (append-nil (letters w))
letters-join_words (w ∷ v ∷ ws) =
    letters-append w (str_append " " (join_words (v ∷ ws)))
    ∙ ap (str_append (letters w)) (letters-append " " (join_words (v ∷ ws)))
    ∙ ap (str_append (letters w))
        ((λ i. append.nil (letters (join_words (v ∷ ws))) i) ∙ letters-join_words (v ∷ ws))

take-IsFront : (n : ℕ) (ws : List String) → IsFront (letters_of (take n ws)) (letters_of ws)
unfolding letters_of
take-IsFront zero ws = (letters_of ws, sym (λ i. append.nil (letters_of ws) i))
take-IsFront (suc n) [] = ("", refl)
take-IsFront (suc n) (w ∷ ws) =
    let (rest, e) = take-IsFront n ws in
    (
      rest,
      ap (str_append (letters w)) e ∙ sym (append_assoc (letters w) (letters_of (take n ws)) rest),
    )

last_word :
    (word : String)
    → letters_of (if is_empty word then [] else word ∷ []) ≡ str_append (letters word) ""
unfolding letters letters_of
last_word String.[] = sym (λ i. append.nil "" i)
last_word (String.◌∷◌ c w) = refl

no_letters : (word : String) → is_empty word ≡ true → letters word ≡ ""
unfolding letters
no_letters String.[] h = refl
no_letters (String.◌∷◌ c w) h = absurd (false≢true h)

one_letter : (c : Char) → is_space c ≡ false → letters (String.◌∷◌ c "") ≡ String.◌∷◌ c ""
unfolding letters
one_letter c letter = rw letter refl

letters_of-words_loop :
    (word s : String) → letters_of (words_loop word s) ≡ str_append (letters word) (letters s)
unfolding words_loop letters_of letters
letters_of-words_loop word String.[] = last_word word
letters_of-words_loop word (String.◌∷◌ c s) = elim (Bool-cases (is_space c)) [
  | inl space ↦ elim (Bool-cases (is_empty word)) [
    | inl empty ↦
        rw (space, empty)
          (letters_of-words_loop "" s
            ∙ ap (λ t. str_append t (letters s)) (sym (no_letters word empty)))
    | inr full ↦
        rw (space, full)
          (ap (str_append (letters word))
            (letters_of-words_loop "" s ∙ (λ i. append.nil (letters s) i)))
  ]
  | inr letter ↦ rw letter (
      letters_of-words_loop (str_append word (String.◌∷◌ c "")) s
      ∙ ap (λ t. str_append t (letters s))
          (letters-append word (String.◌∷◌ c "")
            ∙ ap (str_append (letters word)) (one_letter c letter))
      ∙ append_assoc (letters word) (String.◌∷◌ c "") (letters s)
      ∙ ap (str_append (letters word)) (
          (λ i. append.cons c "" (letters s) i)
          ∙ ap (λ t. String.◌∷◌ c t) (λ i. append.nil (letters s) i)))
]

first_words-IsFront :
    (n : ℕ) (content : String)
    → IsFront (letters (join_words (take n (words_loop "" content)))) (letters content)
unfolding letters
first_words-IsFront n content =
    let whole : letters_of (words_loop "" content) ≡ letters content =
      letters_of-words_loop "" content ∙ (λ i. append.nil (letters content) i) in
    let (rest, e) = take-IsFront n (words_loop "" content) in
    (
      rest,
      sym whole
          ∙ e
          ∙ ap (λ t. str_append t rest) (sym (letters-join_words (take n (words_loop "" content)))),
    )

pub compress_text-IsPreview :
    (compressed : String → String) (content : String) (budget : ℕ) (adapter : Adapter)
    → IsPreview compressed adapter content (compress_text compressed content budget adapter)
unfolding compress_text first_words
compress_text-IsPreview compressed content budget adapter =
    elim (Bool-cases (
      str_eq adapter.name "llama.cpp"
      && adapter.llm_available
      && not (is_empty (compressed content)))) [
        | inl answered ↦
            rw (answered, compress_text)
              (
                compressed content,
                inl (ground arith, refl),
                truncate-IsCut (compressed content) 220 (omega arith),
              )
        | inr plain ↦
            rw (plain, compress_text)
              (_, inr (first_words-IsFront _ content), truncate-IsCut _ 220 (omega arith))
      ]
