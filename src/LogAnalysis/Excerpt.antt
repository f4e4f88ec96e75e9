-- ===== src/LogAnalysis/Excerpt.antt =====
-- Which lines of a log the excerpt and the timeline take.
use mathlib.Core.List.{append-nil, append_assoc}
use local_ai_broker.Prelude.{
  ℕ, zero, suc, ◌+◌, String, true, false, none, some, List, [], ◌∷◌, ◌++◌, length, length-append,
  ◌≡◌, refl, ap, ◌∙◌, sym, inl, inr, Bool-cases, Option-cases, All, take, if◌then◌else◌, arith,
  keep, ◌==◌, ◌⊎◌,
}
use local_ai_broker.Prelude.Text.{rstrip}
use local_ai_broker.Prelude.Membership.{keep-true, keep-false}
use mathlib.Core.Option.{none-ne-some, some-injective}
use local_ai_broker.LogAnalysis.{
  looks_interesting, redact, excerpt_loop, redacted, build_excerpt, last_or, last_interesting,
  find_failure_line,
}

-- The lines of an excerpt: the first twenty interesting ones, or the first twenty of a log without any.
abbrev pub excerpt_lines : List String → List String
excerpt_lines lines = elim (keep looks_interesting lines) [
  | [] ↦ take 20 lines
  | l ∷ ls ↦ take 20 (l ∷ ls)
]

excerpt_loop-keep :
    (excerpt lines : List String) (room : ℕ)
    → length excerpt + suc room ≡ 20
    → excerpt_loop excerpt lines
      ≡ excerpt ++ redacted (take (suc room) (keep looks_interesting lines))
unfolding excerpt_loop
excerpt_loop-keep excerpt [] room e = sym (append-nil excerpt)
excerpt_loop-keep excerpt (line ∷ lines) room e = elim (Bool-cases (looks_interesting line)) [
  | inr dull ↦
      let more : (length excerpt == 20) ≡ false = ground (arith, e) in
      rw (dull, excerpt_loop, keep-false looks_interesting line lines dull)
        (rw (more) (excerpt_loop-keep excerpt lines room e))
  | inl shown ↦
      rw (shown, excerpt_loop, keep-true looks_interesting line lines shown)
        (fresh room e (λ (r : ℕ). excerpt_loop-keep longer lines r))
]
  where
    item : String
    item = redact (rstrip line)

    longer : List String
    longer = excerpt ++ item ∷ []

    later : List String
    later = keep looks_interesting lines

    fresh :
        (room : ℕ)
        → length excerpt + suc room ≡ 20
        → ((r : ℕ)
            → length longer + suc r ≡ 20
            → excerpt_loop longer lines ≡ longer ++ redacted (take (suc r) later))
        → (if length longer == 20 then longer else excerpt_loop longer lines)
          ≡ excerpt ++ item ∷ redacted (take room later)
    fresh zero e next = ground (arith, e, length-append excerpt (item ∷ []))
    fresh (suc room) e next =
        let more : length longer + suc room ≡ 20 =
          omega (arith, e, length-append excerpt (item ∷ [])) in
        ground (
          arith,
          more,
          next room more,
          append_assoc excerpt (item ∷ []) (redacted (take (suc room) later)),
        )

shown_or :
    (lines kept : List String)
    → (elim (redacted (take 20 kept)) [ [] ↦ redacted (take 20 lines) | l ∷ ls ↦ l ∷ ls ])
      ≡ redacted (elim kept [ [] ↦ take 20 lines | l ∷ ls ↦ take 20 (l ∷ ls) ])
shown_or lines [] = refl
shown_or lines (l ∷ ls) = refl

-- The excerpt shows, redacted and without the white space at their ends, the first twenty interesting lines
-- of a log, or its first twenty lines where none is interesting.
pub build_excerpt-lines :
    (lines : List String) → build_excerpt lines ≡ redacted (excerpt_lines lines)
unfolding build_excerpt
build_excerpt-lines lines =
    rw (excerpt_loop-keep [] lines 19 (omega arith), build_excerpt)
      (shown_or lines (keep looks_interesting lines))

-- The line of a failure.
abbrev pub IsFailureLine : List String → String → Type 0
IsFailureLine lines line =
    ((before : List String) × (after : List String) × (lines ≡ before ++ line ∷ after)
      × (looks_interesting line ≡ true)
      × All (λ l. looks_interesting l ≡ false) after)
    ⊎ (All (λ l. looks_interesting l ≡ false) lines × (line ≡ last_or "" lines))

last_interesting-none :
    (lines : List String)
    → last_interesting lines ≡ none
    → All (λ l. looks_interesting l ≡ false) lines
unfolding last_interesting
last_interesting-none [] h = tt
last_interesting-none (line ∷ lines) h = elim (Option-cases (last_interesting lines)) [
  | inr (later, e) ↦ absurd (none-ne-some later (sym (rw (e, last_interesting) at h)))
  | inl e ↦ elim (Bool-cases (looks_interesting line)) [
    | inl shown ↦ absurd (none-ne-some line (sym (rw (e, shown, last_interesting) at h)))
    | inr dull ↦ (dull, last_interesting-none lines e)
  ]
]

last_interesting-some :
    (lines : List String) (found : String)
    → last_interesting lines ≡ some found
    → (before : List String) × (after : List String) × (lines ≡ before ++ found ∷ after)
      × (looks_interesting found ≡ true)
      × All (λ l. looks_interesting l ≡ false) after
unfolding last_interesting
last_interesting-some [] found h = cc
last_interesting-some (line ∷ lines) found h = elim (Option-cases (last_interesting lines)) [
  | inr (later, e) ↦
      let (before, after, whole, shown, dull) = last_interesting-some lines later e in
      let same : later ≡ found = some-injective later found (rw (e, last_interesting) at h) in
      (
        line ∷ before,
        after,
        ap (λ l. line ∷ l) whole ∙ ap (λ l. line ∷ before ++ l ∷ after) same,
        ap looks_interesting (sym same) ∙ shown,
        dull,
      )
  | inl e ↦ elim (Bool-cases (looks_interesting line)) [
    | inl shown ↦
        let same : line ≡ found =
          some-injective line found (rw (e, shown, last_interesting) at h) in
        (
          [],
          lines,
          ap (λ l. l ∷ lines) same,
          ap looks_interesting (sym same) ∙ shown,
          last_interesting-none lines e,
        )
    | inr dull ↦ absurd (none-ne-some found (rw (e, dull, last_interesting) at h))
  ]
]

-- The failure event is of the last interesting line, or of the last line where none is interesting.
pub find_failure_line-IsFailureLine :
    (lines : List String) → IsFailureLine lines (find_failure_line lines)
unfolding find_failure_line
find_failure_line-IsFailureLine lines = elim (Option-cases (last_interesting lines)) [
  | inr (found, e) ↦ rw (e, find_failure_line) (inl (last_interesting-some lines found e))
  | inl e ↦ rw (e, find_failure_line) (inr (last_interesting-none lines e, refl))
]
