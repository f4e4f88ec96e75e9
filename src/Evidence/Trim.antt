-- ===== src/Evidence/Trim.antt =====
-- `trim_evidence_for_final_pack` ends, with a pack that fits.
use mathlib.Core.Path.{subst}
use mathlib.Core.List.{append-nil, append_assoc}
use local_ai_broker.Prelude.{
  ℕ, zero, suc, ◌+◌, ◌-◌, ◌*◌, ◌≤◌, ◌<◌, String, true, false, some, List, [], ◌∷◌, ◌++◌, ltb, min,
  max, map, length, drop_last, ◌≡◌, refl, sym, ◌∙◌, ap, arith, ◌⊎◌, inl, inr, Bool-cases,
  Option-cases,
}
use local_ai_broker.Prelude.Text.{rstrip}
use local_ai_broker.Evidence.{
  Item, minimum_excerpt_chars, longest, shorten, shorten_at, trim_step, too_large, trim_loop,
  rounds, trim_evidence_for_final_pack,
}
use local_ai_broker.Prelude.Text.{text_length, text_take}
use local_ai_broker.Prelude.TextLength.{
  text_length-take, text_length-rstrip, text_length-append, dots_length,
}

shorten-length :
    (reduction : ℕ) (item : Item)
    → text_length (shorten reduction item).excerpt ≤ text_length item.excerpt - reduction + 3
unfolding shorten
shorten-length reduction item = omega (
  arith,
  text_length-append (rstrip (text_take (text_length item.excerpt - reduction) item.excerpt)) "...",
  text_length-rstrip (text_take (text_length item.excerpt - reduction) item.excerpt),
  text_length-take (text_length item.excerpt - reduction) item.excerpt,
  dots_length,
)

-- Shortening an item of that size makes progress.
Shortens : ℕ → ℕ → List Item → Type 0
Shortens k size items =
    (96 < size)
    × (k < length items)
    × ((reduction : ℕ)
        → 32 ≤ reduction
        → reduction ≤ size
        → rounds (shorten_at k reduction items) < rounds items)

Shortens-here :
    (item : Item) (items : List Item)
    → 96 < text_length item.excerpt
    → Shortens 0 (text_length item.excerpt) (item ∷ items)
unfolding Shortens rounds shorten_at
Shortens-here item items h =
    (h, omega arith, λ reduction low high. omega (arith, shorten-length reduction item))

Shortens-there :
    (k size : ℕ) (item : Item) (items : List Item)
    → Shortens k size items
    → Shortens (suc k) size (item ∷ items)
unfolding Shortens rounds shorten_at
Shortens-there k size item items (big, place, less) =
    (big, omega arith, λ reduction low high. omega (arith, less reduction low high))

-- The item that `longest` finds.
longest-Shortens :
    (start : ℕ) (items : List Item) (size index : ℕ)
    → longest start items ≡ some (size, index)
    → (k : ℕ) × (index ≡ start + k) × Shortens k size items
unfolding longest
longest-Shortens start [] size index h = cc
longest-Shortens start (item ∷ items) size index h =
    elim (Bool-cases (ltb minimum_excerpt_chars (text_length item.excerpt))) [
      | inr small ↦
          let (k, e, s) =
            longest-Shortens (start + 1) items size index (rw (small, longest) at h) in
          (suc k, omega arith, Shortens-there k size item items s)
      | inl big ↦ elim (Option-cases (longest (start + 1) items)) [
        | inl none_later ↦ (
          0,
          ground arith,
          subst (λ n. Shortens 0 n (item ∷ items)) (ground arith)
              (Shortens-here item items (ground arith)),
        )
        | inr (found, later) ↦ elim (Bool-cases (ltb found.0 (text_length item.excerpt))) [
          | inl longer ↦ (
            0,
            ground arith,
            subst (λ n. Shortens 0 n (item ∷ items)) (ground arith)
                (Shortens-here item items (ground arith)),
          )
          | inr shorter ↦
              let (k, e, s) = longest-Shortens (start + 1) items found.0 found.1 later in
              (
                suc k,
                ground arith,
                subst (λ n. Shortens (suc k) n (item ∷ items)) (ground arith)
                    (Shortens-there k found.0 item items s),
              )
        ]
      ]
    ]

rounds-drop_last : (items : List Item) → 1 ≤ length items → rounds (drop_last items) < rounds items
unfolding rounds
rounds-drop_last [] h = omega arith
rounds-drop_last (x ∷ []) h = omega arith
rounds-drop_last (x ∷ y ∷ items) h = omega (arith, rounds-drop_last (y ∷ items) (omega arith))

abbrev pub ids : List Item → List String
ids items = map (λ item. item.id) items

ids-shorten_at :
    (k reduction : ℕ) (items : List Item) → ids (shorten_at k reduction items) ≡ ids items
unfolding shorten_at shorten
ids-shorten_at k reduction [] = refl
ids-shorten_at zero reduction (item ∷ items) = refl
ids-shorten_at (suc k) reduction (item ∷ items) =
    ap (λ l. item.id ∷ l) (ids-shorten_at k reduction items)

-- The ids after are those of a prefix of the items before.
abbrev pub IsPrefix : List Item → List Item → Type 0
IsPrefix after before = (rest : List String) × (ids before ≡ ids after ++ rest)

IsPrefix-trans : (a b c : List Item) → IsPrefix a b → IsPrefix b c → IsPrefix a c
IsPrefix-trans a b c (r, e) (q, f) = (r ++ q, f ∙ ap (λ l. l ++ q) e ∙ append_assoc (ids a) r q)

drop_last-IsPrefix : (items : List Item) → IsPrefix (drop_last items) items
drop_last-IsPrefix [] = ([], refl)
drop_last-IsPrefix (x ∷ []) = (x.id ∷ [], refl)
drop_last-IsPrefix (x ∷ y ∷ items) =
    let (rest, e) = drop_last-IsPrefix (y ∷ items) in (rest, ap (λ l. x.id ∷ l) e)

module _ (pack_size : List Item → ℕ) (target : ℕ) where
  trim_step-less :
      (kept : List Item)
      → 1 ≤ length kept
      → target < pack_size kept
      → rounds (trim_step pack_size target kept) < rounds kept
  unfolding trim_step Shortens
  trim_step-less kept some_left over = elim (Option-cases (longest 0 kept)) [
    | inl all_short ↦ rw (all_short, trim_step) (rounds-drop_last kept some_left)
    | inr (found, e) ↦
        let (k, at, s) = longest-Shortens 0 kept found.0 found.1 e in
        let r =
          max 32 (min (found.0 - minimum_excerpt_chars) ((pack_size kept - target) * 4 + 16)) in
        let place : k ≡ found.1 = omega arith in
        let less : rounds (shorten_at k r kept) < rounds kept =
          s.2 r (omega arith) (omega (arith, s.0)) in
        rw (e, trim_step) (subst (λ i. rounds (shorten_at i r kept) < rounds kept) place less)
  ]

  too_large→over :
      (kept : List Item)
      → too_large pack_size target kept ≡ true
      → (1 ≤ length kept) × (target < pack_size kept)
  too_large→over [] h = cc
  too_large→over (x ∷ kept) h = (omega arith, ground arith)

  trim_loop-fits :
      (fuel : ℕ) (kept : List Item)
      → rounds kept ≤ fuel
      → too_large pack_size target (trim_loop pack_size fuel target kept) ≡ false
  unfolding trim_loop
  trim_loop-fits zero [] f = refl
  trim_loop-fits zero (x ∷ kept) f = absurd (unfold rounds in omega arith)
  trim_loop-fits (suc fuel) kept f = elim (Bool-cases (too_large pack_size target kept)) [
    | inr fits ↦ rw (fits, trim_loop) fits
    | inl over ↦
        let (some_left, large) = too_large→over kept over in
        rw (over, trim_loop)
          (trim_loop-fits fuel (trim_step pack_size target kept)
            (omega (arith, trim_step-less kept some_left large)))
  ]

  trim_step-IsPrefix : (kept : List Item) → IsPrefix (trim_step pack_size target kept) kept
  unfolding trim_step
  trim_step-IsPrefix kept = elim (Option-cases (longest 0 kept)) [
    | inl all_short ↦ rw (all_short, trim_step) (drop_last-IsPrefix kept)
    | inr (found, e) ↦ rw (e, trim_step) ([], sym (append-nil _ ∙ ids-shorten_at found.1 _ kept))
  ]

  trim_loop-IsPrefix :
      (fuel : ℕ) (kept : List Item) → IsPrefix (trim_loop pack_size fuel target kept) kept
  unfolding trim_loop
  trim_loop-IsPrefix zero kept = ([], sym (append-nil (ids kept)))
  trim_loop-IsPrefix (suc fuel) kept = elim (Bool-cases (too_large pack_size target kept)) [
    | inr fits ↦ rw (fits, trim_loop) ([], sym (append-nil (ids kept)))
    | inl over ↦
        rw (over, trim_loop)
          (IsPrefix-trans _ _ _ (trim_loop-IsPrefix fuel (trim_step pack_size target kept))
            (trim_step-IsPrefix kept))
  ]

  fitting :
      (kept : List Item)
      → too_large pack_size target kept ≡ false
      → (kept ≡ []) ⊎ (pack_size kept ≤ target)
  fitting [] h = inl refl
  fitting (x ∷ kept) h = inr (ground arith)

-- Whatever the size of a pack is, trimming ends with no item at all or with a pack of at most the budget
-- less the reserve, and its items have the ids of a prefix of the evidence, in the same order.
pub trim_evidence_for_final_pack-fits :
    (pack_size : List Item → ℕ) (evidence : List Item) (budget reserve : ℕ)
    → ((trim_evidence_for_final_pack pack_size evidence budget reserve ≡ [])
        ⊎ (pack_size (trim_evidence_for_final_pack pack_size evidence budget reserve)
            ≤ budget - reserve))
      × IsPrefix (trim_evidence_for_final_pack pack_size evidence budget reserve) evidence
unfolding trim_evidence_for_final_pack
trim_evidence_for_final_pack-fits pack_size evidence budget reserve = (
  fitting pack_size (budget - reserve) _
      (trim_loop-fits pack_size (budget - reserve) (rounds evidence) evidence (omega arith)),
  trim_loop-IsPrefix pack_size (budget - reserve) (rounds evidence) evidence,
)
