-- ===== src/Retrieval/Scored.antt =====
-- What a rerank returns.
use mathlib.Core.Path.{subst}
use mathlib.Core.Option.{none-ne-some, some-injective}
use local_ai_broker.Prelude.{
  ℕ, String, zero, suc, ◌<◌, Option, none, some, List, [], ◌∷◌, length, get_elem?, if◌then◌else◌,
  ◌==◌, ◌≡◌, refl, sym, ap, ◌∙◌, inl, inr, Option-cases, arith,
}
use local_ai_broker.Prelude.Int.{ℤ, pos, negsuc}
use local_ai_broker.Prelude.Result.{ok, Result-cases, raise≢ok, ok-injective}
use local_ai_broker.Retrieval.{
  Response, Listed, falsy, other, listed, or_listed, items_of, service_failure, set_score,
  score_loop, unscored, every_score, rerank,
}

listed_of :
    {A : Type 0} (message : String) (l : Listed A) (items : List A)
    → (elim l [
      | listed is ↦ ok is
      | falsy ↦ service_failure message
      | other ↦ service_failure message
    ])
      ≡ ok items
    → l ≡ listed items
listed_of message falsy items h = absurd (raise≢ok h)
listed_of message other items h = absurd (raise≢ok h)
listed_of message (listed is) items h = ap listed (ok-injective h)

items_of-listed :
    {A : Type 0} (message : String) (response : Response A) (items : List A)
    → items_of message response ≡ ok items
    → or_listed response.results response.response_data ≡ listed items
unfolding items_of
items_of-listed message response items h =
    listed_of message (or_listed response.results response.response_data) items h

length-unscored : (F : Type 0) (n : ℕ) → length (unscored {F = F} n) ≡ n
length-unscored F zero = refl
length-unscored F (suc n) = ap suc (length-unscored F n)

module _ {F : Type 0} where
  -- The last score that a response gives a document.
  abbrev pub or_before : Option F → Option F → Option F
  or_before none before = before
  or_before (some later) before = some later

  abbrev pub score_here : ℕ → Option (ℤ × F) → Option F
  score_here i none = none
  score_here i (some (negsuc n, score)) = none
  score_here i (some (pos j, score)) = if j == i then some score else none

  abbrev pub last_score : List (Option (ℤ × F)) → ℕ → Option F
  last_score [] i = none
  last_score (item ∷ items) i = or_before (last_score items i) (score_here i item)

  -- `scores[i]`, inside the list.
  abbrev score_at : List (Option F) → ℕ → Option F
  score_at [] i = none
  score_at (s ∷ scores) zero = s
  score_at (s ∷ scores) (suc i) = score_at scores i

  or_before-none : (o : Option F) → or_before o none ≡ o
  or_before-none none = refl
  or_before-none (some s) = refl

  length-set_score :
      (i : ℕ) (score : F) (scores : List (Option F))
      → length (set_score i score scores) ≡ length scores
  length-set_score i score [] = refl
  length-set_score zero score (s ∷ scores) = refl
  length-set_score (suc i) score (s ∷ scores) = ap suc (length-set_score i score scores)

  score_at-set_score :
      (j i : ℕ) (score : F) (scores : List (Option F))
      → i < length scores
      → score_at (set_score j score scores) i ≡ (if j == i then some score else score_at scores i)
  score_at-set_score j i score [] h = absurd (omega (arith, h))
  score_at-set_score zero zero score (s ∷ scores) h = ground arith
  score_at-set_score zero (suc i) score (s ∷ scores) h = ground arith
  score_at-set_score (suc j) zero score (s ∷ scores) h = ground arith
  score_at-set_score (suc j) (suc i) score (s ∷ scores) h =
      score_at-set_score j i score scores (omega (arith, h)) ∙ ground arith

  length-score_loop :
      (items : List (Option (ℤ × F))) (scores : List (Option F))
      → length (score_loop items scores) ≡ length scores
  unfolding score_loop
  length-score_loop [] scores = refl
  length-score_loop (none ∷ items) scores = length-score_loop items scores
  length-score_loop (some (pos i, score) ∷ items) scores =
      length-score_loop items (set_score i score scores) ∙ length-set_score i score scores
  length-score_loop (some (negsuc n, score) ∷ items) scores = length-score_loop items scores

  score_at-score_loop :
      (items : List (Option (ℤ × F))) (scores : List (Option F)) (i : ℕ)
      → i < length scores
      → score_at (score_loop items scores) i ≡ or_before (last_score items i) (score_at scores i)
  unfolding score_loop
  score_at-score_loop [] scores i h = refl
  score_at-score_loop (none ∷ items) scores i h =
      score_at-score_loop items scores i h
      ∙ ap (λ o. or_before o (score_at scores i)) (sym (or_before-none (last_score items i)))
  score_at-score_loop (some (pos j, score) ∷ items) scores i h =
      score_at-score_loop items (set_score j score scores) i
        (omega (arith, h, length-set_score j score scores))
      ∙ ap (or_before (last_score items i)) (score_at-set_score j i score scores h)
      ∙ set_or (last_score items i) (score_at scores i)
    where
      set_or :
          (o before : Option F)
          → or_before o (if j == i then some score else before)
            ≡ or_before (or_before o (if j == i then some score else none)) before
      set_or none before = ground arith
      set_or (some later) before = refl
  score_at-score_loop (some (negsuc n, score) ∷ items) scores i h =
      score_at-score_loop items scores i h
      ∙ ap (λ o. or_before o (score_at scores i)) (sym (or_before-none (last_score items i)))

  score_at-unscored : (n i : ℕ) → score_at (unscored n) i ≡ none
  score_at-unscored zero i = refl
  score_at-unscored (suc n) zero = refl
  score_at-unscored (suc n) (suc i) = score_at-unscored n i

  every_score-get :
      (scores : List (Option F)) (all : List F)
      → every_score scores ≡ some all
      → (length all ≡ length scores) × ((i : ℕ) → get_elem? all i ≡ score_at scores i)
  unfolding every_score
  every_score-get [] all h =
      subst (λ l. (length l ≡ 0) × ((i : ℕ) → get_elem? l i ≡ none)) (some-injective [] all h)
        (refl, λ i. refl)
  every_score-get (none ∷ scores) all h = absurd (none-ne-some all h)
  every_score-get (some score ∷ scores) all h = elim (Option-cases (every_score scores)) [
    | inl e ↦ absurd (none-ne-some all (rw (e, every_score) at h))
    | inr (rest, e) ↦
        let (same_length, same) = every_score-get scores rest e in
        subst
          (λ l.
            (length l ≡ suc (length scores))
            × ((i : ℕ) → get_elem? l i ≡ score_at (some score ∷ scores) i))
          (some-injective (score ∷ rest) all (rw (e, every_score) at h))
          (ap suc same_length, scored score rest same)
  ]
    where
      scored :
          (score : F) (rest : List F)
          → ((i : ℕ) → get_elem? rest i ≡ score_at scores i)
          → (i : ℕ) → get_elem? (score ∷ rest) i ≡ score_at (some score ∷ scores) i
      scored score rest same zero = refl
      scored score rest same (suc i) = same i

  scored_of :
      (o : Option (List F)) (scores : List F)
      → (elim o [
        | some all ↦ ok all
        | none ↦ service_failure "rerank response does not score every candidate"
      ])
        ≡ ok scores
      → o ≡ some scores
  scored_of none scores h = absurd (raise≢ok h)
  scored_of (some all) scores h = ap some (ok-injective h)

  -- A rerank that returns gives a score to each document, and it is the last one that the items of the response
  -- have for it.
  pub rerank-scores :
      (response : Response (Option (ℤ × F))) (documents : ℕ) (scores : List F)
      → rerank response documents ≡ ok scores
      → (length scores ≡ documents)
        × (items : List (Option (ℤ × F))) × (or_listed response.results response.response_data
            ≡ listed items)
        × ((i : ℕ) → i < documents → get_elem? scores i ≡ last_score items i)
  unfolding rerank
  rerank-scores response documents scores h =
      elim (Result-cases (items_of "rerank response is missing results" response)) [
        | inr (error, e) ↦ absurd (raise≢ok (rw (e, rerank) at h))
        | inl (items, e) ↦
            let made = score_loop items (unscored documents) in
            let complete = scored_of (every_score made) scores (rw (e, rerank) at h) in
            let (same_length, same) = every_score-get made scores complete in
            (
              same_length
                  ∙ length-score_loop items (unscored documents)
                  ∙ length-unscored F documents,
              items,
              items_of-listed "rerank response is missing results" response items e,
              λ i inside.
                  same i
                  ∙ score_at-score_loop items (unscored documents) i
                      (omega (arith, inside, length-unscored F documents))
                  ∙ ap (or_before (last_score items i)) (score_at-unscored documents i)
                  ∙ or_before-none (last_score items i),
            )
      ]
