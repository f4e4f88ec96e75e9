-- ===== src/Retrieval/Searched.antt =====
-- What a search returns.
use mathlib.Core.Path.{subst}
use local_ai_broker.Prelude.{
  All-take, ℕ, zero, suc, ◌≤◌, String, true, false, Option, none, some, List, [], ◌∷◌, str_eq,
  contains, distinct, length, length-take, take, map, All, ◌≡◌, refl, ap, inl, inr, Bool-cases,
  Option-cases, arith,
}
use local_ai_broker.Prelude.Distinct.{str_eq_comm, distinct-take}
use local_ai_broker.Prelude.Result.{ok, Result-cases, raise≢ok, ok-injective}
use local_ai_broker.Prelude.Text.{is_empty}
use local_ai_broker.Retrieval.{Hit, Found, Response, items_of, search_loop, semantic_search}

module _ {F : Type 0} where
  -- The ranks go up, from a first one.
  abbrev pub Ascends : ℕ → List (Found F) → Type 0
  Ascends first [] = Unit
  Ascends first (f ∷ fs) = (first ≤ f.rank) × Ascends (suc f.rank) fs

  abbrev pub ids_of : List (Found F) → List String
  ids_of found = map (λ (f : Found F). f.chunk_id) found

  Ascends-weaken : (i : ℕ) (fs : List (Found F)) → Ascends (suc i) fs → Ascends i fs
  Ascends-weaken i [] h = tt
  Ascends-weaken i (f ∷ fs) h = (omega (arith, h.0), h.1)

  Ascends-take : (i n : ℕ) (fs : List (Found F)) → Ascends i fs → Ascends i (take n fs)
  Ascends-take i zero fs h = tt
  Ascends-take i (suc n) [] h = tt
  Ascends-take i (suc n) (f ∷ fs) h = (h.0, Ascends-take (suc f.rank) n fs h.1)

  ids_of-take : (n : ℕ) (fs : List (Found F)) → ids_of (take n fs) ≡ take n (ids_of fs)
  ids_of-take zero fs = refl
  ids_of-take (suc n) [] = refl
  ids_of-take (suc n) (f ∷ fs) = ap (λ l. f.chunk_id ∷ l) (ids_of-take n fs)

unlike :
    (x y : String) (ys : List String)
    → contains x (y ∷ ys) ≡ false
    → (str_eq y x ≡ false) × (contains x ys ≡ false)
unlike x y ys h = (ground (arith, str_eq_comm x y), ground arith)

All-unlike :
    (y : String) (ys xs : List String)
    → All (λ x. contains x (y ∷ ys) ≡ false) xs
    → (contains y xs ≡ false) × All (λ x. contains x ys ≡ false) xs
All-unlike y ys [] h = (refl, tt)
All-unlike y ys (x ∷ xs) h =
    let (apart, rest) = All-unlike y ys xs h.1 in
    let (other, unseen) = unlike x y ys h.0 in (ground arith, (unseen, rest))

-- An id that was asked for.
abbrev pub Wanted : List String → String → Type 0
Wanted requested_ids id = (contains id requested_ids ≡ true) × (is_empty id ≡ false)

module _ {F : Type 0} (requested_ids : List String) where
  -- What is found, from an index and after some ids.
  abbrev pub Searched : ℕ → List String → List (Found F) → Type 0
  Searched index seen found =
      (distinct str_eq (ids_of found) ≡ true)
      × All (λ id. contains id seen ≡ false) (ids_of found)
      × All (Wanted requested_ids) (ids_of found)
      × Ascends index found

  Searched-cons :
      (index : ℕ) (seen : List String) (id : String) (score : F) (found : List (Found F))
      → is_empty id ≡ false
      → contains id requested_ids ≡ true
      → contains id seen ≡ false
      → Searched (suc index) (id ∷ seen) found
      → Searched index seen (record { chunk_id = id; score = score; rank = index } ∷ found)
  Searched-cons index seen id score found named asked new (different, unseen, all, up) =
      let (other, before) = All-unlike id seen (ids_of found) unseen in
      (ground arith, (new, before), ((asked, named), all), (omega arith, up))

  search_loop-Searched :
      (index : ℕ) (seen : List String) (items : List (Option (Hit F))) (found : List (Found F))
      → search_loop requested_ids index seen items ≡ ok found
      → Searched index seen found
  unfolding search_loop
  search_loop-Searched index seen [] found h =
      subst (Searched index seen) (ok-injective h) (refl, tt, tt, tt)
  search_loop-Searched index seen (none ∷ items) found h =
      let (different, unseen, all, up) = search_loop-Searched (suc index) seen items found h in
      (different, unseen, all, Ascends-weaken index found up)
  search_loop-Searched index seen (some hit ∷ items) found h =
      elim (Bool-cases (is_empty hit.chunk_id)) [
        | inl empty ↦
            let (different, unseen, all, up) =
              search_loop-Searched (suc index) seen items found (rw (empty, search_loop) at h) in
            (different, unseen, all, Ascends-weaken index found up)
        | inr named ↦ elim (Bool-cases (contains hit.chunk_id requested_ids)) [
          | inr unknown ↦ absurd (raise≢ok (rw (named, unknown, search_loop) at h))
          | inl asked ↦ elim (Bool-cases (contains hit.chunk_id seen)) [
            | inl old ↦ absurd (raise≢ok (rw (named, asked, old, search_loop) at h))
            | inr new ↦ elim (Option-cases hit.score) [
              | inl e ↦ absurd (raise≢ok (rw (named, asked, new, e, search_loop) at h))
              | inr (score, e) ↦
                  elim (Result-cases
                    (search_loop requested_ids (suc index) (hit.chunk_id ∷ seen) items)) [
                      | inr (error, k) ↦
                          absurd (raise≢ok (rw (named, asked, new, e, search_loop, k) at h))
                      | inl (ranked, k) ↦
                          subst (Searched index seen)
                            (ok-injective (rw (named, asked, new, e, search_loop, k) at h))
                            (Searched-cons index seen hit.chunk_id score ranked named asked new (
                              search_loop-Searched (suc index) (hit.chunk_id ∷ seen) items ranked
                                k))
                    ]
            ]
          ]
        ]
      ]

  -- A search that returns gives at most as many chunks as its limit, none twice, all of them chunks that were asked
  -- for, and their ranks, from 1, go up.
  pub semantic_search-Searched :
      (response : Response (Option (Hit F))) (limit : ℕ) (found : List (Found F))
      → semantic_search requested_ids response limit ≡ ok found
      → (length found ≤ limit)
        × (distinct str_eq (ids_of found) ≡ true)
        × All (Wanted requested_ids) (ids_of found)
        × Ascends 1 found
  unfolding semantic_search
  semantic_search-Searched response limit found h =
      elim (Result-cases (items_of "semantic search response is missing results" response)) [
        | inr (error, e) ↦ absurd (raise≢ok (rw (e, semantic_search) at h))
        | inl (items, e) ↦ elim (Result-cases (search_loop requested_ids 1 [] items)) [
          | inr (error, k) ↦ absurd (raise≢ok (rw (e, semantic_search, k) at h))
          | inl (ranked, k) ↦
              let (different, _, all, up) = search_loop-Searched 1 [] items ranked k in
              let same : take limit ranked ≡ found =
                ok-injective (rw (e, semantic_search, k) at h) in
              (
                omega (arith, ap length same, length-take limit ranked),
                subst (λ l. distinct str_eq (ids_of l) ≡ true) same
                    (rw (ids_of-take limit ranked)
                      (distinct-take str_eq limit (ids_of ranked) different)),
                subst (λ l. All (Wanted requested_ids) (ids_of l)) same
                    (rw (ids_of-take limit ranked)
                      (All-take (Wanted requested_ids) limit (ids_of ranked) all)),
                subst (Ascends 1) same (Ascends-take 1 limit ranked up),
              )
        ]
      ]
