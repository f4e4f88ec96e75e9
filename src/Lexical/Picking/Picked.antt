-- ===== src/Lexical/Picking/Picked.antt =====
-- What `select_chunks` selects.
use local_ai_broker.Prelude.{
  ℕ, zero, suc, ◌+◌, ◌≤◌, ◌<◌, ◌≡◌, ◌⊎◌, String, true, false, some, List, [], ◌∷◌, ◌++◌, ◌&&◌,
  str_eq, contains, distinct, length, take, get_elem?, map, ltb, leb, if◌then◌else◌, refl, sym, ap,
  ◌∙◌, arith, inl, inr, Bool-cases, length-append, length-map,
}
use local_ai_broker.Prelude.Distinct.{str_eq_comm, distinct-snoc}
use local_ai_broker.Service.{or_number}
use local_ai_broker.Lexical.Merging.{Retrieval}
use local_ai_broker.Lexical.Picking.{
  Reranked, Picking, pick, pick_loop, no_chunks, Selected, selected_of, select_chunks,
}
use mathlib.Core.Path.{subst}
use mathlib.Core.List.{append_assoc, append-nil, map-append}

abbrev pub hash_of : Reranked → String
hash_of r = r.candidate.chunk.chunk_hash

abbrev pub tokens_of : Reranked → ℕ
tokens_of r = r.candidate.chunk.token_estimate

-- Those whose hash is not seen, and none before them has.
abbrev pub firsts : List String → List Reranked → List Reranked
firsts seen [] = []
firsts seen (r ∷ rs) =
    if contains (hash_of r) seen then firsts seen rs else r ∷ firsts (seen ++ hash_of r ∷ []) rs

abbrev pub total : List Reranked → ℕ
total [] = 0
total (r ∷ rs) = tokens_of r + total rs

-- A selection of a ranking that took a number of its candidates.
pub record IsPicked (budget : ℕ) (seen : List String) (before : Picking) (rs : List Reranked)
    (q : Picking) : Type 0 where
  pub taken : ℕ
  pub first : q.selected ≡ before.selected ++ firsts seen (take taken rs)
  pub hashes : q.seen_hashes ≡ map hash_of q.selected
  pub used : q.used_budget + total before.selected ≡ before.used_budget + total q.selected
  pub counted :
      q.duplicate_count + length q.selected
      ≡ before.duplicate_count + length before.selected + taken
  pub once : distinct str_eq (map hash_of q.selected) ≡ true
  pub few : length q.selected ≤ 12
  pub fits : (q.used_budget ≤ budget) ⊎ (length q.selected ≤ 1)
  pub ended :
      (taken ≡ length rs)
      ⊎ ((length q.selected ≡ 12)
          ⊎ ((r : Reranked) × (get_elem? rs taken ≡ some r)
              × (budget < q.used_budget + tokens_of r)
              × (1 ≤ length q.selected)))

total-append : (rs qs : List Reranked) → total (rs ++ qs) ≡ total rs + total qs
total-append [] qs = omega arith
total-append (r ∷ rs) qs = omega (arith, total-append rs qs)

-- What a pick keeps of a selection.
module _ (budget : ℕ) (r : Reranked) (p : Picking) (h : p.seen_hashes ≡ map hash_of p.selected)
    (new : contains (hash_of r) p.seen_hashes ≡ false) where
  pick_hashes : (pick r p).seen_hashes ≡ map hash_of (pick r p).selected
  pick_hashes = ap (λ l. l ++ hash_of r ∷ []) h ∙ sym (map-append hash_of p.selected (r ∷ []))

  pick_once :
      distinct str_eq (map hash_of p.selected) ≡ true
      → distinct str_eq (map hash_of (pick r p).selected) ≡ true
  pick_once d =
      ap (distinct str_eq) (map-append hash_of p.selected (r ∷ []))
      ∙ distinct-snoc str_eq str_eq_comm (map hash_of p.selected) (hash_of r) d
          (ap (contains (hash_of r)) (sym h) ∙ new)

  pick_fits :
      (ltb 0 (length p.selected) && ltb budget (p.used_budget + tokens_of r)) ≡ false
      → ((pick r p).used_budget ≤ budget) ⊎ (length (pick r p).selected ≤ 1)
  pick_fits room = ground (arith, length-append p.selected (r ∷ []))

pick_loop-IsPicked :
    (budget : ℕ) (rs : List Reranked) (p : Picking)
    → p.seen_hashes ≡ map hash_of p.selected
    → distinct str_eq (map hash_of p.selected) ≡ true
    → length p.selected < 12
    → (p.used_budget ≤ budget) ⊎ (length p.selected ≤ 1)
    → IsPicked budget p.seen_hashes p rs (pick_loop budget rs p)
unfolding pick_loop
pick_loop-IsPicked budget [] p h d few fits = record {
  taken = 0;
  first = sym (append-nil p.selected);
  hashes = h;
  used = refl;
  counted = omega arith;
  once = d;
  few = omega arith;
  fits = fits;
  ended = inl refl;
}
pick_loop-IsPicked budget (r ∷ rs) p h d few fits =
    elim (Bool-cases (contains (hash_of r) p.seen_hashes)) [
      | inl old ↦
          let q =
            pick_loop-IsPicked budget rs (record p { duplicate_count = p.duplicate_count + 1 }) h d
              few fits in
          rw (old, pick_loop)
            (record {
              taken = suc q.taken;
              first = rw (old) q.first;
              hashes = q.hashes;
              used = q.used;
              counted = omega (arith, q.counted);
              once = q.once;
              few = q.few;
              fits = q.fits;
              ended = elim q.ended [
                | inl all ↦ inl (ap suc all)
                | inr (inl full) ↦ inr (inl full)
                | inr (inr next) ↦ inr (inr next)
              ];
            })
      | inr new ↦
          elim (Bool-cases
            (ltb 0 (length p.selected) && ltb budget (p.used_budget + tokens_of r))) [
              | inl over ↦
                  rw (new, over, pick_loop)
                    (record {
                      taken = 0;
                      first = sym (append-nil p.selected);
                      hashes = h;
                      used = refl;
                      counted = omega arith;
                      once = d;
                      few = omega arith;
                      fits = fits;
                      ended = inr (inr (r, refl, ground arith, ground arith));
                    })
              | inr room ↦
                  let hashes = pick_hashes budget r p h new in
                  let once = pick_once budget r p h new d in
                  let within = pick_fits budget r p h new room in
                  let longer = length-append p.selected (r ∷ []) in
                  let sum = total-append p.selected (r ∷ []) in
                  elim (Bool-cases (leb 12 (length (pick r p).selected))) [
                    | inl full ↦
                        rw (new, room, full, pick_loop)
                          (record {
                            taken = 1;
                            first = rw new refl;
                            hashes = hashes;
                            used = omega (arith, sum);
                            counted = omega (arith, longer);
                            once = once;
                            few = omega (arith, longer);
                            fits = within;
                            ended = inr (inl (ground (arith, longer)));
                          })
                    | inr more ↦
                        let q =
                          pick_loop-IsPicked budget rs (pick r p) hashes once (ground arith)
                            within in
                        rw (new, room, more, pick_loop)
                          (record {
                            taken = suc q.taken;
                            first = rw new (
                                q.first
                                ∙ append_assoc p.selected (r ∷ [])
                                    (firsts (pick r p).seen_hashes (take q.taken rs)));
                            hashes = q.hashes;
                            used = omega (arith, q.used, sum);
                            counted = omega (arith, q.counted, longer);
                            once = q.once;
                            few = q.few;
                            fits = q.fits;
                            ended = elim q.ended [
                              | inl all ↦ inl (ap suc all)
                              | inr (inl over) ↦ inr (inl over)
                              | inr (inr next) ↦ inr (inr next)
                            ];
                          })
                  ]
            ]
    ]

-- What a selection of a ranking is, with the statistics that come with it.
pub record IsSelection (relevance_of : ℕ → ℕ) (budget : ℕ) (reranked : List Reranked)
    (selected : List Selected) (retrieval : Retrieval) : Type 0 where
  pub taken : ℕ
  pub picked : List Reranked
  pub first : picked ≡ firsts [] (take taken reranked)
  pub selects : selected ≡ map (selected_of relevance_of) picked
  pub once : distinct str_eq (map hash_of picked) ≡ true
  pub few : length picked ≤ 12
  pub fits : (total picked ≤ budget) ⊎ (length picked ≤ 1)
  pub ended :
      (taken ≡ length reranked)
      ⊎ ((length picked ≡ 12)
          ⊎ ((r : Reranked) × (get_elem? reranked taken ≡ some r)
              × (budget < total picked + tokens_of r)
              × (1 ≤ length picked)))
  pub retrieved : retrieval.chunks_retrieved ≡ length picked
  pub tokens : retrieval.retrieved_chunk_tokens ≡ total picked
  pub deduplicated : retrieval.chunks_deduplicated + length picked ≡ taken

-- The selection takes a number of candidates from the front of the ranking and has the first of each content
-- hash, in order, at most twelve; it fits the budget or is one chunk; it stopped at the end, at twelve chunks,
-- or, with a chunk at least, at a candidate that would have gone over the budget; and the statistics count the selected
-- chunks, their tokens and the duplicates that were passed over.
pub select_chunks-IsSelection :
    (relevance_of : ℕ → ℕ) (reranked : List Reranked) (budget : ℕ) (retrieval : Retrieval)
    → IsSelection relevance_of
        (or_number budget 64000)
        reranked
        (select_chunks relevance_of reranked budget retrieval).0
        (select_chunks relevance_of reranked budget retrieval).1
unfolding select_chunks
select_chunks-IsSelection relevance_of reranked budget retrieval =
    let limit = or_number budget 64000 in
    let p = pick_loop limit reranked no_chunks in
    let q =
      pick_loop-IsPicked limit reranked no_chunks refl refl (omega arith) (inl (omega arith)) in
    let used : p.used_budget ≡ total p.selected = omega (arith, q.used) in
    record {
      taken = q.taken;
      picked = p.selected;
      first = q.first;
      selects = refl;
      once = q.once;
      few = q.few;
      fits = subst (λ n. (n ≤ limit) ⊎ (length p.selected ≤ 1)) used q.fits;
      ended = elim q.ended [
        | inl all ↦ inl all
        | inr (inl full) ↦ inr (inl full)
        | inr (inr (r, next, over, some_chunk)) ↦
            inr (inr (r, next, omega (arith, over, used), some_chunk))
      ];
      retrieved = refl;
      tokens = used;
      deduplicated = omega (arith, q.counted);
    }

-- Of a ranking that has a candidate, one is selected.
pub IsSelection-some :
    (relevance_of : ℕ → ℕ) (budget : ℕ) (reranked : List Reranked) (selected : List Selected)
    (retrieval : Retrieval)
    → IsSelection relevance_of budget reranked selected retrieval
    → 1 ≤ length reranked
    → 1 ≤ length selected
IsSelection-some relevance_of budget reranked selected retrieval s some_candidate =
    let size : length selected ≡ length s.picked =
      ap length s.selects ∙ length-map (selected_of relevance_of) s.picked in
    omega (arith, size, picks s.ended)
  where
    counted :
        (n : ℕ) (rs : List Reranked) → 1 ≤ n → 1 ≤ length rs → 1 ≤ length (firsts [] (take n rs))
    counted zero rs h k = absurd (omega arith)
    counted (suc n) [] h k = absurd (omega arith)
    counted (suc n) (r ∷ rs) h k = omega arith

    picks :
        (s.taken ≡ length reranked)
          ⊎ ((length s.picked ≡ 12)
              ⊎ ((r : Reranked) × (get_elem? reranked s.taken ≡ some r)
                  × (budget < total s.picked + tokens_of r)
                  × (1 ≤ length s.picked)))
        → 1 ≤ length s.picked
    picks (inl all) =
        omega (arith, ap length s.first, counted s.taken reranked (omega arith) some_candidate)
    picks (inr (inl full)) = omega arith
    picks (inr (inr (r, next, over, one))) = one
