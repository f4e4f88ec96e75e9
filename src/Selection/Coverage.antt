-- ===== src/Selection/Coverage.antt =====
-- How far `select_diverse_chunks` goes: never past its limit, and below the limit no ranked chunk is left
-- that the second pass could still take.
use mathlib.Core.Path.{subst}
use local_ai_broker.Prelude.{
  ℕ, ◌+◌, ◌≤◌, ◌<◌, String, ◌≡◌, refl, Bool, true, false, some, none, List, [], ◌∷◌, leb, length,
  arith, inl, inr, Option-cases, Bool-cases, All, contains, str_eq, eq_iff, member, max, leb→le,
  sym, length-append,
}
use local_ai_broker.Prelude.Distinct.{member-append}
use local_ai_broker.Selection.Passes.{scan-skipped, scan-added}
use local_ai_broker.Selection.{
  Chunk, Ranked, ChunkMap, Selection, start, skips, add, visit, scan, content_key, same_key,
  select_diverse_chunks,
}

-- What a later state of the loop keeps of an earlier one.
record Extends (s t : Selection) : Type 0 where
  ids : (id : String) → contains id s.selected_ids ≡ true → contains id t.selected_ids ≡ true
  hashes :
      (k : String × String)
      → member same_key k s.content_hashes ≡ true
      → member same_key k t.content_hashes ≡ true
  counts : (path : String) → s.path_counts path ≤ t.path_counts path
  used : s.used ≤ t.used
  items : length s.selected ≤ length t.selected

Extends-refl : (s : Selection) → Extends s s
Extends-refl s = record {
  ids = λ id h. h;
  hashes = λ k h. h;
  counts = λ path. omega arith;
  used = omega arith;
  items = omega arith;
}

Extends-trans : (s t u : Selection) → Extends s t → Extends t u → Extends s u
Extends-trans s t u a b = record {
  ids = λ id h. b.ids id (a.ids id h);
  hashes = λ k h. b.hashes k (a.hashes k h);
  counts = λ path. omega (arith, a.counts path, b.counts path);
  used = omega arith;
  items = omega arith;
}

module _ (chunk_by_id : ChunkMap) (named_paths : List String) (budget limit : ℕ) where
  add-Extends :
      (item : Ranked) (chunk : Chunk) (s : Selection)
      → Extends s (add chunk_by_id named_paths budget limit item chunk s)
  unfolding add
  add-Extends item chunk s = record {
    ids = λ id h. rw member-append (ground arith);
    hashes = λ k h. rw member-append (ground arith);
    counts = λ path. ground arith;
    used = omega arith;
    items = omega (
      arith,
      length-append s.selected (record { chunk_id = chunk.chunk_id; rank = item.rank } ∷ []),
    );
  }

  -- Once skipped by the second pass, always skipped.
  skips_mono :
      (chunk : Chunk) (s t : Selection)
      → Extends s t
      → skips chunk_by_id named_paths budget limit false chunk s ≡ true
      → skips chunk_by_id named_paths budget limit false chunk t ≡ true
  unfolding skips
  skips_mono chunk s t e h =
      ground (arith, e.ids chunk.chunk_id, e.hashes (content_key chunk), e.counts chunk.path)

  skips-add :
      (item : Ranked) (chunk : Chunk) (s : Selection)
      → skips chunk_by_id named_paths budget limit false chunk
          (add chunk_by_id named_paths budget limit item chunk s)
        ≡ true
  unfolding skips add
  skips-add item chunk s = ground (
    arith,
    member-append str_eq chunk.chunk_id s.selected_ids (chunk.chunk_id ∷ []),
    eq_iff chunk.chunk_id chunk.chunk_id,
  )

  visit-Extends :
      (pass : Bool) (item : Ranked) (s next : Selection)
      → visit chunk_by_id named_paths budget limit pass item s ≡ some next
      → Extends s next
  unfolding visit
  visit-Extends pass item s next e = grind (arith, add-Extends)

  scan-Extends :
      (pass : Bool) (items : List Ranked) (s : Selection)
      → Extends s (scan chunk_by_id named_paths budget limit pass items s).0
  scan-Extends pass [] s = unfold scan in Extends-refl s
  scan-Extends pass (item ∷ items) s =
      elim (Option-cases (visit chunk_by_id named_paths budget limit pass item s)) [
        | inl skipped ↦
            rw (scan-skipped chunk_by_id named_paths budget limit pass item items s skipped)
              (scan-Extends pass items s)
        | inr (next, added) ↦
            let e = visit-Extends pass item s next added in
            let step =
              scan-added chunk_by_id named_paths budget limit pass item items s next added in
            elim (Bool-cases (leb limit (length next.selected))) [
              | inl full ↦ rw step (rw full e)
              | inr room ↦
                  rw step (rw room (Extends-trans s next _ e (scan-Extends pass items next)))
            ]
      ]

  -- The item can no longer be taken by the second pass.
  abbrev pub IsSettled : Selection → Ranked → Type 0
  IsSettled s item =
      (chunk : Chunk)
      → chunk_by_id item.chunk_id ≡ some chunk
      → skips chunk_by_id named_paths budget limit false chunk s ≡ true

  IsSettled-mono :
      (s t : Selection) (item : Ranked) → Extends s t → IsSettled s item → IsSettled t item
  IsSettled-mono s t item e h = λ chunk found. skips_mono chunk s t e (h chunk found)

  visit-none-IsSettled :
      (item : Ranked) (s : Selection)
      → visit chunk_by_id named_paths budget limit false item s ≡ none
      → IsSettled s item
  unfolding visit
  visit-none-IsSettled item s e = λ chunk found. ground arith

  visit-some-IsSettled :
      (item : Ranked) (s next : Selection)
      → visit chunk_by_id named_paths budget limit false item s ≡ some next
      → IsSettled next item
  unfolding visit
  visit-some-IsSettled item s next e = λ chunk found. ground (arith, skips-add item chunk s)

  scan-IsSettled :
      (items : List Ranked) (s : Selection)
      → (scan chunk_by_id named_paths budget limit false items s).1 ≡ false
      → All (IsSettled (scan chunk_by_id named_paths budget limit false items s).0) items
  scan-IsSettled [] s e = tt
  scan-IsSettled (item ∷ items) s e =
      elim (Option-cases (visit chunk_by_id named_paths budget limit false item s)) [
        | inl skipped ↦
            let step =
              scan-skipped chunk_by_id named_paths budget limit false item items s skipped in
            subst AllSettled (sym step) (
              IsSettled-mono s _ item (scan-Extends false items s)
                  (visit-none-IsSettled item s skipped),
              scan-IsSettled items s (rw step at e),
            )
        | inr (next, added) ↦
            let step =
              scan-added chunk_by_id named_paths budget limit false item items s next added in
            elim (Bool-cases (leb limit (length next.selected))) [
              | inl full ↦ cc (rw (step, full) at e)
              | inr room ↦ subst AllSettled (sym (rw room at step)) (
                IsSettled-mono next _ item (scan-Extends false items next)
                    (visit-some-IsSettled item s next added),
                scan-IsSettled items next (rw (step, room) at e),
              )
            ]
      ]
    where
      AllSettled : Selection × Bool → Type 0
      AllSettled r = All (IsSettled r.0) (item ∷ items)

  -- A pass that returned has reached the limit; one that did not stays below it.
  record IsLimited (r : Selection × Bool) : Type 0 where
    at_most : length r.0.selected ≤ max 1 limit
    below : r.1 ≡ false → length r.0.selected < max 1 limit
    reached : r.1 ≡ true → limit ≤ length r.0.selected

  length-add :
      (item : Ranked) (chunk : Chunk) (s : Selection)
      → length (add chunk_by_id named_paths budget limit item chunk s).selected
        ≡ length s.selected + 1
  unfolding add
  length-add item chunk s = length-append s.selected _

  visit-length :
      (pass : Bool) (item : Ranked) (s next : Selection)
      → visit chunk_by_id named_paths budget limit pass item s ≡ some next
      → length next.selected ≡ length s.selected + 1
  unfolding visit
  visit-length pass item s next e = grind (arith, length-add)

  scan-IsLimited :
      (pass : Bool) (items : List Ranked) (s : Selection)
      → length s.selected < max 1 limit
      → IsLimited (scan chunk_by_id named_paths budget limit pass items s)
  scan-IsLimited pass [] s h =
      unfold scan in record { at_most = omega arith; below = λ e. h; reached = λ e. cc }
  scan-IsLimited pass (item ∷ items) s h =
      elim (Option-cases (visit chunk_by_id named_paths budget limit pass item s)) [
        | inl skipped ↦
            rw (scan-skipped chunk_by_id named_paths budget limit pass item items s skipped)
              (scan-IsLimited pass items s h)
        | inr (next, added) ↦
            let step =
              scan-added chunk_by_id named_paths budget limit pass item items s next added in
            let more = visit-length pass item s next added in
            elim (Bool-cases (leb limit (length next.selected))) [
              | inl full ↦ rw step (
                  rw full (record {
                    at_most = omega arith;
                    below = λ e. cc;
                    reached = λ e. leb→le _ _ full;
                  }))
              | inr room ↦ rw step (rw room (scan-IsLimited pass items next (ground (arith, more))))
            ]
      ]

  -- At most `limit` chunks are selected (one, if the limit is 0), and where fewer are, each ranked chunk
  -- that the map holds would be skipped by one more second pass over the final state.
  pub select_diverse_chunks-covers :
      (ranked : List Ranked)
      → (length (select_diverse_chunks chunk_by_id named_paths budget limit ranked).selected
          ≤ max 1 limit)
        × (length (select_diverse_chunks chunk_by_id named_paths budget limit ranked).selected
              < limit
            → All
                (IsSettled (select_diverse_chunks chunk_by_id named_paths budget limit ranked))
                ranked)
  unfolding select_diverse_chunks
  select_diverse_chunks-covers ranked =
      elim (Bool-cases (scan chunk_by_id named_paths budget limit true ranked start).1) [
        | inl returned ↦
            rw (returned, select_diverse_chunks)
              (first.at_most, λ few. absurd (omega (arith, first.reached returned)))
        | inr exhausted ↦
            let second = scan-IsLimited false ranked _ (first.below exhausted) in
            rw (exhausted, select_diverse_chunks)
              (second.at_most, λ few. scan-IsSettled ranked _ (not_returned (second.reached) few))
      ]
    where
      first : IsLimited (scan chunk_by_id named_paths budget limit true ranked start)
      first = scan-IsLimited true ranked start (omega arith)

      not_returned : {b : Bool} {n : ℕ} → (b ≡ true → limit ≤ n) → n < limit → b ≡ false
      not_returned {b = true} reached few = absurd (omega (arith, reached refl))
      not_returned {b = false} reached few = refl
