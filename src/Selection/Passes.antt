-- ===== src/Selection/Passes.antt =====
-- A proof rule for the two passes: what an addition keeps, the whole selection keeps.
use local_ai_broker.Prelude.{
  String, ℕ, ◌≡◌, Bool, true, false, some, none, List, if◌then◌else◌, [], ◌∷◌, leb, length, arith,
  inl, inr, Option-cases, Bool-cases,
}
use local_ai_broker.Selection.{
  Chunk, Ranked, ChunkMap, Selection, start, skips, add, visit, scan, select_diverse_chunks,
}

module _ (chunk_by_id : ChunkMap) (named_paths : List String) (budget limit : ℕ) where
  abbrev pub Keeps : (Selection → Type 0) → Type 0
  Keeps P =
      (pass : Bool) (item : Ranked) (chunk : Chunk) (s : Selection)
      → chunk_by_id item.chunk_id ≡ some chunk
      → skips chunk_by_id named_paths budget limit pass chunk s ≡ false
      → P s
      → P (add chunk_by_id named_paths budget limit item chunk s)

module _ (chunk_by_id : ChunkMap) (named_paths : List String) (budget limit : ℕ) (pass : Bool)
    (item : Ranked) (items : List Ranked) (s : Selection) where
  pub scan-skipped :
      visit chunk_by_id named_paths budget limit pass item s ≡ none
      → scan chunk_by_id named_paths budget limit pass (item ∷ items) s
        ≡ scan chunk_by_id named_paths budget limit pass items s
  unfolding scan
  scan-skipped skipped = rw (skipped, scan)

  pub scan-added :
      (next : Selection)
      → visit chunk_by_id named_paths budget limit pass item s ≡ some next
      → scan chunk_by_id named_paths budget limit pass (item ∷ items) s ≡ (
          if leb limit (length next.selected)
          then (next, true)
          else scan chunk_by_id named_paths budget limit pass items next)
  unfolding scan
  scan-added next added = rw (added, scan) (ground arith)

module _ (chunk_by_id : ChunkMap) (named_paths : List String) (budget limit : ℕ)
    (P : Selection → Type 0) (step : Keeps chunk_by_id named_paths budget limit P) where
  visit-keeps :
      (pass : Bool) (item : Ranked) (s : Selection) {next : Selection}
      → visit chunk_by_id named_paths budget limit pass item s ≡ some next
      → P s
      → P next
  unfolding visit
  visit-keeps pass item s e p = grind (arith, step)

  scan-keeps :
      (pass : Bool) (items : List Ranked) (s : Selection)
      → P s
      → P (scan chunk_by_id named_paths budget limit pass items s).0
  scan-keeps pass [] s p = unfold scan in p
  scan-keeps pass (item ∷ items) s p =
      elim (Option-cases (visit chunk_by_id named_paths budget limit pass item s)) [
        | inl skipped ↦
            rw (scan-skipped chunk_by_id named_paths budget limit pass item items s skipped)
              (scan-keeps pass items s p)
        | inr (next, added) ↦
            let q = visit-keeps pass item s added p in
            rw (scan-added chunk_by_id named_paths budget limit pass item items s next added)
              (either (leb limit (length next.selected)) _ _ q (scan-keeps pass items next q))
      ]
    where
      either : (b : Bool) (x y : Selection × Bool) → P x.0 → P y.0 → P (if b then x else y).0
      either true x y p q = p
      either false x y p q = q

  pub select-keeps :
      (ranked : List Ranked)
      → P start
      → P (select_diverse_chunks chunk_by_id named_paths budget limit ranked)
  unfolding select_diverse_chunks
  select-keeps ranked p =
      let q = scan-keeps true ranked start p in
      elim (Bool-cases (scan chunk_by_id named_paths budget limit true ranked start).1) [
        | inl returned ↦ rw (returned, select_diverse_chunks) q
        | inr exhausted ↦ rw (exhausted, select_diverse_chunks) (scan-keeps false ranked _ q)
      ]
