-- ===== src/Evidence.antt =====
-- The budgets of the released evidence: `trim_evidence_for_final_pack` of
-- workers/rag-compression/inspection_pipeline.py and `enforce_final_pack_budget` of
-- workers/rag-compression/main.py. The size of a pack, which the source estimates from its JSON text, is a
-- parameter; of an item only the id and the excerpt are kept, which is what trimming reads and writes.
pub mod Trim
pub mod Pack
use Prim.Native.String
use local_ai_broker.Prelude.{
  ℕ, zero, suc, ◌+◌, ◌-◌, ◌*◌, String, Bool, true, false, Option, none, some, List, [], ◌∷◌, ◌&&◌,
  leb, ltb, ◌==◌, if◌then◌else◌, min, max, length, drop_last,
}
use local_ai_broker.Prelude.Text.{rstrip, text_length, text_take}

pub record Item : Type 0 where
  pub id : String
  pub excerpt : String

abbrev pub minimum_excerpt_chars : ℕ
minimum_excerpt_chars = 96

-- `max(reducible)`: the longest excerpt above the minimum, and its index, the last of them on a tie.
unfoldable pub longest : ℕ → List Item → Option (ℕ × ℕ)
longest index [] = none
longest index (item ∷ items) =
    let rest = longest (index + 1) items in
    let size = text_length item.excerpt in
    if ltb minimum_excerpt_chars size
    then elim rest [
      | none ↦ some (size, index)
      | some (other, at) ↦ if ltb other size then some (size, index) else some (other, at)
    ]
    else rest

-- The excerpt cut by a number of characters, with the dots.
unfoldable pub shorten : ℕ → Item → Item
unfolding rstrip
shorten reduction item = record {
  id = item.id;
  excerpt =
      String.◌++◌ (rstrip (text_take (text_length item.excerpt - reduction) item.excerpt)) "...";
}

unfoldable pub shorten_at : ℕ → ℕ → List Item → List Item
shorten_at index reduction [] = []
shorten_at zero reduction (item ∷ items) = shorten reduction item ∷ items
shorten_at (suc index) reduction (item ∷ items) = item ∷ shorten_at index reduction items

-- A round takes characters from an excerpt or drops an item, so this bounds the rounds.
unfoldable pub rounds : List Item → ℕ
rounds [] = 0
rounds (item ∷ items) = suc (text_length item.excerpt) + rounds items

module _ (pack_size : List Item → ℕ) where
  -- The body of the `while` loop.
  unfoldable pub trim_step : ℕ → List Item → List Item
  trim_step target kept = elim (longest 0 kept) [
    | none ↦ drop_last kept
    | some (current_length, index) ↦
        let excess_tokens = pack_size kept - target in
        shorten_at index
          (max 32 (min (current_length - minimum_excerpt_chars) (excess_tokens * 4 + 16))) kept
  ]

  -- `kept and pack_size(kept) > target`
  abbrev pub too_large : ℕ → List Item → Bool
  too_large target [] = false
  too_large target (item ∷ items) = ltb target (pack_size (item ∷ items))

  unfoldable pub trim_loop : ℕ → ℕ → List Item → List Item
  trim_loop zero target kept = kept
  trim_loop (suc fuel) target kept =
      let rest = trim_loop fuel target (trim_step target kept) in
      if too_large target kept then rest else kept

  unfoldable pub trim_evidence_for_final_pack : List Item → ℕ → ℕ → List Item
  trim_evidence_for_final_pack evidence final_pack_token_budget synthesis_reserve =
      trim_loop (rounds evidence) (final_pack_token_budget - synthesis_reserve) evidence

-- What `enforce_final_pack_budget` returns of its state; the warning is there where a count is trimmed.
pub record PackState (E : Type 0) : Type 0 where
  pub kept : List E
  pub trimmed_evidence_count : ℕ
  pub budget_ok : Bool

module _ {E : Type 0} (estimate : List E → ℕ) where
  -- `while len(kept) > 1 and … > budget_limit: kept.pop()`, with the number of items as fuel.
  unfoldable pub pop_loop : ℕ → ℕ → List E → List E
  pop_loop zero budget_limit kept = kept
  pop_loop (suc fuel) budget_limit kept =
      let rest = pop_loop fuel budget_limit (drop_last kept) in
      if ltb 1 (length kept) && ltb budget_limit (estimate kept) then rest else kept

  -- A limit of 0 stands for every limit that is not positive.
  unfoldable pub enforce_final_pack_budget : List E → ℕ → PackState E
  unfolding pop_loop
  enforce_final_pack_budget evidence budget_limit =
      if budget_limit == 0
      then record { kept = evidence; trimmed_evidence_count = 0; budget_ok = true }
      else let kept = pop_loop (length evidence) budget_limit evidence in
        record {
          kept = kept;
          trimmed_evidence_count = length evidence - length kept;
          budget_ok = leb (estimate kept) budget_limit;
        }
