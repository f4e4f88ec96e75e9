-- ===== src/Selection.antt =====
-- The choice of evidence chunks: `_candidate_budget` and `select_diverse_chunks` of
-- workers/rag-compression/inspection_pipeline.py.
mod Passes
pub mod Diversity
pub mod Coverage
use local_ai_broker.Prelude.{
  ℕ, zero, suc, ◌+◌, ◌/◌, String, Bool, true, false, Option, none, some, List, [], ◌∷◌, ◌++◌, ◌||◌,
  ◌&&◌, not, ltb, leb, if◌then◌else◌, contains, str_eq, length, take, max, min, member,
}

-- The fields of a chunk that the selection and the evidence read.
pub record Chunk : Type 0 where
  pub chunk_id : String
  pub source_namespace : String
  pub content_hash : String
  pub path : String
  pub language : String
  pub symbol : String
  pub input_id : String
  pub line_start : ℕ
  pub line_end : ℕ
  pub content : String
  pub token_estimate : ℕ

-- An item of a ranking; `rank` is 0 where the item has none.
pub record Ranked : Type 0 where
  pub chunk_id : String
  pub rank : ℕ

-- `chunk_by_id.get`
abbrev pub ChunkMap : Type 0
ChunkMap = String → Option Chunk

-- `_candidate_budget`: the kept items and the tokens used.
module _ (chunk_by_id : ChunkMap) (token_budget : ℕ) where
  budget_scan : List Ranked → List Ranked → ℕ → List Ranked × ℕ
  budget_scan [] selected used = (selected, used)
  budget_scan (item ∷ items) selected used = elim (chunk_by_id item.chunk_id) [
    | none ↦ budget_scan items selected used
    | some chunk ↦
        let projected = used + chunk.token_estimate in
        elim (ltb 0 (length selected) && ltb token_budget projected) [
          | true ↦ budget_scan items selected used
          | false ↦ budget_scan items (selected ++ item ∷ []) projected
        ]
  ]

  unfoldable pub candidate_budget : List Ranked → List Ranked × ℕ
  unfolding budget_scan
  candidate_budget fused = budget_scan (take 64 fused) [] 0

-- The variables of `select_diverse_chunks`; the sets are lists in the order of insertion.
pub record Selection : Type 0 where
  pub selected : List Ranked
  pub selected_ids : List String
  pub content_hashes : List (String × String)
  pub path_counts : String → ℕ
  pub used : ℕ

abbrev pub start : Selection
start = record {
  selected = [];
  selected_ids = [];
  content_hashes = [];
  path_counts = λ path. 0;
  used = 0;
}

abbrev pub content_key : Chunk → String × String
content_key chunk = (chunk.source_namespace, chunk.content_hash)

abbrev pub same_key : String × String → String × String → Bool
same_key a b = str_eq a.0 b.0 && str_eq a.1 b.1

module _ (chunk_by_id : ChunkMap) (named_paths : List String)
    (evidence_token_budget limit : ℕ) where
  unfoldable pub per_chunk_budget : ℕ
  per_chunk_budget = max 64 (evidence_token_budget / max 1 limit)

  -- The four `continue`s of the inner loop, for a chunk that was found.
  unfoldable pub skips : Bool → Chunk → Selection → Bool
  unfolding per_chunk_budget
  skips diversity_pass chunk s =
      let named = contains chunk.path named_paths in
      let count = s.path_counts chunk.path in
      let projected = s.used + min chunk.token_estimate per_chunk_budget in
      (contains chunk.chunk_id s.selected_ids
        || member same_key (content_key chunk) s.content_hashes)
      || (diversity_pass && ltb 0 count && not named)
      || (not named && leb 2 count)
      || (ltb 0 (length s.selected) && ltb evidence_token_budget projected)

  unfoldable pub add : Ranked → Chunk → Selection → Selection
  unfolding per_chunk_budget
  add item chunk s = record {
    selected = s.selected ++ record { chunk_id = chunk.chunk_id; rank = item.rank } ∷ [];
    selected_ids = s.selected_ids ++ chunk.chunk_id ∷ [];
    content_hashes = s.content_hashes ++ content_key chunk ∷ [];
    path_counts =
        λ path. if str_eq path chunk.path then s.path_counts path + 1 else s.path_counts path;
    used = s.used + min chunk.token_estimate per_chunk_budget;
  }

  -- The body of the inner loop: `none` for a `continue`.
  unfoldable pub visit : Bool → Ranked → Selection → Option Selection
  visit diversity_pass item s = elim (chunk_by_id item.chunk_id) [
    | none ↦ none
    | some chunk ↦ if skips diversity_pass chunk s then none else some (add item chunk s)
  ]

  -- One pass over the ranking, and whether it returned from the function at the limit.
  unfoldable pub scan : Bool → List Ranked → Selection → Selection × Bool
  scan diversity_pass [] s = (s, false)
  scan diversity_pass (item ∷ items) s = elim (visit diversity_pass item s) [
    | none ↦ scan diversity_pass items s
    | some next ↦ elim (leb limit (length next.selected)) [
      | true ↦ (next, true)
      | false ↦ scan diversity_pass items next
    ]
  ]

  unfoldable pub select_diverse_chunks : List Ranked → Selection
  select_diverse_chunks ranked =
      let (first, returned) = scan true ranked start in
      elim returned [ true ↦ first | false ↦ (scan false ranked first).0 ]
