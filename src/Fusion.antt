-- ===== src/Fusion.antt =====
-- The fusion of rankings: `reciprocal_rank_fusion` of workers/rag-compression/inspection_pipeline.py. The scores are
-- of any type `F`, with the test `a < b`, the sum, and `share rank` for `1.0 / (k + rank)`; the two
-- dictionaries of the source, which have the same keys, are one list in the order of the first insertion.
pub mod Table
pub mod Covers
pub mod Fused
use local_ai_broker.Prelude.{
  ℕ, zero, suc, max, String, Bool, true, false, not, Option, none, some, List, [], ◌∷◌, ◌++◌,
  str_eq, contains, take, sort_by, if◌then◌else◌, ◌||◌, ◌&&◌,
}
use local_ai_broker.Prelude.Int.{ℤ, pos, negsuc}
use local_ai_broker.Prelude.Text.{is_empty}
use local_ai_broker.Prelude.TextOrder.{str_lt}

-- An item of a ranking, with the rank that it holds, where it holds one.
pub record RankedItem : Type 0 where
  pub chunk_id : String
  pub rank : Option ℤ
  pub source : String

-- `max(1, int(item.get("rank") or default_rank))`
abbrev pub rank_of : Option ℤ → ℕ → ℕ
rank_of none default_rank = max 1 default_rank
rank_of (some (pos zero)) default_rank = max 1 default_rank
rank_of (some (pos (suc n))) default_rank = suc n
rank_of (some (negsuc n)) default_rank = 1

pub record Entry (F : Type 0) : Type 0 where
  pub chunk_id : String
  pub score : F
  pub sources : List String

pub record FusedItem (F : Type 0) : Type 0 where
  pub chunk_id : String
  pub rrf_score : F
  pub sources : List String
  pub rank : ℕ

abbrev pub add_source : String → List String → List String
add_source source sources =
    if is_empty source || contains source sources then sources else sources ++ source ∷ []

module _ {F : Type 0} (less : F → F → Bool) (add : F → F → F) (nothing : F) (share : ℕ → F) where
  -- `scores[chunk_id] += ...` and the new source.
  unfoldable pub put : String → F → String → List (Entry F) → List (Entry F)
  put chunk_id more source [] =
      record { chunk_id = chunk_id; score = add nothing more; sources = add_source source [] } ∷ []
  put chunk_id more source (e ∷ es) =
      let rest = put chunk_id more source es in
      if str_eq e.chunk_id chunk_id
      then record e { score = add e.score more; sources = add_source source e.sources } ∷ es
      else e ∷ rest

  -- One ranking, from a default rank.
  unfoldable pub fuse_ranking : ℕ → List String → List RankedItem → List (Entry F) → List (Entry F)
  fuse_ranking default_rank seen [] table = table
  fuse_ranking default_rank seen (item ∷ items) table =
      let passed = fuse_ranking (suc default_rank) seen items table in
      let added =
        fuse_ranking (suc default_rank) (item.chunk_id ∷ seen) items
          (put item.chunk_id (share (rank_of item.rank default_rank)) item.source table) in
      if is_empty item.chunk_id || contains item.chunk_id seen then passed else added

  unfoldable pub fuse_rankings : List (List RankedItem) → List (Entry F) → List (Entry F)
  fuse_rankings [] table = table
  fuse_rankings (ranking ∷ rankings) table =
      fuse_rankings rankings (fuse_ranking 1 [] ranking table)

  -- `key=lambda chunk_id: (-scores[chunk_id], chunk_id)`
  abbrev pub fuses_before : Entry F → Entry F → Bool
  fuses_before a b =
      less b.score a.score || (not (less a.score b.score) && str_lt a.chunk_id b.chunk_id)

  abbrev pub fused_items : (F → F) → ℕ → List (Entry F) → List (FusedItem F)
  fused_items rounded rank [] = []
  fused_items rounded rank (e ∷ es) =
      record {
        chunk_id = e.chunk_id;
        rrf_score = rounded e.score;
        sources = e.sources;
        rank = rank;
      }
      ∷ fused_items rounded (suc rank) es

  -- `ordered`, and what is returned of it.
  unfoldable pub ordered : List (List RankedItem) → ℕ → List (Entry F)
  ordered rankings limit = take limit (sort_by fuses_before (fuse_rankings rankings []))

  unfoldable pub reciprocal_rank_fusion : (F → F) → List (List RankedItem) → ℕ → List (FusedItem F)
  reciprocal_rank_fusion rounded rankings limit = fused_items rounded 1 (ordered rankings limit)
