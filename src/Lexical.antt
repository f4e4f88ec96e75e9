-- ===== src/Lexical.antt =====
-- The lexical worker, workers/rag-compression/main.py: the chunks of its inputs, the plan and the execution of a
-- retrieval, reranking, selection, evidence and the warnings that a result carries. This file has the
-- chunks, with `make_chunk`, `estimate_tokens` and `unique_preserving_order`.
mod Unique
pub mod Blocks
pub mod Planning
pub mod Execution
pub mod Merging
pub mod Picking
pub mod Pack
pub mod Run
pub mod Guidance
use local_ai_broker.Prelude.{ℕ, ◌/◌, max, String, Bool, List, [], ◌∷◌, contains, if◌then◌else◌}
use local_ai_broker.Prelude.Text.{decimal, text_length, text_take}
use Prim.Native.String.{◌++◌ as str_append}

-- An item of `discovered`, an input of the job, less its files.
pub record Input : Type 0 where
  pub id : String
  pub type : String
  pub classification : String

pub record Chunk : Type 0 where
  pub chunk_id : String
  pub chunk_hash : String
  pub input_id : String
  pub input_type : String
  pub classification : String
  pub path : String
  pub line_start : ℕ
  pub line_end : ℕ
  pub content : String
  pub token_estimate : ℕ

unfoldable pub estimate_tokens : String → ℕ
unfolding text_length
estimate_tokens text = max 1 (text_length text / 4)

-- With `sha256_text` as `hash`.
unfoldable pub make_chunk : (String → String) → Input → String → String → ℕ → ℕ → Chunk
make_chunk hash item rel_path content line_start line_end = record {
  chunk_id =
      str_append "chunk_"
        (str_append (text_take 12 (hash content)) (str_append "_" (decimal line_start)));
  chunk_hash = str_append "sha256:" (hash content);
  input_id = item.id;
  input_type = item.type;
  classification = item.classification;
  path = rel_path;
  line_start = line_start;
  line_end = line_end;
  content = content;
  token_estimate = estimate_tokens content;
}

-- `unique_preserving_order`, behind the items that were seen.
unfoldable pub unique_from : List String → List String → List String
unique_from seen [] = []
unique_from seen (x ∷ xs) =
    let kept = unique_from (x ∷ seen) xs in
    let passed = unique_from seen xs in if contains x seen then passed else x ∷ kept

unfoldable pub unique_preserving_order : List String → List String
unfolding unique_from
unique_preserving_order items = unique_from [] items
