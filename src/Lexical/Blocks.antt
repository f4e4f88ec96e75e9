-- ===== src/Lexical/Blocks.antt =====
-- The chunks of the inputs: `chunk_text_file` and `chunk_repo`, in blocks of as many lines, and
-- `build_chunk_manifest`.
pub mod Tiles
use local_ai_broker.Prelude.{
  ℕ, zero, suc, ◌+◌, min, String, Bool, true, false, not, List, [], ◌∷◌, ◌++◌, ◌||◌, ◌&&◌, length,
  take, drop, ltb, str_eq, contains, any, if◌then◌else◌, map,
}
use local_ai_broker.Chunking.{join_lines}
use local_ai_broker.RepoSummary.{Tally, tally, most_common}
use local_ai_broker.Lexical.{Input, Chunk, make_chunk}

-- `for idx in range(0, len(lines), size)`, by the rounds that are left, with the last line of a block.
module _ (hash : String → String) (item : Input) (rel : String) (size : ℕ)
    (line_end : ℕ → List String → ℕ) where
  unfoldable pub block_loop : ℕ → ℕ → List String → List Chunk
  block_loop zero idx lines = []
  block_loop (suc rounds) idx lines =
      let block = take size (drop idx lines) in
      let later = block_loop rounds (idx + size) lines in
      if ltb idx (length lines)
      then make_chunk hash item rel (join_lines block) (idx + 1) (line_end idx block) ∷ later
      else []

-- `chunk_text_file`, for the name of the path and the lines of the content. A block has a line, so the
-- lines bound the rounds.
unfoldable pub chunk_text_file : (String → String) → Input → String → List String → List Chunk
unfolding block_loop
chunk_text_file hash item name lines =
    let size = if str_eq item.type "log" then 80 else 40 in
    block_loop hash item name size (λ idx block. min (idx + size) (length lines)) (length lines) 0
      lines

-- A path of the walk through a repository: from the root, its parts, its suffix in lower case, its name
-- and the lines of its text.
pub record RepoPath : Type 0 where
  pub rel : String
  pub parts : List String
  pub suffix : String
  pub name : String
  pub is_dir : Bool
  pub lines : List String

abbrev pub text_extensions : List String
text_extensions =
    ".c" ∷ ".cc" ∷ ".cpp" ∷ ".cs" ∷ ".go" ∷ ".h" ∷ ".hpp" ∷ ".java" ∷ ".js" ∷ ".json" ∷ ".md"
    ∷ ".py" ∷ ".rb" ∷ ".rs" ∷ ".sh" ∷ ".sql" ∷ ".toml" ∷ ".ts" ∷ ".tsx" ∷ ".txt" ∷ ".xml" ∷ ".yaml"
    ∷ ".yml" ∷ []

abbrev pub hits_excluded : List String → List String → Bool
hits_excluded excluded parts = any (λ part. contains part excluded) parts

-- The two `continue`s of the walk.
abbrev pub is_chunked : List String → RepoPath → Bool
is_chunked excluded path =
    not (path.is_dir || hits_excluded excluded path.parts)
    && (contains path.suffix text_extensions || str_eq path.name "go.mod")

unfoldable pub chunk_repo : (String → String) → Input → List String → List RepoPath → List Chunk
unfolding block_loop
chunk_repo hash item excluded [] = []
chunk_repo hash item excluded (path ∷ paths) =
    let later = chunk_repo hash item excluded paths in
    if is_chunked excluded path
    then block_loop hash item path.rel 40 (λ idx block. idx + length block) (length path.lines) 0
        path.lines
      ++ later
    else later

-- What an input has: nothing, the paths of a repository, or the name and the lines of a file.
pub data Content : Type 0 where
  no_path : Content
  repo : List RepoPath → Content
  file : String → List String → Content

unfoldable pub chunk_inputs : (String → String) → List String → List (Input × Content) → List Chunk
chunk_inputs hash excluded [] = []
chunk_inputs hash excluded ((item, no_path) ∷ discovered) = chunk_inputs hash excluded discovered
chunk_inputs hash excluded ((item, repo paths) ∷ discovered) =
    chunk_repo hash item excluded paths ++ chunk_inputs hash excluded discovered
chunk_inputs hash excluded ((item, file name lines) ∷ discovered) =
    chunk_text_file hash item name lines ++ chunk_inputs hash excluded discovered

pub record ChunkManifest : Type 0 where
  pub chunk_count : ℕ
  pub token_estimate : ℕ
  pub path_count : ℕ
  pub paths : List String
  pub path_chunk_counts : List Tally
  pub input_type_counts : List Tally

unfoldable pub total_tokens : List Chunk → ℕ
total_tokens [] = 0
total_tokens (c ∷ cs) = c.token_estimate + total_tokens cs

-- The first 64 paths; `seen_paths` holds the same ones.
unfoldable pub paths_loop : List String → List Chunk → List String
paths_loop paths [] = paths
paths_loop paths (c ∷ cs) =
    paths_loop
      (if not (contains c.path paths) && ltb (length paths) 64 then paths ++ c.path ∷ [] else paths)
      cs

unfoldable pub build_chunk_manifest : List Chunk → ChunkManifest
unfolding total_tokens paths_loop
build_chunk_manifest chunks =
    let path_counts = tally (map (λ (c : Chunk). c.path) chunks) [] in
    record {
      chunk_count = length chunks;
      token_estimate = total_tokens chunks;
      path_count = length path_counts;
      paths = paths_loop [] chunks;
      path_chunk_counts = most_common 24 path_counts;
      input_type_counts = tally (map (λ (c : Chunk). c.input_type) chunks) [];
    }
