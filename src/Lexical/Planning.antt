-- ===== src/Lexical/Planning.antt =====
-- The plan of a retrieval: `normalize_strategy_names`, `default_strategies`, `available_strategies` and
-- `plan_retrieval`. What `shutil.which` and the look for grammars find are arguments.
pub mod Planned
use local_ai_broker.Prelude.{
  ℕ, String, Bool, not, List, [], ◌∷◌, ◌++◌, ◌||◌, ◌&&◌, str_eq, contains, keep, when, length, ◌==◌,
  sort_by, map, if◌then◌else◌,
}
use local_ai_broker.Prelude.Text.{is_empty, strip}
use local_ai_broker.Prelude.TextOrder.{str_lt}
use local_ai_broker.Service.{or_number}
use local_ai_broker.Lexical.{Input, unique_preserving_order}
use local_ai_broker.Lexical.Blocks.{ChunkManifest}

-- The names behind those that were seen, without the empty ones.
unfoldable pub names_loop : List String → List String → List String
names_loop seen [] = []
names_loop seen (item ∷ items) =
    let name = strip item in
    let passed = names_loop seen items in
    let kept = names_loop (name ∷ seen) items in
    if is_empty name || contains name seen then passed else name ∷ kept

-- The parameter `retrieval_strategies`: a list, or one text, which may be empty.
pub data Requested : Type 0 where
  names : List String → Requested
  name : String → Requested

unfoldable pub normalize_strategy_names : Requested → List String
unfolding names_loop
normalize_strategy_names (names items) = names_loop [] items
normalize_strategy_names (name item) = if is_empty item then [] else names_loop [] (item ∷ [])

unfoldable pub default_strategies : String → List String
default_strategies task_type =
    if str_eq task_type "summarize_logs"
    then "ripgrep" ∷ "bm25" ∷ []
    else if str_eq task_type "inspect_repo"
    then "repo_structure" ∷ "tree_sitter" ∷ "ripgrep" ∷ "bm25" ∷ []
    else if str_eq task_type "debug_with_local_context"
    then "stack_trace_path" ∷ "ripgrep" ∷ "git_diff_history" ∷ []
    else if str_eq task_type "propose_patch"
    then "tree_sitter" ∷ "git_diff_history" ∷ []
    else "ripgrep" ∷ "bm25" ∷ "tree_sitter" ∷ []

-- `ripgrep_available()` and `tree_sitter_available()`
pub record Tools : Type 0 where
  pub ripgrep : Bool
  pub tree_sitter : Bool

-- `strategies`, before the repetitions are dropped.
unfoldable pub found_strategies : Tools → String → List Input → List String
found_strategies tools task_type discovered =
    let input_types = map (λ (item : Input). item.type) discovered in
    let logs = contains "log" input_types in
    let code = contains "repo" input_types || contains "file" input_types in
    let debugs = str_eq task_type "debug_with_local_context" in
    when (logs && tools.ripgrep) "ripgrep"
    ++ when logs "bm25"
    ++ when (logs && debugs) "stack_trace_path"
    ++ when (code && str_eq task_type "inspect_repo") "repo_structure"
    ++ when (code && tools.ripgrep) "ripgrep"
    ++ when code "bm25"
    ++ when (code && tools.tree_sitter) "tree_sitter"
    ++ when (code && (debugs || str_eq task_type "propose_patch")) "git_diff_history"
    ++ when (contains "document" input_types) "embeddings"
    ++ when (contains "artifact" input_types) "artifact_context"

unfoldable pub available_strategies : Tools → String → List Input → List String
available_strategies tools task_type discovered =
    unique_preserving_order (found_strategies tools task_type discovered)

pub record RetrievalPlan : Type 0 where
  pub task_type : String
  pub requested_strategies : List String
  pub effective_strategies : List String
  pub skipped_strategies : List String
  pub available_strategies : List String
  pub input_classifications : List String
  pub input_types : List String
  pub path_count : ℕ
  pub chunk_count : ℕ
  pub retrieved_chunk_budget : ℕ

-- `a or b` on lists
abbrev pub or_list : List String → List String → List String
or_list [] ys = ys
or_list (x ∷ xs) ys = x ∷ xs

-- The budget of the constraints is 0 where it is missing.
unfoldable pub plan_retrieval :
    Tools → String → Requested → List Input → ChunkManifest → ℕ → RetrievalPlan
plan_retrieval tools task_type retrieval_strategies discovered chunk_manifest
      retrieved_chunk_budget =
    let requested = normalize_strategy_names retrieval_strategies in
    let planned = or_list requested (default_strategies task_type) in
    let available = available_strategies tools task_type discovered in
    let effective = keep (λ name. contains name available) planned in
    record {
      task_type = task_type;
      requested_strategies = requested;
      effective_strategies =
          or_list effective (keep (λ name. contains name available) (default_strategies task_type));
      skipped_strategies = keep (λ name. not (contains name available)) planned;
      available_strategies = available;
      input_classifications =
          sort_by str_lt
            (unique_preserving_order (map (λ (item : Input). item.classification) discovered));
      input_types =
          sort_by str_lt (unique_preserving_order (map (λ (item : Input). item.type) discovered));
      path_count = chunk_manifest.path_count;
      chunk_count = chunk_manifest.chunk_count;
      retrieved_chunk_budget = or_number retrieved_chunk_budget 64000;
    }
