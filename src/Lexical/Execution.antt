-- ===== src/Lexical/Execution.antt =====
-- The dictionary of the strategies, `build_strategy_executors` of workers/rag-compression/main.py.
pub mod Signals
pub mod Executors
use local_ai_broker.Prelude.{
  ℕ, ◌+◌, ◌*◌, min, String, Bool, List, [], ◌∷◌, ◌++◌, ◌||◌, ◌&&◌, not, str_eq, contains, when,
  length, ltb, leb, ◌==◌, if◌then◌else◌, Option, none, some,
}
use local_ai_broker.Prelude.Text.{is_empty, lower}
use local_ai_broker.Prelude.Search.{occurs}
use local_ai_broker.Lexical.{Chunk, unique_preserving_order}
use local_ai_broker.Lexical.Execution.Signals.{Findings, Executed, Task}
use local_ai_broker.Lexical.Execution.Executors.{
  bm25_executor, repo_structure_executor, ripgrep_executor, tree_sitter_executor,
  stack_trace_path_executor, git_diff_history_executor, embeddings_executor,
  artifact_context_executor,
}

-- The dictionary of `build_strategy_executors`.
pub data Strategy : Type 0 where
  repo_structure bm25 ripgrep tree_sitter stack_trace_path git_diff_history embeddings
        artifact_context :
      Strategy

unfoldable pub strategy_of : String → Option Strategy
strategy_of name =
    if str_eq name "repo_structure"
    then some repo_structure
    else if str_eq name "bm25"
    then some bm25
    else if str_eq name "ripgrep"
    then some ripgrep
    else if str_eq name "tree_sitter"
    then some tree_sitter
    else if str_eq name "stack_trace_path"
    then some stack_trace_path
    else if str_eq name "git_diff_history"
    then some git_diff_history
    else if str_eq name "embeddings"
    then some embeddings
    else if str_eq name "artifact_context"
    then some artifact_context
    else none

unfoldable pub execute : Strategy → Findings → Chunk → Task → Executed
execute repo_structure found chunk task = repo_structure_executor found chunk task
execute bm25 found chunk task = bm25_executor found chunk task
execute ripgrep found chunk task = ripgrep_executor found chunk task
execute tree_sitter found chunk task = tree_sitter_executor found chunk task
execute stack_trace_path found chunk task = stack_trace_path_executor found chunk task
execute git_diff_history found chunk task = git_diff_history_executor chunk task
execute embeddings found chunk task = embeddings_executor chunk task
execute artifact_context found chunk task = artifact_context_executor chunk
