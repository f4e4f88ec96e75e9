-- ===== src/Lexical/Execution/Executors.antt =====
-- The strategies on one chunk: `bm25_executor` to `ripgrep_fallback_executor` of
-- workers/rag-compression/main.py.
use local_ai_broker.Prelude.{
  ℕ, ◌+◌, ◌*◌, min, String, Bool, List, [], ◌∷◌, ◌++◌, ◌||◌, ◌&&◌, not, str_eq, contains, when,
  length, ltb, leb, ◌==◌, if◌then◌else◌,
}
use local_ai_broker.Prelude.Text.{is_empty, lower}
use local_ai_broker.Prelude.Search.{occurs}
use local_ai_broker.Lexical.{Chunk, unique_preserving_order}
use local_ai_broker.Lexical.Execution.Signals.{
  Findings, Executed, Task, unsupported, tally_if, repeat_if, log_signal_score, code_signal_score,
  semantic_overlap_score, in_code, is_log,
}

unfoldable pub bm25_executor : Findings → Chunk → Task → Executed
unfolding tally_if repeat_if log_signal_score
bm25_executor found chunk task =
    let text = lower chunk.content in
    let logs =
      contains task.task_type ("summarize_logs" ∷ "debug_with_local_context" ∷ [])
      && is_log chunk in
    record {
      score =
          tally_if (λ term. occurs term text) 200 task.query_terms
          + (if logs then log_signal_score found text else 0);
      reasons = unique_preserving_order (
          repeat_if (λ term. occurs term text) "term_in_text" task.query_terms
          ++ when logs "log_signal");
      backend_mode = "real";
      backend_detail = "deterministic_bm25";
    }

abbrev pub important_dirs : List (String × ℕ)
important_dirs =
    ("cmd", 180)
    ∷ ("app", 160)
    ∷ ("apps", 160)
    ∷ ("broker", 200)
    ∷ ("config", 120)
    ∷ ("configs", 120)
    ∷ ("deploy", 120)
    ∷ ("internal", 180)
    ∷ ("pkg", 180)
    ∷ ("scripts", 100)
    ∷ ("src", 160)
    ∷ ("tests", 100)
    ∷ ("worker", 160)
    ∷ ("workers", 160)
    ∷ []

abbrev pub important_files : List (String × ℕ)
important_files =
    ("go.mod", 250)
    ∷ ("package.json", 220)
    ∷ ("pyproject.toml", 220)
    ∷ ("cargo.toml", 220)
    ∷ ("readme.md", 160)
    ∷ ("main.go", 220)
    ∷ ("main.py", 220)
    ∷ ("app.py", 200)
    ∷ ("server.go", 200)
    ∷ ("server.py", 200)
    ∷ ("index.ts", 180)
    ∷ ("index.js", 180)
    ∷ []

-- The score of a name in such a table; every one is above 0.
unfoldable pub weight : String → List (String × ℕ) → ℕ
weight name [] = 0
weight name ((key, score) ∷ table) = if str_eq key name then score else weight name table

-- The parts before the last one, and the last, or the path.
abbrev pub dir_score : List String → ℕ
dir_score [] = 0
dir_score (part ∷ []) = 0
dir_score (part ∷ next ∷ parts) = weight part important_dirs + dir_score (next ∷ parts)

abbrev pub last_part : String → List String → String
last_part path [] = path
last_part path (part ∷ parts) = last_part part parts

unfoldable pub repo_structure_executor : Findings → Chunk → Task → Executed
unfolding weight tally_if repeat_if
repo_structure_executor found chunk task =
    let path = lower chunk.path in
    let depth = length found.parts in
    let dirs = dir_score found.parts in
    let named = weight (last_part path found.parts) important_files in
    if not_supported then unsupported "input_type_not_supported" else record {
      score =
          100
          + (if leb depth 2 then 220 else if depth == 3 then 140 else 0)
          + dirs
          + named
          + (if chunk.line_start == 1 then 60 else 0)
          + (if found.has_definition then 60 else 0)
          + (if is_empty found.symbol then 0 else 80)
          + tally_if (λ term. occurs term path) 200 task.query_terms;
      reasons = unique_preserving_order (
          "repo_structure_scan" ∷ when (leb depth 2) "near_repo_root"
          ++ when (depth == 3) "shallow_repo_path"
          ++ when (ltb 0 dirs) "important_dir"
          ++ when (ltb 0 named) "important_file"
          ++ when (chunk.line_start == 1) "file_entry_chunk"
          ++ when found.has_definition "definition_chunk"
          ++ when (not (is_empty found.symbol)) "symbol_detected"
          ++ repeat_if (λ term. occurs term path) "query_path_overlap" task.query_terms);
      backend_mode = "real";
      backend_detail = "repo_structure_scan";
    }
  where
    not_supported : Bool
    not_supported = not (str_eq task.task_type "inspect_repo") || not (in_code chunk)

-- The reasons of the terms in a path, and of those in a log.
unfoldable pub scan_reasons : Bool → String → String → List String → List String
scan_reasons log path text [] = []
scan_reasons log path text (term ∷ terms) =
    when (occurs term path) "term_in_path"
    ++ when (occurs term text && log) "term_in_log_line"
    ++ scan_reasons log path text terms

unfoldable pub ripgrep_fallback_executor : Chunk → Task → Executed
unfolding tally_if scan_reasons
ripgrep_fallback_executor chunk task =
    let text = lower chunk.content in
    let path = lower chunk.path in
    record {
      score =
          tally_if (λ term. occurs term path) 300 task.query_terms
          + tally_if (λ term. occurs term text && is_log chunk) 150 task.query_terms;
      reasons = unique_preserving_order (scan_reasons (is_log chunk) path text task.query_terms);
      backend_mode = "fallback";
      backend_detail = "deterministic_path_scan";
    }

-- The score and the reasons of the hits, of which each one has `rg_match`.
unfoldable pub hit_score : Chunk → List ℕ → ℕ
hit_score chunk [] = 0
hit_score chunk (line ∷ hits) =
    250
    + (if leb chunk.line_start line && leb line chunk.line_end then 100 else 0)
    + hit_score chunk hits

unfoldable pub hit_reasons : Chunk → List ℕ → List String
hit_reasons chunk [] = []
hit_reasons chunk (line ∷ hits) =
    "rg_match" ∷ when (leb chunk.line_start line && leb line chunk.line_end) "rg_line_in_chunk"
    ++ hit_reasons chunk hits

unfoldable pub ripgrep_executor : Findings → Chunk → Task → Executed
unfolding hit_score hit_reasons ripgrep_fallback_executor
ripgrep_executor found chunk task =
    if length found.rg_hits == 0 then ripgrep_fallback_executor chunk task else record {
      score =
          hit_score chunk found.rg_hits
          + (if is_log chunk then min (length found.rg_hits) 3 * 50 else 0);
      reasons =
          unique_preserving_order
            (hit_reasons chunk found.rg_hits ++ when (is_log chunk) "rg_log_density");
      backend_mode = "real";
      backend_detail = "rg_cli";
    }

unfoldable pub tree_sitter_fallback_executor : Chunk → Executed
unfolding code_signal_score
tree_sitter_fallback_executor chunk =
    let score = code_signal_score (lower chunk.content) in
    record {
      score = score;
      reasons = when (ltb 0 score) "code_structure_signal";
      backend_mode = "fallback";
      backend_detail = "deterministic_code_structure";
    }

-- The score and the reasons of the tags, by their names.
unfoldable pub tag_score : List String → List String → ℕ
unfolding tally_if
tag_score query_terms [] = 0
tag_score query_terms (name ∷ tags) =
    200 + tally_if (λ term. occurs term (lower name)) 100 query_terms + tag_score query_terms tags

unfoldable pub tag_reasons : List String → List String → List String
unfolding repeat_if
tag_reasons query_terms [] = []
tag_reasons query_terms (name ∷ tags) =
    "tree_sitter_tag"
      ∷ repeat_if (λ term. occurs term (lower name)) "tree_sitter_name_match" query_terms
    ++ tag_reasons query_terms tags

unfoldable pub tree_sitter_executor : Findings → Chunk → Task → Executed
unfolding tag_score tag_reasons tree_sitter_fallback_executor
tree_sitter_executor found chunk task =
    if not_supported
    then unsupported "input_type_not_supported"
    else if length found.tags == 0
    then tree_sitter_fallback_executor chunk
    else record {
      score = tag_score task.query_terms found.tags;
      reasons = unique_preserving_order (tag_reasons task.query_terms found.tags);
      backend_mode = "real";
      backend_detail = "tree_sitter_cli_tags";
    }
  where
    not_supported : Bool
    not_supported =
        not (contains task.task_type ("inspect_repo" ∷ "rag_compress" ∷ "propose_patch" ∷ []))
        || not (in_code chunk)

unfoldable pub stack_trace_path_executor : Findings → Chunk → Task → Executed
unfolding tally_if repeat_if
stack_trace_path_executor found chunk task =
    let suspected : String → Bool = λ suspect. occurs (lower suspect) (lower chunk.path) in
    if not (str_eq task.task_type "debug_with_local_context")
    then unsupported "task_type_not_supported"
    else record {
      score = (if found.has_trace_word then 150 else 0) + tally_if suspected 200 task.suspect_paths;
      reasons =
          when found.has_trace_word "stack_trace_signal"
          ++ repeat_if suspected "suspect_path_match" task.suspect_paths;
      backend_mode = "heuristic";
      backend_detail = "deterministic_stack_trace";
    }

unfoldable pub git_diff_history_executor : Chunk → Task → Executed
git_diff_history_executor chunk task =
    let text = lower chunk.content in
    let marked =
      contains task.task_type ("debug_with_local_context" ∷ "propose_patch" ∷ [])
      && (occurs "fixme" text || occurs "todo" text) in
    record {
      score = if marked then 75 else 0;
      reasons = when marked "change_risk_marker";
      backend_mode = "heuristic";
      backend_detail = "deterministic_git_history";
    }

unfoldable pub embeddings_executor : Chunk → Task → Executed
unfolding semantic_overlap_score
embeddings_executor chunk task =
    let score = semantic_overlap_score (lower chunk.content) task.query_terms in
    if not (str_eq chunk.input_type "document")
    then unsupported "input_type_not_supported"
    else record {
      score = score;
      reasons = when (ltb 0 score) "semantic_overlap";
      backend_mode = "heuristic";
      backend_detail = "deterministic_embeddings";
    }

unfoldable pub artifact_context_executor : Chunk → Executed
artifact_context_executor chunk =
    if not (str_eq chunk.input_type "artifact")
    then unsupported "input_type_not_supported"
    else record {
      score = 100;
      reasons = "artifact_input" ∷ [];
      backend_mode = "heuristic";
      backend_detail = "artifact_metadata";
    }
