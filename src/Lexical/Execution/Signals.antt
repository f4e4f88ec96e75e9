-- ===== src/Lexical/Execution/Signals.antt =====
-- What the strategies of the lexical worker read and count: `log_signal_score`, `code_signal_score`,
-- `semantic_overlap_score` and the patterns. Scores are in hundredths: every score of the source is a sum of such
-- numbers, so that rounding to three decimals changes none. What the command-line tools and the regular
-- expressions find in a chunk is an argument, `Findings`.
use local_ai_broker.Prelude.{
  ℕ, ◌+◌, String, Bool, List, [], ◌∷◌, ◌++◌, ◌||◌, str_eq, contains, when, if◌then◌else◌,
}
use local_ai_broker.Prelude.Search.{occurs}
use local_ai_broker.Lexical.{Chunk}

-- What the tools and the patterns find: the line numbers of `rg_hits`, the names of the tags, `detect_symbol`,
-- the path in lower case without empty parts, and the three searches by a regular expression.
pub record Findings : Type 0 where
  pub rg_hits : List ℕ
  pub tags : List String
  pub symbol : String
  pub parts : List String
  pub has_definition : Bool
  pub has_test_word : Bool
  pub has_trace_word : Bool

pub record Executed : Type 0 where
  pub score : ℕ
  pub reasons : List String
  pub backend_mode : String
  pub backend_detail : String

-- `task_type`, `query_terms` and the parameter `suspect_paths`.
pub record Task : Type 0 where
  pub task_type : String
  pub query_terms : List String
  pub suspect_paths : List String

abbrev pub unsupported : String → Executed
unsupported detail = record {
  score = 0;
  reasons = [];
  backend_mode = "unavailable";
  backend_detail = detail;
}

-- As often a score as there are items that pass a test.
unfoldable pub tally_if : (String → Bool) → ℕ → List String → ℕ
tally_if test score [] = 0
tally_if test score (x ∷ xs) = (if test x then score else 0) + tally_if test score xs

unfoldable pub repeat_if : (String → Bool) → String → List String → List String
repeat_if test reason [] = []
repeat_if test reason (x ∷ xs) = when (test x) reason ++ repeat_if test reason xs

abbrev pub error_patterns : List (String × String)
error_patterns =
    ("fatal error", "build_error")
    ∷ ("undefined reference", "linker_error")
    ∷ ("exception", "runtime_exception")
    ∷ ("traceback", "runtime_exception")
    ∷ ("failed", "test_failure")
    ∷ ("error", "generic_error")
    ∷ []

abbrev pub code_patterns : List (String × String)
code_patterns =
    ("func ", "function")
    ∷ ("def ", "function")
    ∷ ("class ", "class")
    ∷ ("type ", "type")
    ∷ ("interface ", "interface")
    ∷ []

-- The score of the patterns in a text.
unfoldable pub pattern_score : ℕ → List (String × String) → String → ℕ
pattern_score score [] text = 0
pattern_score score ((needle, kind) ∷ patterns) text =
    (if occurs needle text then score else 0) + pattern_score score patterns text

unfoldable pub log_signal_score : Findings → String → ℕ
unfolding pattern_score
log_signal_score found text =
    pattern_score 250 error_patterns text + (if found.has_test_word then 200 else 0)

unfoldable pub code_signal_score : String → ℕ
unfolding pattern_score
code_signal_score text =
    pattern_score 150 code_patterns text
    + (if occurs "todo" text || occurs "fixme" text then 50 else 0)

unfoldable pub semantic_overlap_score : String → List String → ℕ
unfolding tally_if
semantic_overlap_score text query_terms = tally_if (λ term. occurs term text) 60 query_terms

abbrev pub in_code : Chunk → Bool
in_code chunk = contains chunk.input_type ("repo" ∷ "file" ∷ [])

abbrev pub is_log : Chunk → Bool
is_log chunk = str_eq chunk.input_type "log"
