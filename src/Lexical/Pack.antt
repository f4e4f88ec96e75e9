-- ===== src/Lexical/Pack.antt =====
-- The evidence of a result: `truncate`, `compress_text`, `classify_chunk_kind`, `summarize_chunk`,
-- `build_evidence`, `estimate_evidence_pack_tokens`, `build_budget` and the findings that `derive_agent_findings` makes
-- of the evidence. What the model answers to a request to compress is an argument.
pub mod Preview
pub mod Cited
use local_ai_broker.Prelude.{
  ℕ, zero, suc, ◌+◌, ◌-◌, ◌/◌, max, String, Bool, true, false, List, [], ◌∷◌, ◌++◌, ◌||◌, ◌&&◌, not,
  str_eq, contains, leb, ltb, length, take, if◌then◌else◌,
}
use local_ai_broker.Prelude.Text.{
  lower, is_empty, is_space, strip, rstrip, text_length, text_take, decimal,
}
use local_ai_broker.Prelude.Search.{occurs}
use local_ai_broker.Service.{or_number}
use local_ai_broker.Lexical.{Chunk, estimate_tokens}
use local_ai_broker.Lexical.Execution.Signals.{error_patterns, code_patterns, is_log}
use local_ai_broker.Lexical.Picking.{Adapter, Selected}
use Prim.Native.String.{◌++◌ as str_append}

unfoldable pub truncate : String → ℕ → String
truncate text limit =
    let stripped = strip text in
    if leb (text_length stripped) limit
    then stripped
    else str_append (rstrip (text_take (limit - 3) stripped)) "..."

-- `text.split()`, with the word that is open.
unfoldable pub words_loop : String → String → List String
words_loop word String.[] = if is_empty word then [] else word ∷ []
words_loop word (String.◌∷◌ c s) =
    let closed = words_loop "" s in
    let open_word = words_loop (str_append word (String.◌∷◌ c String.[])) s in
    if is_space c then (if is_empty word then closed else word ∷ closed) else open_word

-- `" ".join(words)`
unfoldable pub join_words : List String → String
join_words [] = ""
join_words (w ∷ []) = w
join_words (w ∷ v ∷ ws) = str_append w (str_append " " (join_words (v ∷ ws)))

unfoldable pub compression_word_budget : ℕ → Adapter → ℕ
compression_word_budget budget adapter =
    if str_eq adapter.name "deterministic"
    then max 8 (budget / 8)
    else if str_eq adapter.name "llama.cpp"
    then max 10 (budget / 7)
    else if contains adapter.name ("vllm" ∷ "sglang" ∷ [])
    then max 12 (budget / 6)
    else max 8 (budget / 8)

-- The first words of a text.
unfoldable pub first_words : String → ℕ → Adapter → String
unfolding words_loop join_words compression_word_budget
first_words text budget adapter =
    truncate (join_words (take (compression_word_budget budget adapter) (words_loop "" text))) 220

unfoldable pub compress_text : (String → String) → String → ℕ → Adapter → String
unfolding first_words
compress_text compressed text budget adapter =
    if str_eq adapter.name "llama.cpp" && adapter.llm_available && not (is_empty (compressed text))
    then truncate (compressed text) 220
    else first_words text budget adapter

-- The kind of the first pattern in a text.
unfoldable pub first_kind : List (String × String) → String → String → String
first_kind [] text otherwise = otherwise
first_kind ((needle, kind) ∷ patterns) text otherwise =
    if occurs needle text then kind else first_kind patterns text otherwise

unfoldable pub classify_chunk_kind : Chunk → String
unfolding first_kind
classify_chunk_kind chunk =
    first_kind (error_patterns ++ code_patterns) (lower chunk.content)
      (if is_log chunk then "log_context" else "code_context")

abbrev pub error_kinds : List String
error_kinds =
    "build_error" ∷ "linker_error" ∷ "runtime_exception" ∷ "test_failure" ∷ "generic_error" ∷ []

-- A claim, with `first` the first line that is not white space, and `said` the kind with spaces.
unfoldable pub summarize_chunk : (String → String) → (String → String) → Chunk → String
summarize_chunk first said chunk =
    let kind = classify_chunk_kind chunk in
    let place = str_append chunk.path (
      str_append ":"
        (str_append (decimal chunk.line_start) (str_append "-" (decimal chunk.line_end)))) in
    if contains kind error_kinds
    then str_append place (
        str_append " contains "
          (str_append (said kind) (str_append " context: " (truncate (first chunk.content) 140))))
    else str_append place
        (str_append " is relevant " (str_append (said kind) " context for the query."))

pub record SourceRef : Type 0 where
  pub chunk_id : String
  pub path : String
  pub line_start : ℕ
  pub line_end : ℕ
  pub content_hash : String

-- The confidence is in hundredths; `redaction`, which is always the same, is left out.
pub record Evidence : Type 0 where
  pub id : String
  pub kind : String
  pub claim : String
  pub source_refs : List SourceRef
  pub relevance : ℕ
  pub confidence : ℕ
  pub excerpt_preview : String
  pub compression_backend : String

-- `f"ev_{idx:03d}"`
unfoldable pub evidence_id : ℕ → String
evidence_id idx =
    str_append "ev_"
      (str_append (if ltb idx 10 then "00" else if ltb idx 100 then "0" else "") (decimal idx))

abbrev pub ref_of : Chunk → SourceRef
ref_of chunk = record {
  chunk_id = chunk.chunk_id;
  path = chunk.path;
  line_start = chunk.line_start;
  line_end = chunk.line_end;
  content_hash = chunk.chunk_hash;
}

module _ (compressed first said : String → String) (adapter : Adapter) (budget_per_item : ℕ) where
  unfoldable pub evidence_loop : ℕ → List Selected → List Evidence
  evidence_loop idx [] = []
  evidence_loop idx (s ∷ ss) =
      record {
        id = evidence_id idx;
        kind = classify_chunk_kind s.chunk;
        claim = summarize_chunk first said s.chunk;
        source_refs = ref_of s.chunk ∷ [];
        relevance = s.relevance;
        confidence = if leb 50 s.relevance then 82 else 64;
        excerpt_preview = compress_text compressed s.chunk.content budget_per_item adapter;
        compression_backend = adapter.name;
      }
      ∷ evidence_loop (suc idx) ss

unfoldable pub build_evidence :
    (compressed first said : String → String) → Adapter → ℕ → List Selected → List Evidence
unfolding evidence_loop
build_evidence compressed first said adapter per_chunk_compression_budget selected_chunks =
    evidence_loop compressed first said adapter (or_number per_chunk_compression_budget 384) 1
      selected_chunks

unfoldable pub estimate_evidence_pack_tokens : List Evidence → ℕ
estimate_evidence_pack_tokens [] = 0
estimate_evidence_pack_tokens (e ∷ es) =
    estimate_tokens e.claim + estimate_tokens e.excerpt_preview + estimate_evidence_pack_tokens es

pub record Budget : Type 0 where
  pub retrieved_chunk_tokens : ℕ
  pub compressed_tokens : ℕ
  pub final_pack_tokens : ℕ
  pub remote_context_budget : ℕ

unfoldable pub claim_tokens : List Evidence → ℕ
claim_tokens [] = 0
claim_tokens (e ∷ es) = estimate_tokens e.claim + claim_tokens es

unfoldable pub excerpt_tokens : List Evidence → ℕ
excerpt_tokens [] = 0
excerpt_tokens (e ∷ es) = estimate_tokens e.excerpt_preview + excerpt_tokens es

unfoldable pub build_budget : ℕ → List Evidence → ℕ → Budget
unfolding claim_tokens excerpt_tokens
build_budget retrieved_chunk_tokens evidence remote_model_context_budget = record {
  retrieved_chunk_tokens = retrieved_chunk_tokens;
  compressed_tokens = claim_tokens evidence;
  final_pack_tokens = claim_tokens evidence + excerpt_tokens evidence;
  remote_context_budget = remote_model_context_budget;
}
