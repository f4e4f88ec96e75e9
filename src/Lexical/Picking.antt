-- ===== src/Lexical/Picking.antt =====
-- Reranking and selection: `rerank_candidates`, `runtime_rerank_adjustment`, `apply_runtime_rerank`, the reading of
-- the answer in `llama_cpp_rerank_ids`, `select_chunks` and `build_rerank_result` of
-- workers/rag-compression/main.py. What the model answers is an argument, and so is the rounding of `relevance`.
pub mod Picked
pub mod Reordered
use local_ai_broker.Prelude.{
  ℕ, zero, suc, ◌+◌, ◌-◌, ◌*◌, String, Bool, true, false, not, Option, none, some, List, [], ◌∷◌,
  ◌++◌, ◌||◌, ◌&&◌, str_eq, contains, any, ltb, leb, length, take, map, sort_by, ◌==◌,
  if◌then◌else◌,
}
use local_ai_broker.Prelude.Text.{lower, is_empty, strip}
use local_ai_broker.Prelude.Search.{occurs}
use local_ai_broker.Service.{or_number}
use local_ai_broker.Lexical.{Chunk}
use local_ai_broker.Lexical.Execution.Signals.{
  Findings, Task, semantic_overlap_score, in_code, is_log,
}
use local_ai_broker.Lexical.Merging.{Candidate, id_of, Retrieval}

pub record Reranked : Type 0 where
  pub candidate : Candidate
  pub rerank_score : ℕ
  pub rerank_backend : String

-- The adapter of the runtime, with `llm_available`.
pub record Adapter : Type 0 where
  pub name : String
  pub backend_mode : String
  pub backend_detail : String
  pub llm_available : Bool

abbrev pub reranked_id : Reranked → String
reranked_id r = id_of r.candidate

unfoldable pub runtime_rerank_adjustment : Adapter → Chunk → Task → ℕ
runtime_rerank_adjustment adapter chunk task =
    if str_eq adapter.name "deterministic"
    then 0
    else 15
      + (if contains task.task_type ("inspect_repo" ∷ "propose_patch" ∷ "rag_compress" ∷ [])
            && in_code chunk
          then 20
          else 0)
      + (if contains task.task_type ("debug_with_local_context" ∷ "summarize_logs" ∷ [])
            && is_log chunk
          then 20
          else 0)
      + (if ltb 0 (semantic_overlap_score (lower chunk.content) task.query_terms) then 15 else 0)

-- One candidate at its place.
unfoldable pub rerank_one : (Chunk → Findings) → Adapter → Task → ℕ → Candidate → Reranked
unfolding runtime_rerank_adjustment
rerank_one found adapter task idx c = record {
  candidate = c;
  rerank_score =
      c.score
      + (if ltb idx 3 then 40 else 0)
      + (if any (λ term. not (is_empty term) && occurs term (lower c.chunk.path)) task.query_terms
          then 80
          else 0)
      + (if str_eq task.task_type "debug_with_local_context" && (found c.chunk).has_trace_word
          then 50
          else 0)
      + runtime_rerank_adjustment adapter c.chunk task;
  rerank_backend = adapter.name;
}

unfoldable pub rerank_loop :
    (Chunk → Findings) → Adapter → Task → ℕ → List Candidate → List Reranked
rerank_loop found adapter task idx [] = []
rerank_loop found adapter task idx (c ∷ cs) =
    rerank_one found adapter task idx c ∷ rerank_loop found adapter task (suc idx) cs

-- The valid ids of an answer, each once; `none` where it has no list.
unfoldable pub ids_loop : List String → List String → List String → List String
ids_loop valid seen [] = []
ids_loop valid seen (item ∷ items) =
    let chunk_id = strip item in
    let passed = ids_loop valid seen items in
    let kept = ids_loop valid (chunk_id ∷ seen) items in
    if is_empty chunk_id || (not (contains chunk_id valid) || contains chunk_id seen)
    then passed
    else chunk_id ∷ kept

unfoldable pub llama_cpp_rerank_ids : Option (List String) → List Reranked → List String
unfolding ids_loop
llama_cpp_rerank_ids none top = []
llama_cpp_rerank_ids (some answer) top = ids_loop (map reranked_id top) [] answer

-- `rank_map.get(chunk_id)`
unfoldable pub rank_in : String → ℕ → List String → Option ℕ
rank_in chunk_id index [] = none
rank_in chunk_id index (x ∷ xs) =
    if str_eq x chunk_id then some index else rank_in chunk_id (suc index) xs

-- There are at most eight ids, so what is added is never less than 0.3.
unfoldable pub adjust : List String → Reranked → Reranked
adjust ordered_ids r = elim (rank_in (reranked_id r) 0 ordered_ids) [
  | none ↦ r
  | some rank ↦ record r {
    rerank_score = r.rerank_score + 100 - rank * 10;
    rerank_backend = "llama.cpp_api";
  }
]

unfoldable pub apply_runtime_rerank :
    Adapter → (List Reranked → Option (List String)) → List Reranked → List Reranked
unfolding adjust llama_cpp_rerank_ids
apply_runtime_rerank adapter ask reranked =
    let top = take 8 reranked in
    let ordered_ids = llama_cpp_rerank_ids (ask top) top in
    if not (str_eq adapter.name "llama.cpp" && adapter.llm_available)
      || ltb (length top) 2
      || length ordered_ids == 0
    then reranked
    else map (adjust ordered_ids) reranked

abbrev pub reranks_higher : Reranked → Reranked → Bool
reranks_higher a b = ltb b.rerank_score a.rerank_score

unfoldable pub rerank_candidates :
    (Chunk → Findings)
    → Adapter
    → (List Reranked → Option (List String))
    → Task
    → List Candidate
    → List Reranked
unfolding rerank_loop apply_runtime_rerank
rerank_candidates found adapter ask task candidates =
    sort_by reranks_higher
      (apply_runtime_rerank adapter ask (rerank_loop found adapter task 0 candidates))

-- The variables of `select_chunks`: `seen_hashes` are those of the selected ones.
pub record Picking : Type 0 where
  pub selected : List Reranked
  pub used_budget : ℕ
  pub seen_hashes : List String
  pub duplicate_count : ℕ

abbrev pub no_chunks : Picking
no_chunks = record { selected = []; used_budget = 0; seen_hashes = []; duplicate_count = 0 }

abbrev pub pick : Reranked → Picking → Picking
pick r p = record p {
  selected = p.selected ++ r ∷ [];
  used_budget = p.used_budget + r.candidate.chunk.token_estimate;
  seen_hashes = p.seen_hashes ++ r.candidate.chunk.chunk_hash ∷ [];
}

unfoldable pub pick_loop : ℕ → List Reranked → Picking → Picking
pick_loop budget [] p = p
pick_loop budget (r ∷ rs) p =
    let duplicate = pick_loop budget rs (record p { duplicate_count = p.duplicate_count + 1 }) in
    let picked = pick r p in
    let later = pick_loop budget rs picked in
    if contains r.candidate.chunk.chunk_hash p.seen_hashes
    then duplicate
    else if ltb 0 (length p.selected)
        && ltb budget (p.used_budget + r.candidate.chunk.token_estimate)
    then p
    else if leb 12 (length picked.selected)
    then picked
    else later

-- A selected chunk with its relevance.
pub record Selected : Type 0 where
  pub chunk : Chunk
  pub rerank_score : ℕ
  pub relevance : ℕ

abbrev pub selected_of : (ℕ → ℕ) → Reranked → Selected
selected_of relevance_of r = record {
  chunk = r.candidate.chunk;
  rerank_score = r.rerank_score;
  relevance = relevance_of r.rerank_score;
}

-- The chunks that are selected, and the statistics with their counts.
unfoldable pub select_chunks : (ℕ → ℕ) → List Reranked → ℕ → Retrieval → List Selected × Retrieval
unfolding pick_loop
select_chunks relevance_of reranked retrieved_chunk_budget retrieval =
    let p = pick_loop (or_number retrieved_chunk_budget 64000) reranked no_chunks in
    (
      map (selected_of relevance_of) p.selected,
      record retrieval {
        chunks_retrieved = length p.selected;
        chunks_deduplicated = p.duplicate_count;
        retrieved_chunk_tokens = p.used_budget;
      },
    )

-- A row of the reranked candidates in the result.
pub record RankedRow : Type 0 where
  pub chunk_id : String
  pub path : String
  pub line_start : ℕ
  pub line_end : ℕ
  pub rerank_score : ℕ
  pub rerank_backend : String
  pub selected : Bool

-- A row of the candidates.
pub record CandidateRow : Type 0 where
  pub chunk_id : String
  pub path : String
  pub line_start : ℕ
  pub line_end : ℕ
  pub score : ℕ
  pub reasons : List String
  pub matched_strategies : List String

unfoldable pub build_rerank_result :
    List Candidate → List Reranked → List Selected → List CandidateRow × List RankedRow
build_rerank_result candidates reranked selected_chunks =
    let selected_ids = map (λ (s : Selected). s.chunk.chunk_id) selected_chunks in
    (
      map
          (λ (c : Candidate). record {
            chunk_id = id_of c;
            path = c.chunk.path;
            line_start = c.chunk.line_start;
            line_end = c.chunk.line_end;
            score = c.score;
            reasons = c.reasons;
            matched_strategies = c.matched_strategies;
          })
          (take 16 candidates),
      map
          (λ (r : Reranked). record {
            chunk_id = reranked_id r;
            path = r.candidate.chunk.path;
            line_start = r.candidate.chunk.line_start;
            line_end = r.candidate.chunk.line_end;
            rerank_score = r.rerank_score;
            rerank_backend = r.rerank_backend;
            selected = contains (reranked_id r) selected_ids;
          })
          (take 16 reranked),
    )
