-- ===== src/Lexical/Merging.antt =====
-- The execution of a plan: `combine_backend_mode`, `make_candidate`, `strategy_candidates`,
-- `fallback_score` and `execute_retrieval_plan` of workers/rag-compression/main.py. What is found in a chunk is an
-- argument, and the query terms are those of the task.
pub mod Gathered
pub mod Ranked
use local_ai_broker.Prelude.{
  ℕ, zero, suc, ◌+◌, ◌/◌, min, max, String, Bool, true, false, Option, none, some, List, [], ◌∷◌,
  ◌++◌, ◌||◌, ◌&&◌, str_eq, contains, ltb, length, take, map, sort_by, ◌==◌, if◌then◌else◌,
}
use local_ai_broker.Prelude.Text.{lower, or_else}
use local_ai_broker.Service.{or_number}
use local_ai_broker.RepoSummary.{Tally, tally}
use local_ai_broker.Lexical.{Chunk, unique_preserving_order}
use local_ai_broker.Lexical.Blocks.{ChunkManifest}
use local_ai_broker.Lexical.Planning.{RetrievalPlan}
use local_ai_broker.Lexical.Execution.{Strategy, strategy_of, execute}
use local_ai_broker.Lexical.Execution.Signals.{
  Findings, Executed, Task, log_signal_score, code_signal_score, in_code, is_log,
}

-- The priorities, each one more than in the source, where another mode has -1.
abbrev pub priority : String → ℕ
priority mode =
    if str_eq mode "real"
    then 4
    else if str_eq mode "fallback"
    then 3
    else if str_eq mode "heuristic"
    then 2
    else if str_eq mode "unavailable"
    then 1
    else 0

unfoldable pub combine_backend_mode : String → String → String
combine_backend_mode current new_mode =
    if ltb (priority current) (priority new_mode) then new_mode else current

-- A candidate: the chunk with its score, the reasons and the strategies.
pub record Candidate : Type 0 where
  pub chunk : Chunk
  pub score : ℕ
  pub reasons : List String
  pub matched_strategies : List String

abbrev pub id_of : Candidate → String
id_of c = c.chunk.chunk_id

abbrev pub make_candidate : Chunk → ℕ → List String → List String → Candidate
make_candidate chunk score reasons matched = record {
  chunk = chunk;
  score = score;
  reasons = reasons;
  matched_strategies = matched;
}

-- `key=lambda item: item["score"], reverse=True`
abbrev pub scores_before : Candidate → Candidate → Bool
scores_before a b = ltb b.score a.score

pub record Execution : Type 0 where
  pub candidates : List Candidate
  pub backend_mode : String
  pub backend_detail : String

-- The loop of `strategy_candidates`, from the mode, the detail and the candidates that it has.
unfoldable pub candidates_loop :
    (Chunk → Executed) → String → List Chunk → String → String → List Candidate → Execution
candidates_loop executor name [] mode detail scored = record {
  candidates = scored;
  backend_mode = mode;
  backend_detail = detail;
}
candidates_loop executor name (chunk ∷ chunks) mode detail scored =
    let e = executor chunk in
    candidates_loop executor name chunks (combine_backend_mode mode e.backend_mode)
      (or_else e.backend_detail detail)
      (if e.score == 0
        then scored
        else scored ++ make_candidate chunk e.score e.reasons (name ∷ []) ∷ [])

module _ (found : Chunk → Findings) (task : Task) where
  unfoldable pub strategy_candidates : String → List Chunk → Execution
  unfolding candidates_loop
  strategy_candidates name chunks = elim (strategy_of name) [
    | none ↦ record {
      candidates = [];
      backend_mode = "unavailable";
      backend_detail = "no_executor_registered";
    }
    | some strategy ↦
        let all =
          candidates_loop (λ chunk. execute strategy (found chunk) chunk task) name chunks
            "heuristic" "deterministic_executor" [] in
        record all { candidates = take 24 (sort_by scores_before all.candidates) }
  ]

  unfoldable pub fallback_score : Chunk → ℕ
  fallback_score chunk =
      let text = lower chunk.content in
      100
      + (if contains task.task_type ("summarize_logs" ∷ "debug_with_local_context" ∷ [])
            && is_log chunk
          then log_signal_score (found chunk) text
          else 0)
      + (if contains task.task_type ("inspect_repo" ∷ "rag_compress" ∷ "propose_patch" ∷ [])
            && in_code chunk
          then code_signal_score text
          else 0)

-- An entry of the dictionary `merged`, with another candidate of its id.
abbrev pub joined : Candidate → Candidate → Candidate
joined existing candidate = record existing {
  score = existing.score + candidate.score;
  reasons = unique_preserving_order (existing.reasons ++ candidate.reasons);
  matched_strategies =
      unique_preserving_order (existing.matched_strategies ++ candidate.matched_strategies);
}

unfoldable pub merge_one : Candidate → List Candidate → List Candidate
merge_one candidate [] = candidate ∷ []
merge_one candidate (existing ∷ merged) =
    let rest = merge_one candidate merged in
    if str_eq (id_of existing) (id_of candidate)
    then joined existing candidate ∷ merged
    else existing ∷ rest

unfoldable pub merge_all : List Candidate → List Candidate → List Candidate
merge_all [] merged = merged
merge_all (candidate ∷ candidates) merged = merge_all candidates (merge_one candidate merged)

-- The id, the path and the score of a candidate in `top_candidates`.
pub record Top : Type 0 where
  pub chunk_id : String
  pub path : String
  pub score : ℕ

abbrev pub top_of : Candidate → ℕ → Top
top_of c score = record { chunk_id = id_of c; path = c.chunk.path; score = score }

unfoldable pub score_in : String → List Candidate → ℕ
score_in chunk_id [] = 0
score_in chunk_id (c ∷ cs) = if str_eq (id_of c) chunk_id then c.score else score_in chunk_id cs

-- The top candidates of a strategy, after they were merged: a candidate that was the first of its id is the
-- entry of `merged` itself, and has its score.
unfoldable pub top_candidates : List String → List Candidate → List Candidate → List Top
unfolding score_in
top_candidates seen merged [] = []
top_candidates seen merged (c ∷ cs) =
    top_of c (if contains (id_of c) seen then c.score else score_in (id_of c) merged)
    ∷ top_candidates (id_of c ∷ seen) merged cs

-- The mode and the detail are empty where the keys are missing.
pub record StrategyStat : Type 0 where
  pub strategy : String
  pub backend_mode : String
  pub backend_detail : String
  pub candidate_count : ℕ
  pub top : List Top

pub record Merging : Type 0 where
  pub merged : List Candidate
  pub strategy_hits : List Tally
  pub strategy_stats : List StrategyStat

pub record Retrieval : Type 0 where
  pub strategies : List String
  pub requested_strategies : List String
  pub skipped_strategies : List String
  pub chunks_considered : ℕ
  pub chunks_indexed : ℕ
  pub chunks_retrieved : ℕ
  pub chunks_reranked : ℕ
  pub chunks_deduplicated : ℕ
  pub chunks_compressed : ℕ
  pub retrieved_chunk_tokens : ℕ
  pub retrieved_chunk_budget : ℕ
  pub candidate_count : ℕ
  pub strategy_hits : List Tally
  pub strategy_stats : List StrategyStat
  pub merged_candidate_count : ℕ

pub record Retrieved : Type 0 where
  pub candidates : List Candidate
  pub retrieval : Retrieval

-- `min(max(budget // 512, 8), 48)`
abbrev pub candidate_limit : ℕ → ℕ
candidate_limit budget = min (max (budget / 512) 8) 48

module _ (found : Chunk → Findings) (task : Task) (chunks : List Chunk) where
  unfoldable pub run_strategies : List String → Merging → Merging
  unfolding merge_all top_candidates
  run_strategies [] m = m
  run_strategies (name ∷ names) m =
      let e = strategy_candidates found task name chunks in
      let merged = merge_all e.candidates m.merged in
      run_strategies names (record {
        merged = merged;
        strategy_hits = tally (map (λ (c : Candidate). name) e.candidates) m.strategy_hits;
        strategy_stats =
            m.strategy_stats
            ++ record {
              strategy = name;
              backend_mode = e.backend_mode;
              backend_detail = e.backend_detail;
              candidate_count = length e.candidates;
              top = top_candidates (map id_of m.merged) merged (take 5 e.candidates);
            }
              ∷ [];
      })

  -- The candidates where no strategy has one.
  abbrev pub fallback_candidates : List Candidate
  fallback_candidates =
      map
        (λ (chunk : Chunk).
          make_candidate chunk (fallback_score found task chunk) ("fallback" ∷ [])
            ("fallback" ∷ []))
        (take 24 chunks)

  abbrev pub fallback_stat : StrategyStat
  fallback_stat = record {
    strategy = "fallback";
    backend_mode = "";
    backend_detail = "";
    candidate_count = length fallback_candidates;
    top = map (λ (c : Candidate). top_of c c.score) (take 5 fallback_candidates);
  }

  -- `if not scored`
  unfoldable pub or_fallback :
      List Candidate → List StrategyStat → List Candidate × List StrategyStat
  or_fallback [] stats = (fallback_candidates, stats ++ fallback_stat ∷ [])
  or_fallback (c ∷ cs) stats = (c ∷ cs, stats)

  -- The trace holds the lists of the plan and the statistics again, and the number of merged candidates.
  unfoldable pub execute_retrieval_plan : ChunkManifest → ℕ → RetrievalPlan → Retrieved
  unfolding run_strategies or_fallback
  execute_retrieval_plan manifest retrieved_chunk_budget plan =
      let m =
        run_strategies plan.effective_strategies
          (record { merged = []; strategy_hits = []; strategy_stats = [] }) in
      let (scored, stats) = or_fallback (sort_by scores_before m.merged) m.strategy_stats in
      let budget = or_number retrieved_chunk_budget 64000 in
      let candidates = take (candidate_limit budget) scored in
      record {
        candidates = candidates;
        retrieval = record {
          strategies = plan.effective_strategies;
          requested_strategies = plan.requested_strategies;
          skipped_strategies = plan.skipped_strategies;
          chunks_considered = length chunks;
          chunks_indexed = manifest.chunk_count;
          chunks_retrieved = 0;
          chunks_reranked = length candidates;
          chunks_deduplicated = 0;
          chunks_compressed = 0;
          retrieved_chunk_tokens = 0;
          retrieved_chunk_budget = budget;
          candidate_count = length candidates;
          strategy_hits = m.strategy_hits;
          strategy_stats = stats;
          merged_candidate_count = length scored;
        };
      }
