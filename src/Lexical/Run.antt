-- ===== src/Lexical/Run.antt =====
-- A job of the lexical worker from its inputs to its evidence: the calls of `main` from `chunk_inputs` to
-- `build_result`, and the first two of `build_result`, in workers/rag-compression/main.py. The heartbeats, the files
-- and the payloads are left out.
pub mod Released
use local_ai_broker.Prelude.{ℕ, String, Option, List, length, ◌==◌, if◌then◌else◌, map}
use local_ai_broker.Evidence.{PackState, enforce_final_pack_budget}
use local_ai_broker.Lexical.{Input, Chunk}
use local_ai_broker.Lexical.Blocks.{Content, chunk_inputs, build_chunk_manifest}
use local_ai_broker.Lexical.Planning.{Tools, Requested, RetrievalPlan, plan_retrieval}
use local_ai_broker.Lexical.Execution.Signals.{Findings, Task}
use local_ai_broker.Lexical.Merging.{Retrieval, execute_retrieval_plan}
use local_ai_broker.Lexical.Picking.{Reranked, Adapter, Selected, rerank_candidates, select_chunks}
use local_ai_broker.Lexical.Pack.{Evidence, build_evidence, estimate_evidence_pack_tokens}

-- What the worker calls: the hash, the tools and patterns on a chunk, the model's two answers, the rounding of
-- the relevance, and the two texts of a claim.
pub record Outside : Type 0 where
  pub hash : String → String
  pub found : Chunk → Findings
  pub ask : List Reranked → Option (List String)
  pub compressed : String → String
  pub relevance_of : ℕ → ℕ
  pub first : String → String
  pub said : String → String

-- A budget is 0 where it is missing.
pub record Job : Type 0 where
  pub task : Task
  pub discovered : List (Input × Content)
  pub excluded_dir_names : List String
  pub tools : Tools
  pub retrieval_strategies : Requested
  pub adapter : Adapter
  pub retrieved_chunk_budget : ℕ
  pub per_chunk_compression_budget : ℕ
  pub final_evidence_pack_budget : ℕ

pub record Answer : Type 0 where
  pub plan : RetrievalPlan
  pub selected : List Selected
  pub retrieval : Retrieval
  pub pack : PackState Evidence

abbrev pub chunks_of : Outside → Job → List Chunk
chunks_of out job = chunk_inputs out.hash job.excluded_dir_names job.discovered

unfoldable pub run_job : Outside → Job → Answer
run_job out job =
    let chunks = chunks_of out job in
    let manifest = build_chunk_manifest chunks in
    let plan =
      plan_retrieval job.tools job.task.task_type job.retrieval_strategies
        (map (λ (d : Input × Content). d.0) job.discovered) manifest job.retrieved_chunk_budget in
    let retrieved =
      execute_retrieval_plan out.found job.task chunks manifest job.retrieved_chunk_budget plan in
    let reranked = rerank_candidates out.found job.adapter out.ask job.task retrieved.candidates in
    let (selected, retrieval) =
      select_chunks out.relevance_of reranked job.retrieved_chunk_budget retrieved.retrieval in
    let evidence =
      build_evidence out.compressed out.first out.said job.adapter job.per_chunk_compression_budget
        selected in
    let pack =
      enforce_final_pack_budget estimate_evidence_pack_tokens evidence
        job.final_evidence_pack_budget in
    record {
      plan = plan;
      selected = selected;
      retrieval =
          if job.final_evidence_pack_budget == 0
          then retrieval
          else record retrieval { chunks_compressed = length pack.kept };
      pack = pack;
    }
