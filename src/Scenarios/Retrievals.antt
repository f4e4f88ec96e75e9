-- ===== src/Scenarios/Retrievals.antt =====
-- A lexical job over a small repository and a log, and the parts of its run.
use local_ai_broker.Prelude.{◌≤◌, ◌≡◌, ◌↔◌, ◌⊎◌, String, true, false, none, List, [], ◌∷◌, length}
use local_ai_broker.Evidence.{PackState}
use local_ai_broker.Service.{or_number}
use local_ai_broker.Lexical.{Input, Chunk}
use local_ai_broker.Lexical.Blocks.{
  Content, RepoPath, repo, file, chunk_inputs, build_chunk_manifest,
}
use local_ai_broker.Lexical.Blocks.Tiles.{AreTiled, texts_of, chunk_inputs-AreTiled}
use local_ai_broker.Lexical.Planning.{
  Tools, names, normalize_strategy_names, default_strategies, or_list, RetrievalPlan,
  plan_retrieval,
}
use local_ai_broker.Lexical.Planning.Planned.{IsPlan, plan_retrieval-IsPlan}
use local_ai_broker.Lexical.Execution.Signals.{Findings, Task}
use local_ai_broker.Lexical.Merging.{
  Retrieval, StrategyStat, make_candidate, candidate_limit, execute_retrieval_plan,
}
use local_ai_broker.Lexical.Merging.Ranked.{IsRetrieved, execute_retrieval_plan-IsRetrieved}
use local_ai_broker.Lexical.Picking.{Reranked, Adapter, Selected, select_chunks}
use local_ai_broker.Lexical.Picking.Picked.{IsSelection, select_chunks-IsSelection}
use local_ai_broker.Lexical.Pack.{Evidence}
use local_ai_broker.Lexical.Pack.Cited.{IsShown}
use local_ai_broker.Lexical.Run.{Outside, Job, chunks_of, run_job}
use local_ai_broker.Lexical.Run.Released.{IsReleasedPack, run_job-IsReleased}
use local_ai_broker.Lexical.Guidance.Trusted.{summary, IsReady, build_agent_summary-IsReady}

abbrev code : Input
code = record { id = "input_0"; type = "repo"; classification = "internal" }

abbrev log : Input
log = record { id = "input_1"; type = "log"; classification = "internal" }

abbrev main_file : RepoPath
main_file = record {
  rel = "src/main.py";
  parts = "src" ∷ "main.py" ∷ [];
  suffix = ".py";
  name = "main.py";
  is_dir = false;
  lines = "import broker" ∷ "def run():" ∷ "    return 1" ∷ [];
}

abbrev discovered : List (Input × Content)
discovered =
    (code, repo (main_file ∷ []))
    ∷ (log, file "job.log" ("start" ∷ "error: broker failed" ∷ []))
    ∷ []

abbrev hash : String → String
hash text = text

chunk_inputs-AreTiled_example : AreTiled (texts_of [] discovered) (chunk_inputs hash [] discovered)
chunk_inputs-AreTiled_example = chunk_inputs-AreTiled hash [] discovered

abbrev tools : Tools
tools = record { ripgrep = true; tree_sitter = false }

abbrev inputs : List Input
inputs = code ∷ log ∷ []

abbrev chunks : List Chunk
chunks = chunk_inputs hash [] discovered

plan_retrieval-IsPlan_example :
    IsPlan
      (or_list
        (normalize_strategy_names (names ("tree_sitter" ∷ " bm25 " ∷ [])))
        (default_strategies "rag_compress"))
      (default_strategies "rag_compress")
      (plan_retrieval tools "rag_compress"
        (names ("tree_sitter" ∷ " bm25 " ∷ []))
        inputs
        (build_chunk_manifest chunks)
        0)
plan_retrieval-IsPlan_example =
    plan_retrieval-IsPlan tools "rag_compress" (names ("tree_sitter" ∷ " bm25 " ∷ [])) inputs
      (build_chunk_manifest chunks) 0

abbrev found : Chunk → Findings
found chunk = record {
  rg_hits = 2 ∷ [];
  tags = [];
  symbol = "";
  parts = [];
  has_definition = true;
  has_test_word = false;
  has_trace_word = true;
}

abbrev task : Task
task = record { task_type = "rag_compress"; query_terms = "broker" ∷ []; suspect_paths = [] }

abbrev plan : RetrievalPlan
plan = plan_retrieval tools "rag_compress" (names []) inputs (build_chunk_manifest chunks) 0

execute_retrieval_plan-IsRetrieved_example :
    (candidate_limit (or_number 9000 64000) ≤ 48)
    × IsRetrieved found task chunks plan.effective_strategies
        (candidate_limit (or_number 9000 64000))
        (execute_retrieval_plan found task chunks
          (build_chunk_manifest chunks)
          9000
          plan).candidates
execute_retrieval_plan-IsRetrieved_example =
    execute_retrieval_plan-IsRetrieved found task chunks (build_chunk_manifest chunks) 9000 plan

abbrev chunk_of : String → Chunk
chunk_of content = record {
  chunk_id = content;
  chunk_hash = content;
  input_id = "input_0";
  input_type = "repo";
  classification = "internal";
  path = "src/main.py";
  line_start = 1;
  line_end = 1;
  content = content;
  token_estimate = 600;
}

abbrev ranked : String → Reranked
ranked content = record {
  candidate = make_candidate (chunk_of content) 100 [] ("bm25" ∷ []);
  rerank_score = 100;
  rerank_backend = "deterministic";
}

abbrev ranking : List Reranked
ranking = ranked "a" ∷ ranked "b" ∷ ranked "a" ∷ ranked "c" ∷ []

abbrev statistics : Retrieval
statistics =
    (execute_retrieval_plan found task chunks (build_chunk_manifest chunks) 9000 plan).retrieval

select_chunks-IsSelection_example :
    IsSelection
      (λ n. n)
      (or_number 1500 64000)
      ranking
      (select_chunks (λ n. n) ranking 1500 statistics).0
      (select_chunks (λ n. n) ranking 1500 statistics).1
select_chunks-IsSelection_example = select_chunks-IsSelection (λ n. n) ranking 1500 statistics

abbrev adapter : Adapter
adapter = record {
  name = "llama.cpp";
  backend_mode = "real";
  backend_detail = "server";
  llm_available = false;
}

abbrev outside : Outside
outside = record {
  hash = hash;
  found = found;
  ask = λ top. none;
  compressed = λ text. text;
  relevance_of = λ score. 50;
  first = λ text. text;
  said = λ kind. kind;
}

abbrev job : Job
job = record {
  task = task;
  discovered = discovered;
  excluded_dir_names = [];
  tools = tools;
  retrieval_strategies = names [];
  adapter = adapter;
  retrieved_chunk_budget = 0;
  per_chunk_compression_budget = 0;
  final_evidence_pack_budget = 400;
}

run_job-IsReleased_example :
    IsReleasedPack
      (IsShown outside.compressed outside.first outside.said job.adapter)
      (chunks_of outside job)
      (run_job outside job).pack.kept
    × (1 ≤ length (chunks_of outside job) → 1 ≤ length (run_job outside job).pack.kept)
run_job-IsReleased_example = run_job-IsReleased outside job

-- The strategy `fallback` ran, and its mode is recorded as unknown: the evidence is called ready all the same.
abbrev executions : List StrategyStat
executions =
    record {
      strategy = "bm25";
      backend_mode = "real";
      backend_detail = "deterministic_bm25";
      candidate_count = 0;
      top = [];
    }
    ∷ record {
      strategy = "fallback";
      backend_mode = "";
      backend_detail = "";
      candidate_count = 2;
      top = [];
    }
    ∷ []

abbrev selected : List Selected
selected = record { chunk = chunk_of "a"; rerank_score = 100; relevance = 10 } ∷ []

abbrev whole_pack : PackState Evidence
whole_pack = record { kept = []; trimmed_evidence_count = 0; budget_ok = true }

build_agent_summary-IsReady_example :
    ((summary
          (λ path. path ∷ [])
          "rag_compress"
          executions
          selected
          []
          adapter
          whole_pack
          statistics
          []).usage_guidance.needs_direct_verification
        ≡ false
      ↔ IsReady (λ path. path ∷ []) "rag_compress" executions selected [] adapter)
    × ((summary
            (λ path. path ∷ [])
            "rag_compress"
            executions
            selected
            []
            adapter
            whole_pack
            statistics
            []).usage_guidance.needs_direct_verification
          ≡ true
        → ((summary
              (λ path. path ∷ [])
              "rag_compress"
              executions
              selected
              []
              adapter
              whole_pack
              statistics
              []).confidence
            ≡ "low")
          ⊎ ((summary
                (λ path. path ∷ [])
                "rag_compress"
                executions
                selected
                []
                adapter
                whole_pack
                statistics
                []).confidence
              ≡ "medium"))
build_agent_summary-IsReady_example =
    build_agent_summary-IsReady (λ path. path ∷ []) "rag_compress" executions selected [] adapter
      whole_pack statistics []
