-- ===== src/Lib.antt =====
-- Verification library of local-ai-broker: the Python workers that answer questions about a repository with GPU services.
--
-- The parts, and how they interact. The broker (Go, not modelled) starts a worker for a request. The worker
-- checks the request, cuts the files of the repository into chunks, ranks and selects chunks as evidence,
-- trims the evidence to its budget, and lets a GPU service write an answer over it, which is validated
-- before it is returned. GPU services publish themselves in a registry file, renew a lease there, and are
-- marked when they fail; the worker selects its endpoints from the same records.
--
-- - Contract: the request contract (workers/rag-compression/inspection_contract.py) and the token budgets
--   (normalize_token_budgets of workers/rag-compression/inspection_pipeline.py). A key of the constraints
--   is missing, null, an integer or what `int()` refuses.
-- - Chunking: _chunk_regions and _split_utf8_chunks of workers/rag-compression/inspection_index.py. The
--   loops run on fuel, of as many rounds as lines or bytes are left; each round takes one at least.
-- - Selection: _candidate_budget and select_diverse_chunks of inspection_pipeline.py. The sets and counters
--   of the source are fields of a record, and a pass is a recursion over the ranking.
-- - Evidence: trim_evidence_for_final_pack of inspection_pipeline.py and enforce_final_pack_budget of
--   workers/rag-compression/main.py. The size of a pack, an estimate over its JSON text, is a parameter.
--   Trimming runs on fuel, of as many rounds as the excerpts have characters and items.
-- - Service: the records of the registry, with a timestamp as its text and the instant read in it.
-- - Endpoint: the health, capability and selection functions of workers/rag-compression/gpu_client.py.
-- - Registry: RegistryPublisher and the lease loop of workers/gpu-service/main.py. The file is a value; the
--   lock makes each operation one step, so that a sequence of operations is a list of steps.
-- - Synthesis: validate_synthesis, _resolve_or_request_endpoint, _try_synthesis_tier and
--   synthesize_with_escalation of inspection_pipeline.py. The lists that the source changes in place are
--   fields of a session. The clock, the request of a service, the chat and the failure report are
--   parameters over a world that they may change; they return or raise GPUServiceError.
-- - Indexing: the upload of a semantic index by ensure_semantic_index of gpu_client.py, with the plan that
--   _semantic_sync_plan of inspection_pipeline.py makes over an earlier index and the files of its manifest, and
--   index_upsert and index_status of workers/gpu-service/main.py, which keep the index, and raise for a
--   document without an id. The indexes are a function from fingerprints; what decides the plan is whether the signature of a chunk has changed.
-- - Demand: verify_response, validate_ready_service and the polling of request_service of
--   workers/rag-compression/service_control.py. The rounds before the deadline are a list of what each finds.
-- - Reduce: what workers/log-analysis/main.py and workers/repo-summary/main.py share, the collection of the
--   outcomes of child jobs, the checks of a reduction and the deduplications by a key.
-- - LogAnalysis: the analysis of a log and the reduction of analyses, of workers/log-analysis/main.py. The
--   confidence is in hundredths.
-- - StagedJob: run_staged_job of workers/rag-compression/inspect_repo_worker.py, as the list of what it shows.
--   What the prefetch, the caches and the pipeline return are fields of a job.
-- - WarmQueue: the queue of the warm daemon of the same file. The spool directory is a record of the stems of
--   its files; a round of the daemon is a function from spools, with the messages and the requests that come
--   while it waits.
-- - Retrieval: how rerank and semantic_search of gpu_client.py read the responses of a service, and its
--   classify_failure. The scores, floating-point numbers in the source, are of any type.
-- - Reranking: gpu_rerank of inspection_pipeline.py, over the session of Synthesis.
-- - Fusion: reciprocal_rank_fusion of inspection_pipeline.py. The sum and the order of the scores are parameters.
-- - Arguments: parse_args of inspect_repo_worker.py. The options are a function from their flags.
-- - RepoSummary: the manifest, the subsystems, the entrypoints, the dependencies and the risks of
--   workers/repo-summary/main.py. A counter is the list of its keys with their counts.
-- - Lexical: the lexical worker of workers/rag-compression/main.py, with Blocks (the chunks of the inputs), Planning,
--   Execution (the strategies), Merging, Picking (reranking and selection), Pack (the evidence), Run (the calls of
--   main in their order) and Guidance (the warnings and the summary). Scores are in hundredths.
-- - Scenarios: the theorems at concrete inputs, and runs of the code on them.
--
-- Numbers are natural numbers, in microseconds for time; the source's integers have no bound. Not modelled: the
-- Go broker, files, sockets and processes, the JSON texts themselves (their lengths and the ids found in
-- them are parameters), the caches and the calls of git, the numerical retrieval of the GPU service, and
-- the worker that summarises documents.
pub mod Prelude
pub mod Service
pub mod Contract
pub mod Selection
pub mod Endpoint
pub mod Registry
pub mod Synthesis
pub mod Chunking
pub mod Evidence
pub mod Indexing
pub mod Demand
pub mod Reduce
pub mod LogAnalysis
pub mod StagedJob
pub mod WarmQueue
pub mod Retrieval
pub mod Reranking
pub mod Fusion
pub mod Arguments
pub mod RepoSummary
pub mod Lexical
pub mod Scenarios
