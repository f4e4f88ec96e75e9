-- ===== src/Synthesis.antt =====
-- Synthesis over released evidence: `validate_synthesis`, endpoint resolution, the tries of one tier and the
-- escalation through the tiers, in workers/rag-compression/inspection_pipeline.py, with the failure sets of
-- workers/rag-compression/gpu_client.py. The callbacks that the source takes as arguments are those of
-- `Callbacks`, over a world that they may change; `json.dumps` and the search for evidence ids in a text
-- are functions of what they are applied to.
pub mod Attempts
pub mod Validation
pub mod Tiers
pub mod Grounded
pub mod Resolution
pub mod Trace
pub mod Escalation
pub mod Released
