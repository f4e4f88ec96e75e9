-- ===== src/Lexical/Guidance.antt =====
-- What a result says of its own worth: `build_retrieval_policy_signals`, the warnings of `build_validation_report`,
-- `build_usage_guidance`, `default_next_action`, `derive_agent_findings` with the labels, and `build_agent_summary` of
-- workers/rag-compression/main.py. A mode is empty where its key is missing; the parts of a path are an
-- argument.
pub mod Recorded
pub mod Trusted
use local_ai_broker.Prelude.{
  ℕ, zero, suc, String, Bool, true, false, not, List, [], ◌∷◌, ◌++◌, ◌||◌, ◌&&◌, str_eq, contains,
  any, keep, when, all, leb, ltb, length, take, map, ◌==◌, if◌then◌else◌,
}
use local_ai_broker.Prelude.Text.{is_empty, or_else}
use local_ai_broker.Evidence.{PackState}
use local_ai_broker.RepoSummary.{Tally, tally, count_in}
use local_ai_broker.Lexical.Blocks.{hits_excluded}
use local_ai_broker.Lexical.Merging.{Retrieval, StrategyStat}
use local_ai_broker.Lexical.Picking.{Adapter, Selected}
use local_ai_broker.Lexical.Pack.{Evidence, SourceRef}

pub record Degraded : Type 0 where
  pub strategy : String
  pub backend_mode : String
  pub backend_detail : String

pub record PolicySignals : Type 0 where
  pub mode_counts : List Tally
  pub degraded_strategies : List Degraded
  pub real_backend_required_recommended : Bool
  pub warnings : List String
  pub contaminated_paths : List String

-- `str(... .get("backend_mode") or "unknown")`
abbrev pub mode_of : String → String
mode_of mode = or_else mode "unknown"

abbrev pub weak_modes : List String
weak_modes = "heuristic" ∷ "fallback" ∷ "unavailable" ∷ []

abbrev pub degraded_modes : List String
degraded_modes = "heuristic" ∷ "fallback" ∷ "unavailable" ∷ "configured_local_llm" ∷ []

unfoldable pub degraded_executions : List StrategyStat → List Degraded
degraded_executions [] = []
degraded_executions (s ∷ ss) =
    when (contains (mode_of s.backend_mode) weak_modes) (record {
      strategy = s.strategy;
      backend_mode = mode_of s.backend_mode;
      backend_detail = s.backend_detail;
    })
    ++ degraded_executions ss

-- The modes that are counted: those of the executions and that of the runtime.
abbrev pub modes_of : List StrategyStat → Adapter → List String
modes_of executions adapter =
    map (λ (s : StrategyStat). mode_of s.backend_mode) executions
    ++ mode_of adapter.backend_mode ∷ []

abbrev pub contaminated : (String → List String) → List String → List Selected → List String
contaminated parts_of excluded selected =
    keep (λ path. not (is_empty path) && hits_excluded excluded (parts_of path))
      (map (λ (s : Selected). s.chunk.path) selected)

unfoldable pub build_retrieval_policy_signals :
    (String → List String)
    → String
    → List StrategyStat
    → List Selected
    → List String
    → Adapter
    → PolicySignals
unfolding degraded_executions
build_retrieval_policy_signals parts_of task_type executions selected_chunks excluded adapter =
    let runtime_mode = mode_of adapter.backend_mode in
    let mode_counts = tally (modes_of executions adapter) [] in
    let degraded = any (λ mode. ltb 0 (count_in mode mode_counts)) degraded_modes in
    let contaminated_paths = contaminated parts_of excluded selected_chunks in
    record {
      mode_counts = mode_counts;
      degraded_strategies =
          degraded_executions executions
          ++ when (contains runtime_mode degraded_modes) (record {
            strategy = "runtime_backend";
            backend_mode = runtime_mode;
            backend_detail = adapter.backend_detail;
          });
      real_backend_required_recommended = degraded;
      warnings =
          when degraded "LOCAL_RETRIEVAL_DEGRADED"
          ++ when
              ((str_eq task_type "rag_compress"
                  && (str_eq runtime_mode "heuristic" && str_eq adapter.name "deterministic"))
                || count_in "real" mode_counts == 0)
              "NO_REAL_RETRIEVAL_BACKEND"
          ++ when (ltb 0 (length contaminated_paths)) "IGNORED_PATH_RETRIEVAL_CONTAMINATION";
      contaminated_paths = take 8 contaminated_paths;
    }

-- The warnings of `build_validation_report`.
unfoldable pub validation_warnings :
    PackState Evidence → PolicySignals → Retrieval → List Evidence → List String
validation_warnings pack signals retrieval evidence =
    when (ltb 0 pack.trimmed_evidence_count) "FINAL_EVIDENCE_PACK_TRIMMED"
    ++ signals.warnings
    ++ when (ltb 0 (length retrieval.requested_strategies) && length retrieval.strategies == 0)
        "NO_REQUESTED_RETRIEVAL_STRATEGY_EXECUTED"
    ++ when (not (all (λ (e : Evidence). ltb 0 (length e.source_refs)) evidence))
        "MISSING_EVIDENCE_REFS"

pub record UsageGuidance : Type 0 where
  pub mode : String
  pub needs_direct_verification : Bool
  pub recommended_action : String

unfoldable pub build_usage_guidance : List String → UsageGuidance
build_usage_guidance warnings =
    if contains "NO_REAL_RETRIEVAL_BACKEND" warnings
    then record {
      mode = "lead_generation_only";
      needs_direct_verification = true;
      recommended_action =
          "Retry with a real local backend or inspect the cited files directly before making claims.";
    }
    else if contains "LOCAL_RETRIEVAL_DEGRADED" warnings
        || contains "IGNORED_PATH_RETRIEVAL_CONTAMINATION" warnings
    then record {
      mode = "verify_before_claiming";
      needs_direct_verification = true;
      recommended_action =
          "Use the cited refs as pointers, but verify them directly before making strong claims.";
    }
    else record {
      mode = "broker_evidence_ready";
      needs_direct_verification = false;
      recommended_action =
          "Use the cited evidence directly in the answer and keep claims scoped to those refs.";
    }

unfoldable pub default_next_action : String → String → String
default_next_action task_type guidance_mode =
    if str_eq guidance_mode "lead_generation_only"
    then "Retry with a stronger local backend or inspect the referenced files directly before answering."
    else if str_eq guidance_mode "verify_before_claiming"
    then "Verify the cited files directly, then answer using only the confirmed evidence."
    else if str_eq task_type "inspect_repo"
    then "Start with the most relevant subsystem or symbol and cite the referenced files."
    else if str_eq task_type "debug_with_local_context"
    then "Lead with the highest-confidence root cause candidate and validate it against the cited code and logs."
    else if str_eq task_type "summarize_logs"
    then "Summarize the dominant failure cluster first, then use the cited log evidence to guide the next step."
    else if str_eq task_type "propose_patch"
    then "Keep the patch scoped to the cited files and validate the change against the referenced evidence."
    else "Use the cited evidence directly in the answer."

unfoldable pub claim_type_for_kind : String → String
claim_type_for_kind kind =
    if contains kind
      ("build_error" ∷ "linker_error" ∷ "runtime_exception" ∷ "test_failure" ∷ "generic_error" ∷ [])
    then "observation"
    else if contains kind ("config_reference" ∷ "api_surface" ∷ "symbol_definition" ∷ [])
    then "recommendation"
    else "hypothesis"

unfoldable pub severity_for_kind : String → String
severity_for_kind kind =
    if contains kind ("build_error" ∷ "linker_error" ∷ "runtime_exception" ∷ "test_failure" ∷ [])
    then "high"
    else if contains kind ("generic_error" ∷ "config_reference" ∷ [])
    then "medium"
    else "low"

-- The score is in hundredths.
unfoldable pub confidence_label_from_score : ℕ → String
confidence_label_from_score score =
    if leb 80 score then "high" else if leb 65 score then "medium" else "low"

pub record AgentFinding : Type 0 where
  pub summary : String
  pub claim_type : String
  pub severity : String
  pub confidence : String
  pub evidence_refs : List String
  pub source_refs : List SourceRef

abbrev pub finding_of : Evidence → AgentFinding
finding_of e = record {
  summary = e.claim;
  claim_type = claim_type_for_kind e.kind;
  severity = severity_for_kind e.kind;
  confidence = confidence_label_from_score e.confidence;
  evidence_refs = when (not (is_empty e.id)) e.id;
  source_refs = take 2 e.source_refs;
}

abbrev pub derive_agent_findings : List Evidence → List AgentFinding
derive_agent_findings evidence = map finding_of (take 5 evidence)

abbrev pub first_confidence : List AgentFinding → String
first_confidence [] = "medium"
first_confidence (f ∷ fs) = f.confidence

unfoldable pub confidence_label : String → List AgentFinding → String
confidence_label mode findings =
    if str_eq mode "lead_generation_only"
    then "low"
    else if str_eq mode "verify_before_claiming"
    then "medium"
    else first_confidence findings

pub record AgentSummary : Type 0 where
  pub findings : List AgentFinding
  pub answer_brief : List String
  pub recommended_next_action : String
  pub confidence : String
  pub must_cite_evidence : Bool
  pub usage_guidance : UsageGuidance

unfoldable pub build_agent_summary : String → List Evidence → List String → AgentSummary
unfolding confidence_label
build_agent_summary task_type evidence warnings =
    let findings = derive_agent_findings evidence in
    let usage_guidance = build_usage_guidance warnings in
    record {
      findings = findings;
      answer_brief = map (λ (f : AgentFinding). f.summary) (take 5 findings);
      recommended_next_action = default_next_action task_type usage_guidance.mode;
      confidence = confidence_label usage_guidance.mode findings;
      must_cite_evidence = ltb 0 (length findings);
      usage_guidance = usage_guidance;
    }
