-- ===== src/Reranking.antt =====
-- The reranking of candidates: `gpu_rerank` of workers/rag-compression/inspection_pipeline.py, over the session of
-- the GPU calls. The scores are of any type `F` with the test `a < b`; what is sent of a chunk is a function
-- of it, and the request that is sent over the network is a parameter.
pub mod Reranked
use local_ai_broker.Prelude.{
  ℕ, suc, String, Bool, true, false, not, Option, none, some, List, [], ◌∷◌, length, take, sort_by,
  if◌then◌else◌, ◌||◌, ◌&&◌, ◌==◌,
}
use local_ai_broker.Prelude.Int.{ℤ}
use local_ai_broker.Prelude.Result.{Result, ok, raise, ◌>>=◌}
use local_ai_broker.Prelude.TextOrder.{str_lt}
use local_ai_broker.Service.{Service}
use local_ai_broker.Synthesis.Attempts.{
  GpuError, gpu_error, Attempt, attempt_record, endpoint_diagnostics, missing_endpoint_record,
  unavailable_category,
}
use local_ai_broker.Synthesis.Tiers.{
  Callbacks, Session, Task, add_attempt, set_world, report_warm_service_failure,
  resolve_or_request_endpoint,
}
use local_ai_broker.Retrieval.{Response, rerank}

-- A candidate, with its score of the fusion, where it has one, and that of the reranking.
pub record Candidate (F : Type 0) : Type 0 where
  pub chunk_id : String
  pub rrf_score : F
  pub rerank_score : Option F
  pub rank : ℕ

pub record Ranking (F : Type 0) : Type 0 where
  pub candidates : List (Candidate F)
  pub mode : String
  pub endpoint : Option Service

module _ {F : Type 0} where
  -- `zip(valid_candidates, scores)`
  abbrev pub with_scores : List (Candidate F) → List F → List (Candidate F)
  with_scores [] scores = []
  with_scores (c ∷ cs) [] = []
  with_scores (c ∷ cs) (score ∷ scores) =
      record c { rerank_score = some score } ∷ with_scores cs scores

  abbrev pub numbered : ℕ → List (Candidate F) → List (Candidate F)
  numbered n [] = []
  numbered n (c ∷ cs) = record c { rank = n } ∷ numbered (suc n) cs

module _ {F : Type 0} {D : Type 0} (chunk_by_id : String → Option D) where
  -- The candidates with a chunk, and their documents.
  unfoldable pub valid_candidates : List (Candidate F) → List (Candidate F)
  valid_candidates [] = []
  valid_candidates (c ∷ cs) = elim (chunk_by_id c.chunk_id) [
    | some chunk ↦ c ∷ valid_candidates cs
    | none ↦ valid_candidates cs
  ]

  unfoldable pub documents_of : List (Candidate F) → List D
  documents_of [] = []
  documents_of (c ∷ cs) = elim (chunk_by_id c.chunk_id) [
    | some chunk ↦ chunk ∷ documents_of cs
    | none ↦ documents_of cs
  ]

module _ {F : Type 0} (less : F → F → Bool) (nothing : F) where
  abbrev pub score_of : Candidate F → F
  score_of c = elim c.rerank_score [ some score ↦ score | none ↦ nothing ]

  -- `key=lambda item: (-item["rerank_score"], -item.get("rrf_score", 0.0), item["chunk_id"])`
  abbrev pub reranks_before : Candidate F → Candidate F → Bool
  reranks_before a b =
      less (score_of b) (score_of a)
      || (not (less (score_of a) (score_of b))
          && (less b.rrf_score a.rrf_score
              || (not (less a.rrf_score b.rrf_score) && str_lt a.chunk_id b.chunk_id)))

  unfoldable pub order_by_scores : List (Candidate F) → List F → List (Candidate F)
  order_by_scores valid scores = numbered 1 (sort_by reranks_before (with_scores valid scores))

  module _ {D W : Type 0} (chunk_by_id : String → Option D)
      (post : W → Service → List D → Result GpuError (Response (Option (ℤ × F))) × W)
      (callbacks : Callbacks W) where
    abbrev rerank_attempt : Service → String → String → String → Attempt
    rerank_attempt endpoint outcome category reason =
        attempt_record (endpoint_diagnostics endpoint) "rerank" outcome category reason 1

    abbrev returned : List (Candidate F) → String → Option Service → Ranking F
    returned candidates mode endpoint = record {
      candidates = candidates;
      mode = mode;
      endpoint = endpoint;
    }

    -- The call of the service and the order by its scores.
    unfoldable pub rerank_at : List (Candidate F) → Service → Session W → Ranking F × Session W
    rerank_at candidates endpoint s =
        let documents = documents_of chunk_by_id (take 64 candidates) in
        let answer = post s.world endpoint documents in
        elim (answer.0 >>= λ response. rerank response (length documents)) [
          | ok scores ↦ (
            returned (order_by_scores (valid_candidates chunk_by_id (take 64 candidates)) scores)
                "gpu" (some endpoint),
            add_attempt (rerank_attempt endpoint "succeeded" "" "semantic_candidates_ready")
                (set_world answer.1 s),
          )
          | raise e ↦ (
            returned candidates "failed" (some endpoint),
            add_attempt (rerank_attempt endpoint "failed" e.category "semantic_candidates_ready")
                (report_warm_service_failure callbacks endpoint e (set_world answer.1 s)),
          )
        ]

    unfoldable pub rerank_with : List (Candidate F) → Service → Session W → Ranking F × Session W
    rerank_with candidates endpoint s =
        if length (valid_candidates chunk_by_id (take 64 candidates)) == 0
        then (
          returned candidates "failed" (some endpoint),
          add_attempt (rerank_attempt endpoint "failed" "service_failure" "no_candidates") s,
        )
        else rerank_at candidates endpoint s

    -- `gpu_rerank`, without an endpoint that overrides the search for one.
    unfoldable pub gpu_rerank : Task → List (Candidate F) → Session W → Ranking F × Session W
    gpu_rerank task candidates s =
        let initial_category = unavailable_category s.services "p40-retrieval" in
        let found =
          resolve_or_request_endpoint callbacks task "p40-retrieval" "rerank" 1 initial_category
            "GPU reranking is required for inspect_repo" s in
        elim found.0.0 [
          | some endpoint ↦ rerank_with candidates endpoint found.1
          | none ↦
              let category : String = elim found.0.1 [
                | none ↦ initial_category
                | some e ↦ e.category
              ] in
              (
                returned candidates "unavailable" none,
                add_attempt
                    (attempt_record (missing_endpoint_record "p40-retrieval" 1 found.0.1) "rerank"
                      "failed" category "semantic_candidates_ready" 1)
                    found.1,
              )
        ]
