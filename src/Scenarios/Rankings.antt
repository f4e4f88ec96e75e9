-- ===== src/Scenarios/Rankings.antt =====
-- A search, a reranking and a fusion of a few chunks, with natural numbers as scores.
use local_ai_broker.Prelude.{
  ℕ, ◌+◌, ◌/◌, ◌≤◌, ◌<◌, String, true, false, Option, none, some, List, [], ◌∷◌, str_eq, ltb,
  distinct, length, get_elem?, All, sort_by, sort_insert, ◌≡◌, refl, arith, if◌then◌else◌,
}
use local_ai_broker.Prelude.Int.{ℤ, pos, negsuc}
use local_ai_broker.Prelude.Result.{Result, ok}
use local_ai_broker.Prelude.Text.{lower}
use local_ai_broker.Prelude.TextOrder.{str_lt}
use local_ai_broker.Prelude.Search.{drop_prefix, partition, occurs}
use local_ai_broker.Service.{Service, many}
use local_ai_broker.Endpoint.{
  select_endpoint, is_candidate, endpoint_capabilities, canonical, endpoint_is_healthy, is_current,
  effective_lease_expiry, max_age,
}
use local_ai_broker.Synthesis.Attempts.{GpuError, unavailable_category}
use local_ai_broker.Synthesis.Tiers.{Session, resolve_or_request_endpoint, select_in}
use local_ai_broker.Scenarios.Leases.{published}
use local_ai_broker.Scenarios.Answers.{callbacks, task}
use local_ai_broker.Retrieval.{
  Response, falsy, listed, or_listed, items_of, rerank, score_loop, every_score, Hit, Found,
  search_loop, semantic_search, classify_failure,
}
use local_ai_broker.Retrieval.Scored.{last_score, rerank-scores}
use local_ai_broker.Retrieval.Searched.{ids_of, Wanted, Ascends, semantic_search-Searched}
use local_ai_broker.Reranking.{
  Candidate, order_by_scores, valid_candidates, documents_of, rerank_at, rerank_with, gpu_rerank,
}
use local_ai_broker.Fusion.{
  RankedItem, put, fuse_ranking, fuse_rankings, ordered, reciprocal_rank_fusion,
}
use local_ai_broker.Fusion.Fused.{IsFused, reciprocal_rank_fusion-IsFused}

abbrev hit : String → Option (Hit ℕ)
hit id = some (record { chunk_id = id; score = some 5 })

abbrev search_response : Response (Option (Hit ℕ))
search_response = record {
  results = listed [];
  response_data = listed (hit "a" ∷ none ∷ hit "" ∷ hit "b" ∷ []);
}

abbrev found : List (Found ℕ)
found =
    record { chunk_id = "a"; score = 5; rank = 1 }
    ∷ record { chunk_id = "b"; score = 5; rank = 4 }
    ∷ []

searches : semantic_search ("b" ∷ "a" ∷ []) search_response 8 ≡ ok found
unfolding semantic_search search_loop items_of
searches = refl

semantic_search-Searched_example :
    (length found ≤ 8)
    × (distinct str_eq (ids_of found) ≡ true)
    × All (Wanted ("b" ∷ "a" ∷ [])) (ids_of found)
    × Ascends 1 found
semantic_search-Searched_example =
    semantic_search-Searched ("b" ∷ "a" ∷ []) search_response 8 found searches

abbrev rerank_response : Response (Option (ℤ × ℕ))
rerank_response = record {
  results = listed (
      some (pos 1, 9)
      ∷ none
      ∷ some (negsuc 0, 4)
      ∷ some (pos 0, 3)
      ∷ some (pos 7, 1)
      ∷ some (pos 0, 2)
      ∷ []);
  response_data = falsy;
}

abbrev two_scores : List ℕ
two_scores = 2 ∷ 9 ∷ []

scores : rerank rerank_response 2 ≡ ok two_scores
unfolding rerank items_of score_loop every_score
scores = refl

rerank-scores_example :
    (length two_scores ≡ 2)
    × (items : List (Option (ℤ × ℕ))) × (or_listed rerank_response.results
          rerank_response.response_data
        ≡ listed items)
    × ((i : ℕ) → i < 2 → get_elem? two_scores i ≡ last_score items i)
rerank-scores_example = rerank-scores rerank_response 2 two_scores scores

ltb_asymm : (a b : ℕ) → ltb a b ≡ true → ltb b a ≡ false
ltb_asymm a b h = ground arith

abbrev candidate : String → Candidate ℕ
candidate id = record { chunk_id = id; rrf_score = 1; rerank_score = none; rank = 0 }

abbrev candidates : List (Candidate ℕ)
candidates = candidate "a" ∷ candidate "lost" ∷ candidate "b" ∷ []

abbrev chunk_by_id : String → Option String
chunk_by_id id = if str_eq id "lost" then none else some id

abbrev post : ℕ → Service → List String → Result GpuError (Response (Option (ℤ × ℕ))) × ℕ
post w service documents = (ok rerank_response, w + 1)

abbrev reranker : Service
reranker = record published { tier = "p40-retrieval"; capabilities = many ("rerank" ∷ []) }

abbrev rerank_session : Session ℕ
rerank_session = record { world = 0; services = reranker ∷ []; attempts = [] }

abbrev reranked : String → ℕ → ℕ → Candidate ℕ
reranked id score rank = record {
  chunk_id = id;
  rrf_score = 1;
  rerank_score = some score;
  rank = rank;
}

reranks :
    (gpu_rerank ltb 0 chunk_by_id post callbacks task candidates rerank_session).0.candidates
    ≡ reranked "b" 9 1 ∷ reranked "a" 2 2 ∷ []
unfolding gpu_rerank rerank_with rerank_at valid_candidates documents_of order_by_scores rerank
    items_of score_loop every_score resolve_or_request_endpoint select_in select_endpoint
    is_candidate sort_by sort_insert endpoint_capabilities canonical endpoint_is_healthy is_current
    effective_lease_expiry max_age unavailable_category lower str_lt
reranks = refl

abbrev item : String → RankedItem
item id = record { chunk_id = id; rank = none; source = "lexical" }

abbrev rankings : List (List RankedItem)
rankings = (item "a" ∷ item "b" ∷ item "a" ∷ []) ∷ (item "b" ∷ item "" ∷ []) ∷ []

abbrev share : ℕ → ℕ
share rank = 10000 / (60 + rank)

fuses :
    reciprocal_rank_fusion ltb ◌+◌ 0 share (λ s. s) rankings 64
    ≡ record { chunk_id = "b"; rrf_score = 324; sources = "lexical" ∷ []; rank = 1 }
      ∷ record { chunk_id = "a"; rrf_score = 163; sources = "lexical" ∷ []; rank = 2 }
      ∷ []
unfolding reciprocal_rank_fusion ordered fuse_rankings fuse_ranking put sort_by sort_insert str_lt
fuses = refl

reciprocal_rank_fusion-IsFused_example :
    IsFused ltb ◌+◌ 0 share
      (λ s. s)
      rankings
      64
      (reciprocal_rank_fusion ltb ◌+◌ 0 share (λ s. s) rankings 64)
reciprocal_rank_fusion-IsFused_example =
    reciprocal_rank_fusion-IsFused ltb ◌+◌ 0 share ltb_asymm (λ s. s) rankings 64

context_first : classify_failure "The maximum context length of the model" none ≡ "context_overflow"
unfolding classify_failure occurs partition drop_prefix lower
context_first = refl
