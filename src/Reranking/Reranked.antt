-- ===== src/Reranking/Reranked.antt =====
-- What a reranking makes of the candidates.
use local_ai_broker.Prelude.{
  ℕ, suc, String, Bool, Option, List, [], ◌∷◌, ◌++◌, length, take, map, ◌≡◌, ◌⊎◌, ◌↔◌,
}
use local_ai_broker.Prelude.Int.{ℤ}
use local_ai_broker.Prelude.Membership.{In}
use local_ai_broker.Prelude.Sorting.{Sorted}
use local_ai_broker.Prelude.Result.{Result}
use local_ai_broker.Service.{Service}
use local_ai_broker.Synthesis.Attempts.{GpuError, Attempt}
use local_ai_broker.Synthesis.Tiers.{Callbacks, Session}
use local_ai_broker.Retrieval.{Response}
use local_ai_broker.Reranking.{Candidate, Ranking, reranks_before, valid_candidates}

module _ {F : Type 0} where
  abbrev pub ids_of : List (Candidate F) → List String
  ids_of candidates = map (λ (c : Candidate F). c.chunk_id) candidates

  -- Ranks that count on from a first one.
  abbrev pub Counts : ℕ → List (Candidate F) → Type 0
  Counts n [] = Unit
  Counts n (c ∷ cs) = (c.rank ≡ n) × Counts (suc n) cs

module _ {F : Type 0} (less : F → F → Bool) (nothing : F) where
  -- The valid candidates in the order of their scores.
  abbrev pub Ordered : List (Candidate F) → List (Candidate F) → Type 0
  Ordered valid ranked =
      Counts 1 ranked
      × Sorted (reranks_before less nothing) ranked
      × (length ranked ≡ length valid)
      × ((id : String) → In id (ids_of ranked) ↔ In id (ids_of valid))

  module _ {D W : Type 0} (chunk_by_id : String → Option D)
      (post : W → Service → List D → Result GpuError (Response (Option (ℤ × F))) × W)
      (callbacks : Callbacks W) where
    -- The valid candidates are those with a chunk among the first sixty-four.
    abbrev pub valid_of : List (Candidate F) → List (Candidate F)
    valid_of candidates = valid_candidates chunk_by_id (take 64 candidates)

    -- A reranking by a GPU, or the candidates as they were; and one attempt more, which says which.
    abbrev pub IsReranked : List (Candidate F) → Session W → Ranking F × Session W → Type 0
    IsReranked candidates s result =
        ((attempt : Attempt) × (result.1.attempts ≡ s.attempts ++ attempt ∷ [])
          × (attempt.operation ≡ "rerank")
          × (((attempt.status ≡ "succeeded")
                × (result.0.mode ≡ "gpu")
                × Ordered (valid_of candidates) result.0.candidates)
              ⊎ ((attempt.status ≡ "failed")
                  × (result.0.candidates ≡ candidates)
                  × ((result.0.mode ≡ "failed") ⊎ (result.0.mode ≡ "unavailable")))))
