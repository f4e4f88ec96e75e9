-- ===== src/Retrieval.antt =====
-- How the client of a GPU service reads the answers of a rerank and of a search: `rerank` and `semantic_search` of
-- workers/rag-compression/gpu_client.py, and `classify_failure`. A score is of any type `F`. An item of a
-- response is none where it is no object, or where `int` or `float` refuses what it holds.
pub mod Scored
pub mod Searched
use local_ai_broker.Prelude.{
  ℕ, zero, suc, String, Bool, true, false, Option, none, some, List, [], ◌∷◌, contains, any, not,
  length, take, if◌then◌else◌, ◌||◌, ◌&&◌, ◌==◌, leb,
}
use local_ai_broker.Prelude.Int.{ℤ, pos, negsuc}
use local_ai_broker.Prelude.Result.{Result, ok, raise, ◌>>=◌}
use local_ai_broker.Prelude.Search.{occurs}
use local_ai_broker.Prelude.Text.{lower, is_empty}
use local_ai_broker.Synthesis.Attempts.{GpuError, gpu_error}

-- What a key of a response holds: a list, or something else, which `or` may pass over.
pub data Listed (A : Type 0) : Type 0 where
  falsy other : Listed A
  listed : List A → Listed A

abbrev pub or_listed : {A : Type 0} → Listed A → Listed A → Listed A
or_listed falsy second = second
or_listed (listed []) second = second
or_listed other second = other
or_listed (listed (x ∷ xs)) second = listed (x ∷ xs)

pub record Response (A : Type 0) : Type 0 where
  pub results : Listed A
  pub response_data : Listed A

abbrev pub service_failure : {A : Type 0} → String → Result GpuError A
service_failure message = raise (gpu_error "service_failure" message)

unfoldable pub items_of : {A : Type 0} → String → Response A → Result GpuError (List A)
items_of message response = elim (or_listed response.results response.response_data) [
  | listed items ↦ ok items
  | falsy ↦ service_failure message
  | other ↦ service_failure message
]

module _ {F : Type 0} where
  abbrev pub set_score : ℕ → F → List (Option F) → List (Option F)
  set_score i score [] = []
  set_score zero score (s ∷ scores) = some score ∷ scores
  set_score (suc i) score (s ∷ scores) = s ∷ set_score i score scores

  unfoldable pub score_loop : List (Option (ℤ × F)) → List (Option F) → List (Option F)
  score_loop [] scores = scores
  score_loop (none ∷ items) scores = score_loop items scores
  score_loop (some (pos i, score) ∷ items) scores = score_loop items (set_score i score scores)
  score_loop (some (negsuc n, score) ∷ items) scores = score_loop items scores

  abbrev pub unscored : ℕ → List (Option F)
  unscored zero = []
  unscored (suc n) = none ∷ unscored n

  -- Every score, or none where one is missing.
  unfoldable pub every_score : List (Option F) → Option (List F)
  every_score [] = some []
  every_score (none ∷ scores) = none
  every_score (some score ∷ scores) = elim (every_score scores) [
    | some rest ↦ some (score ∷ rest)
    | none ↦ none
  ]

  -- `rerank`, from the response to a request of that many documents.
  unfoldable pub rerank : Response (Option (ℤ × F)) → ℕ → Result GpuError (List F)
  rerank response documents = do
    items ← items_of "rerank response is missing results" response
    elim (every_score (score_loop items (unscored documents))) [
      | some scores ↦ ok scores
      | none ↦ service_failure "rerank response does not score every candidate"
    ]

-- An item of a search; the score is none where `float` refuses it.
pub record Hit (F : Type 0) : Type 0 where
  pub chunk_id : String
  pub score : Option F

pub record Found (F : Type 0) : Type 0 where
  pub chunk_id : String
  pub score : F
  pub rank : ℕ

module _ {F : Type 0} (requested_ids : List String) where
  unfoldable pub search_loop :
      ℕ → List String → List (Option (Hit F)) → Result GpuError (List (Found F))
  search_loop index seen [] = ok []
  search_loop index seen (none ∷ items) = search_loop (suc index) seen items
  search_loop index seen (some hit ∷ items) =
      let skipped = search_loop (suc index) seen items in
      let later = search_loop (suc index) (hit.chunk_id ∷ seen) items in
      if is_empty hit.chunk_id
      then skipped
      else if not (contains hit.chunk_id requested_ids)
      then service_failure "semantic search returned an unknown chunk id"
      else if contains hit.chunk_id seen
      then service_failure "semantic search returned a duplicate chunk id"
      else elim hit.score [
        | none ↦ service_failure "semantic search returned an invalid score"
        | some score ↦ later >>= λ ranked.
            ok (record { chunk_id = hit.chunk_id; score = score; rank = index } ∷ ranked)
      ]

  unfoldable pub semantic_search : Response (Option (Hit F)) → ℕ → Result GpuError (List (Found F))
  semantic_search response limit = do
    items ← items_of "semantic search response is missing results" response
    ranked ← search_loop 1 [] items
    ok (take limit ranked)

-- `classify_failure`, with the status of an HTTP error where there is one.
unfoldable pub classify_failure : String → Option ℕ → String
classify_failure message status_code =
    let text = lower message in
    let status : ℕ → Bool = λ code. elim status_code [ none ↦ false | some s ↦ s == code ] in
    let mentions : List String → Bool = λ terms. any (λ term. occurs term text) terms in
    if status 401 || status 403 || mentions ("unauthorized" ∷ "forbidden" ∷ [])
    then "authentication"
    else if status 429 || mentions ("queue" ∷ "capacity" ∷ "unavailable" ∷ [])
    then "availability"
    else if mentions ("timed out" ∷ "timeout" ∷ "deadline" ∷ [])
    then "timeout"
    else if mentions ("out of memory" ∷ "cuda oom" ∷ "oom" ∷ [])
    then "oom"
    else if mentions ("context" ∷ [])
        && mentions ("length" ∷ "window" ∷ "overflow" ∷ "maximum" ∷ [])
    then "context_overflow"
    else if mentions ("model" ∷ []) && mentions ("limit" ∷ "unsupported" ∷ "too large" ∷ [])
    then "model_limit"
    else "service_failure"
