-- ===== src/Endpoint.antt =====
-- The choice of a GPU endpoint from the registry's records: the health, capability and selection functions
-- of workers/rag-compression/gpu_client.py.
pub mod Selected
pub mod Published
use local_ai_broker.Prelude.{
  ℕ, ◌+◌, ◌*◌, String, Bool, true, false, not, Option, none, some, List, [], ◌∷◌, map, str_eq,
  contains, ltb, leb, ◌==◌, min, max, if◌then◌else◌, ◌&&◌, ◌||◌, keep, sort_by,
}
use local_ai_broker.Prelude.TextOrder.{str_lt}
use local_ai_broker.Prelude.Text.{is_empty, or_else, lower}
use local_ai_broker.Service.{
  Stamp, Url, Names, one, many, Service, year_two, second, or_stamp, or_number,
}

-- `_effective_lease_expiry`
unfoldable pub effective_lease_expiry : Service → Option ℕ
effective_lease_expiry r = elim (or_stamp r.lease_expires_at r.lease_expires).time [
  | none ↦ none
  | some lease ↦ elim r.absolute_lease_expires_at.time [
    | none ↦ some lease
    | some absolute ↦ if ltb absolute year_two then some lease else some (min lease absolute)
  ]
]

abbrev pub endpoint_url : Service → Url
endpoint_url r = if is_empty r.endpoint.text then r.base_url else r.endpoint

abbrev pub is_false : Option Bool → Bool
is_false (some false) = true
is_false _ = false

-- `max(1, float(health_interval_seconds or 15)) * 3` in microseconds; 0 is no interval.
unfoldable pub max_age : ℕ → ℕ
max_age interval = max second (or_number interval (15 * second)) * 3

-- Alive at a time: the lease is not over, and the heartbeat is not too old.
unfoldable pub is_current : ℕ → ℕ → Service → Bool
is_current now interval r = elim (effective_lease_expiry r) [
  | none ↦ false
  | some lease ↦ if leb lease now then false else elim r.heartbeat_at.time [
    | none ↦ false
    | some heartbeat ↦ not (ltb (heartbeat + max_age interval) now)
  ]
]

unfoldable pub endpoint_is_healthy : ℕ → ℕ → Service → Bool
endpoint_is_healthy now interval r =
    if not (str_eq (lower r.state) "ready")
    then false
    else if is_false r.healthy || not (is_empty r.health_error)
    then false
    else if not (contains (endpoint_url r).scheme ("http" ∷ "https" ∷ []))
        || is_empty (endpoint_url r).hostname
    then false
    else if not (str_eq (lower r.auth_type) "bearer") || is_empty r.bearer_token
    then false
    else is_current now interval r

-- `values = record.get("capabilities") or record.get("operations") or []`
abbrev pub names_list : Names → List String
names_list (one name) = if is_empty name then [] else name ∷ []
names_list (many names) = names

abbrev pub or_list : List String → List String → List String
or_list [] other = other
or_list (x ∷ xs) other = x ∷ xs

unfoldable pub canonical : String → String
canonical value =
    if contains value ("embeddings" ∷ "embedding" ∷ [])
    then "embed"
    else if str_eq value "reranking"
    then "rerank"
    else if contains value ("faiss_search" ∷ "vector_search" ∷ "semantic_search" ∷ [])
    then "search"
    else if contains value ("chat_completions" ∷ "chat_completion" ∷ "synthesis" ∷ [])
    then "chat"
    else value

unfoldable pub endpoint_capabilities : Service → List String
endpoint_capabilities r =
    map (λ value. canonical (lower value))
      (or_list (names_list r.capabilities) (names_list r.operations))

-- The key of the sort is `(lease_expires_at, id)` as texts; the sort is descending and stable.
unfoldable pub sorts_before : Service → Service → Bool
sorts_before a b =
    str_lt b.lease_expires_at.text a.lease_expires_at.text
    || (str_eq b.lease_expires_at.text a.lease_expires_at.text && str_lt b.id a.id)

-- The tests of the loop in `select_endpoint`; no expected count is none.
unfoldable pub is_candidate : ℕ → ℕ → String → String → Option ℕ → Service → Bool
is_candidate now interval tier capability expected_gpu_count r =
    let capabilities = endpoint_capabilities r in
    str_eq r.tier tier
    && endpoint_is_healthy now interval r
    && (contains capability capabilities || elim capabilities [ [] ↦ true | _ ↦ false ])
    && elim expected_gpu_count [ none ↦ true | some count ↦ r.gpu_count == count ]

abbrev pub first : {A : Type 0} → List A → Option A
first [] = none
first (x ∷ xs) = some x

-- The clock is read once for the whole loop.
unfoldable pub select_endpoint : ℕ → ℕ → List Service → String → String → Option ℕ → Option Service
select_endpoint now interval services tier capability expected_gpu_count = first (
    sort_by sorts_before
      (keep (is_candidate now interval tier capability expected_gpu_count) services))
