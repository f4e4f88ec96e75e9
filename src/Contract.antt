-- ===== src/Contract.antt =====
-- The request contract of inspect_repo: workers/rag-compression/inspection_contract.py, and
-- `normalize_token_budgets` of workers/rag-compression/inspection_pipeline.py.
pub mod Budgets
use local_ai_broker.Prelude.{
  ℕ, String, ◌≡◌, Bool, true, false, List, [], ◌∷◌, contains, str_eq, if◌then◌else◌, ◌||◌,
}
use local_ai_broker.Prelude.Int.{ℤ, pos, negsuc, ltb_ℤ, leb_ℤ}
use local_ai_broker.Prelude.Result.{Result, ok, raise, ◌>>=◌}
use local_ai_broker.Prelude.Text.{is_empty, or_else, lower, strip}

-- What a key of `constraints` holds, as `int()` sees it.
pub data Field : Type 0 where
  missing null : Field
  int : ℤ → Field
  not_int : Field

pub record Constraints : Type 0 where
  pub retrieval_token_budget : Field
  pub retrieved_chunk_budget : Field
  pub evidence_token_budget : Field
  pub final_evidence_pack_budget : Field
  pub final_pack_token_budget : Field
  pub synthesis_context_token_budget : Field
  pub remote_model_context_budget : Field
  pub max_runtime_seconds : Field

pub data ContractError : Type 0 where
  empty_query unknown_mode integer_expected runtime_out_of_range : ContractError
  final_pack_below : ℕ → ContractError
  not_positive : String → ContractError

abbrev pub valid_modes : List String
valid_modes = "auto" ∷ "evidence" ∷ "answer" ∷ []

abbrev pub min_final_pack_tokens : ℕ
min_final_pack_tokens = 2048

abbrev pub min_answer_final_pack_tokens : ℕ
min_answer_final_pack_tokens = 4096

abbrev pub max_runtime_seconds : ℕ
max_runtime_seconds = 86400

-- The query and the mode as texts: `None` is the empty text here.
unfoldable pub validate_request : String → String → Result ContractError (String × String)
unfolding lower strip
validate_request raw_query raw_mode =
    let query = strip raw_query in
    let mode = lower (strip (or_else raw_mode "auto")) in
    if is_empty query
    then raise empty_query
    else if contains mode valid_modes
    then ok (query, mode)
    else raise unknown_mode

-- `constraints.get(first)`, and `constraints.get(second)` where that is `None`
abbrev pub or_if_none : Field → Field → Field
or_if_none missing other = other
or_if_none null other = other
or_if_none field other = field

unfoldable pub minimum_pack : String → ℕ
minimum_pack mode =
    if str_eq mode "answer" then min_answer_final_pack_tokens else min_final_pack_tokens

unfoldable pub check_final_pack : String → Field → Result ContractError (Unit {0})
check_final_pack mode missing = ok tt
check_final_pack mode null = ok tt
check_final_pack mode not_int = raise integer_expected
check_final_pack mode (int n) =
    if ltb_ℤ n (pos (minimum_pack mode))
    then raise (final_pack_below (minimum_pack mode))
    else ok tt

unfoldable pub check_runtime : Field → Result ContractError (Unit {0})
check_runtime missing = ok tt
check_runtime null = ok tt
check_runtime not_int = raise integer_expected
check_runtime (int n) =
    if ltb_ℤ n (pos 0) || ltb_ℤ (pos max_runtime_seconds) n
    then raise runtime_out_of_range
    else ok tt

unfoldable pub validate_constraints : Constraints → String → Result ContractError (Unit {0})
validate_constraints constraints mode =
    check_final_pack mode
      (or_if_none constraints.final_pack_token_budget constraints.final_evidence_pack_budget)
    >>= λ _. check_runtime constraints.max_runtime_seconds

-- `_positive_int`: what `int()` refuses, `None` with it, takes the default.
unfoldable pub positive_int : Field → ℕ → String → Result ContractError ℕ
positive_int (int (pos n)) default name =
    if leb_ℤ (pos n) (pos 0) then raise (not_positive name) else ok n
positive_int (int (negsuc n)) default name = raise (not_positive name)
positive_int field default name =
    if leb_ℤ (pos default) (pos 0) then raise (not_positive name) else ok default

-- `constraints.get(first, constraints.get(second))`: the second is read only where the first is missing.
abbrev pub or_if_missing : Field → Field → Field
or_if_missing missing other = other
or_if_missing field other = field

pub record TokenBudgets : Type 0 where
  pub retrieval_token_budget : ℕ
  pub evidence_token_budget : ℕ
  pub final_pack_token_budget : ℕ
  pub synthesis_context_token_budget : ℕ

unfoldable pub normalize_token_budgets : Constraints → Result ContractError TokenBudgets
normalize_token_budgets c = do
  retrieval ←
      positive_int (or_if_missing c.retrieval_token_budget c.retrieved_chunk_budget) 32000
        "retrieval_token_budget"
  evidence ←
      positive_int (or_if_missing c.evidence_token_budget c.final_evidence_pack_budget) 12000
        "evidence_token_budget"
  final_pack ←
      positive_int (or_if_missing c.final_pack_token_budget c.final_evidence_pack_budget) 8000
        "final_pack_token_budget"
  synthesis ←
      positive_int (or_if_missing c.synthesis_context_token_budget c.remote_model_context_budget)
        16000 "synthesis_context_token_budget"
  ok (record {
    retrieval_token_budget = retrieval;
    evidence_token_budget = evidence;
    final_pack_token_budget = final_pack;
    synthesis_context_token_budget = synthesis;
  })
