-- ===== src/Contract/Budgets.antt =====
-- What the checks of a request guarantee to the stages behind them.
use local_ai_broker.Prelude.{ℕ, ◌≤◌, ◌<◌, String, ◌≡◌, arith, inl, inr}
use local_ai_broker.Prelude.Int.{pos, negsuc}
use local_ai_broker.Prelude.Result.{ok, Result-cases}
use local_ai_broker.Contract.{
  Field, missing, null, int, not_int, Constraints, TokenBudgets, or_if_none, or_if_missing,
  minimum_pack, check_final_pack, validate_constraints, positive_int, normalize_token_budgets,
}

positive_int-pos :
    (field : Field) (default : ℕ) (name : String) {n : ℕ}
    → positive_int field default name ≡ ok n
    → 0 < n
unfolding positive_int
positive_int-pos (int (pos n)) default name h = ground arith
positive_int-pos (int (negsuc n)) default name h = ground arith
positive_int-pos missing default name h = ground arith
positive_int-pos null default name h = ground arith
positive_int-pos not_int default name h = ground arith

pub record IsPositive (b : TokenBudgets) : Type 0 where
  pub retrieval : 0 < b.retrieval_token_budget
  pub evidence : 0 < b.evidence_token_budget
  pub final_pack : 0 < b.final_pack_token_budget
  pub synthesis : 0 < b.synthesis_context_token_budget

-- The four budgets by their fields, in one step each.
pub record Normalized (c : Constraints) (b : TokenBudgets) : Type 0 where
  pub retrieval :
      positive_int
        (or_if_missing c.retrieval_token_budget c.retrieved_chunk_budget)
        32000
        "retrieval_token_budget"
      ≡ ok b.retrieval_token_budget
  pub evidence :
      positive_int
        (or_if_missing c.evidence_token_budget c.final_evidence_pack_budget)
        12000
        "evidence_token_budget"
      ≡ ok b.evidence_token_budget
  pub final_pack :
      positive_int
        (or_if_missing c.final_pack_token_budget c.final_evidence_pack_budget)
        8000
        "final_pack_token_budget"
      ≡ ok b.final_pack_token_budget
  pub synthesis :
      positive_int
        (or_if_missing c.synthesis_context_token_budget c.remote_model_context_budget)
        16000
        "synthesis_context_token_budget"
      ≡ ok b.synthesis_context_token_budget

pub normalize_inversion :
    (c : Constraints) (b : TokenBudgets) → normalize_token_budgets c ≡ ok b → Normalized c b
unfolding normalize_token_budgets
normalize_inversion c b h = record {
  retrieval = ground arith;
  evidence = ground arith;
  final_pack = ground arith;
  synthesis = ground arith;
}

-- The budgets that normalization returns are all positive.
normalize-IsPositive :
    (c : Constraints) (b : TokenBudgets) → normalize_token_budgets c ≡ ok b → IsPositive b
normalize-IsPositive c b h =
    let n = normalize_inversion c b h in
    record {
      retrieval = positive_int-pos _ 32000 _ n.retrieval;
      evidence = positive_int-pos _ 12000 _ n.evidence;
      final_pack = positive_int-pos _ 8000 _ n.final_pack;
      synthesis = positive_int-pos _ 16000 _ n.synthesis;
    }

minimum_pack-le : (mode : String) → minimum_pack mode ≤ 4096
unfolding minimum_pack
minimum_pack-le mode = ground arith

-- A field that passed the check normalizes to the minimum at least, by its default or its value.
positive_int_minimum :
    (mode : String) (first second : Field) {n : ℕ}
    → check_final_pack mode (or_if_none first second) ≡ ok tt
    → positive_int (or_if_missing first second) 8000 "final_pack_token_budget" ≡ ok n
    → minimum_pack mode ≤ n
unfolding check_final_pack positive_int
positive_int_minimum mode missing missing h p = ground (arith, minimum_pack-le mode)
positive_int_minimum mode missing null h p = ground (arith, minimum_pack-le mode)
positive_int_minimum mode missing not_int h p = ground (arith, minimum_pack-le mode)
positive_int_minimum mode missing (int (pos k)) h p = ground (arith, minimum_pack-le mode)
positive_int_minimum mode missing (int (negsuc k)) h p = ground (arith, minimum_pack-le mode)
positive_int_minimum mode null second h p = ground (arith, minimum_pack-le mode)
positive_int_minimum mode not_int second h p = ground (arith, minimum_pack-le mode)
positive_int_minimum mode (int (pos k)) second h p = ground (arith, minimum_pack-le mode)
positive_int_minimum mode (int (negsuc k)) second h p = ground (arith, minimum_pack-le mode)

-- Constraints that the contract accepts for a mode, and that normalize, give four positive
-- budgets, and a final pack of at least the mode's minimum.
pub validated_budgets :
    (c : Constraints) (mode : String) (b : TokenBudgets)
    → validate_constraints c mode ≡ ok tt
    → normalize_token_budgets c ≡ ok b
    → IsPositive b × (minimum_pack mode ≤ b.final_pack_token_budget)
unfolding validate_constraints
validated_budgets c mode b valid normal =
    elim (Result-cases
      (check_final_pack mode (or_if_none c.final_pack_token_budget c.final_evidence_pack_budget))) [
        | inr (e, refused) ↦ ground arith
        | inl (u, checked) ↦ (
          normalize-IsPositive c b normal,
          positive_int_minimum mode c.final_pack_token_budget c.final_evidence_pack_budget checked
              (normalize_inversion c b normal).final_pack,
        )
      ]
