-- ===== src/Synthesis/Validation.antt =====
-- `validate_synthesis` of inspection_pipeline.py.
use local_ai_broker.Prelude.{
  ℕ, ◌+◌, ◌/◌, String, not, Option, none, some, List, [], ◌∷◌, ◌++◌, contains, ltb, ◌==◌,
  if◌then◌else◌, ◌||◌, all, max, length,
}
use local_ai_broker.Prelude.Result.{Result, ok, raise}
use local_ai_broker.Prelude.Text.{is_empty, strip}
use local_ai_broker.Synthesis.Attempts.{GpuError, gpu_error}

-- The reply of a chat: what `validate_synthesis` distinguishes in it.
pub record RawFinding : Type 0 where
  pub summary : Option String
  pub evidence_refs : Option (List String)

pub data Reply : Type 0 where
  not_object : Reply
  object : (answer : Option String) (findings : Option (List (Option RawFinding))) → Reply

pub record Finding : Type 0 where
  pub summary : String
  pub evidence_refs : List String

pub record Synthesis : Type 0 where
  pub answer : String
  pub findings : List Finding

-- `list(dict.fromkeys(refs))`
unfoldable pub unique_from : List String → List String → List String
unique_from seen [] = seen
unique_from seen (x ∷ xs) = unique_from (if contains x seen then seen else seen ++ x ∷ []) xs

abbrev invalid : String → {A : Type 0} → Result GpuError A
invalid message = raise (gpu_error "invalid_synthesis" message)

abbrev unsupported : String → {A : Type 0} → Result GpuError A
unsupported message = raise (gpu_error "unsupported_claim" message)

-- The body of the loop over the findings.
unfoldable pub check_finding : List String → Option RawFinding → Result GpuError Finding
unfolding unique_from strip
check_finding valid_refs none = invalid "every finding requires a non-empty summary"
check_finding valid_refs (some finding) = elim finding.summary [
  | none ↦ invalid "every finding requires a non-empty summary"
  | some summary ↦
      if is_empty (strip summary)
      then invalid "every finding requires a non-empty summary"
      else elim finding.evidence_refs [
        | none ↦ unsupported "every finding must cite released evidence"
        | some refs ↦
            if length refs == 0
            then unsupported "every finding must cite released evidence"
            else if not (all (λ ref. contains ref valid_refs) refs)
            then unsupported "finding cites unknown evidence ids"
            else ok (record { summary = strip summary; evidence_refs = unique_from [] refs })
      ]
]

unfoldable pub check_findings :
    List String → List (Option RawFinding) → Result GpuError (List Finding)
check_findings valid_refs [] = ok []
check_findings valid_refs (f ∷ fs) = elim (check_finding valid_refs f) [
  | raise e ↦ raise e
  | ok finding ↦ elim (check_findings valid_refs fs) [
    | raise e ↦ raise e
    | ok findings ↦ ok (finding ∷ findings)
  ]
]

-- `max(1, (len(value) + 2) // 3)` of a text of that length
abbrev pub estimate_tokens : ℕ → ℕ
estimate_tokens characters = max 1 ((characters + 2) / 3)

-- `_synthesis_messages`: the query, the released evidence, and the error that the feedback quotes.
pub record Messages : Type 0 where
  pub query : String
  pub evidence_ids : List String
  pub feedback : Option GpuError

-- `re.findall(r"\bev_\d+\b", json.dumps(response))`, and the lengths of the JSON texts.
pub record Json : Type 0 where
  pub mentioned_refs : Reply → List String
  pub synthesis_length : Synthesis → ℕ
  pub messages_length : Messages → ℕ

-- From the check of the findings on.
unfoldable pub check_object :
    Json → Reply → String → List (Option RawFinding) → List String → ℕ → Result GpuError Synthesis
unfolding strip
check_object json reply answer findings valid_refs budget =
    elim (check_findings valid_refs findings) [
      | raise e ↦ raise e
      | ok normalized_findings ↦
          if not (all (λ ref. contains ref valid_refs) (json.mentioned_refs reply))
          then unsupported "output mentions unknown evidence ids"
          else let normalized : Synthesis = record {
            answer = strip answer;
            findings = normalized_findings;
          } in
            if ltb budget (estimate_tokens (json.synthesis_length normalized))
            then raise (
                gpu_error "model_limit"
                  "synthesis output exceeds the remaining final_pack_token_budget")
            else ok normalized
    ]

unfoldable pub validate_synthesis : Json → Reply → List String → ℕ → Result GpuError Synthesis
unfolding strip
validate_synthesis json not_object valid_refs budget =
    invalid "synthesis output must be a JSON object"
validate_synthesis json (object none findings) valid_refs budget =
    invalid "synthesis output requires a non-empty answer and findings"
validate_synthesis json (object (some answer) none) valid_refs budget =
    invalid "synthesis output requires a non-empty answer and findings"
validate_synthesis json (object (some answer) (some findings)) valid_refs budget =
    if is_empty (strip answer) || length findings == 0
    then invalid "synthesis output requires a non-empty answer and findings"
    else check_object json (object (some answer) (some findings)) answer findings valid_refs budget
