-- ===== src/Synthesis/Grounded.antt =====
-- What `validate_synthesis` lets through, and so what `synthesize_with_escalation` returns.
use local_ai_broker.Prelude.{
  length-append, ℕ, ◌≤◌, String, Bool, true, false, Option, none, some, List, [], ◌∷◌, ◌++◌,
  contains, ◌==◌, ◌||◌, ◌&&◌, all, length, distinct, ◌≡◌, refl, str_eq, arith, eq_iff, inl, inr,
  Bool-cases, Option-cases,
}
use mathlib.Core.Path.{subst}
use local_ai_broker.Prelude.Result.{ok, Result-cases}
use local_ai_broker.Prelude.Text.{is_empty, strip}
use local_ai_broker.Prelude.Distinct.{member-append, distinct-snoc, str_eq_comm}
use local_ai_broker.Synthesis.Validation.{
  Json, Reply, object, not_object, RawFinding, Finding, Synthesis, unique_from, check_finding,
  check_findings, check_object, validate_synthesis, estimate_tokens,
}

-- The ids of `unique_from` are those of the two lists, each once.
contains-unique_from :
    (x : String) (seen xs : List String)
    → contains x (unique_from seen xs) ≡ (contains x seen || contains x xs)
unfolding unique_from
contains-unique_from x seen [] = ground arith
contains-unique_from x seen (y ∷ ys) = elim (Bool-cases (contains y seen)) [
  | inl h ↦ rw h (ground (arith, contains-unique_from x seen ys, eq_iff x y))
  | inr h ↦ rw h (
      ground
        (arith, contains-unique_from x (seen ++ y ∷ []) ys, member-append str_eq x seen (y ∷ [])))
]

distinct-unique_from :
    (seen xs : List String)
    → distinct str_eq seen ≡ true
    → distinct str_eq (unique_from seen xs) ≡ true
unfolding unique_from
distinct-unique_from seen [] d = d
distinct-unique_from seen (x ∷ xs) d = elim (Bool-cases (contains x seen)) [
  | inl h ↦ rw h (distinct-unique_from seen xs d)
  | inr h ↦
      rw h (distinct-unique_from (seen ++ x ∷ []) xs (distinct-snoc str_eq str_eq_comm seen x d h))
]

all-append : (p : String → Bool) (xs ys : List String) → all p (xs ++ ys) ≡ (all p xs && all p ys)
all-append p [] ys = refl
all-append p (x ∷ xs) ys = ground (arith, all-append p xs ys)

all-unique_from :
    (p : String → Bool) (seen xs : List String)
    → all p seen ≡ true
    → all p xs ≡ true
    → all p (unique_from seen xs) ≡ true
unfolding unique_from
all-unique_from p seen [] hs h = hs
all-unique_from p seen (x ∷ xs) hs h = elim (Bool-cases (contains x seen)) [
  | inl e ↦ rw e (all-unique_from p seen xs hs (ground arith))
  | inr e ↦ rw e (
      all-unique_from p (seen ++ x ∷ []) xs (ground (arith, all-append p seen (x ∷ [])))
        (ground arith))
]

-- The finding stands for the raw one: its summary stripped, its references each once.
abbrev pub Normalizes : List String → Option RawFinding → Finding → Type 0
Normalizes valid_refs raw finding =
    (f : RawFinding) × (raw ≡ some f)
    × ((summary : String) × (f.summary ≡ some summary) × (strip summary ≡ finding.summary))
    × (is_empty finding.summary ≡ false)
    × ((refs : List String) × (f.evidence_refs ≡ some refs)
        × ((x : String) → contains x finding.evidence_refs ≡ contains x refs))
    × (1 ≤ length finding.evidence_refs)
    × (distinct str_eq finding.evidence_refs ≡ true)
    × (all (λ ref. contains ref valid_refs) finding.evidence_refs ≡ true)

abbrev pub Pairwise : {A B : Type 0} → (A → B → Type 0) → List A → List B → Type 0
Pairwise R [] [] = Unit
Pairwise R [] (y ∷ ys) = ⊥
Pairwise R (x ∷ xs) [] = ⊥
Pairwise R (x ∷ xs) (y ∷ ys) = R x y × Pairwise R xs ys

length-unique_from : (seen xs : List String) → 1 ≤ length seen → 1 ≤ length (unique_from seen xs)
unfolding unique_from
length-unique_from seen [] h = h
length-unique_from seen (x ∷ xs) h = elim (Bool-cases (contains x seen)) [
  | inl e ↦ rw e (length-unique_from seen xs h)
  | inr e ↦
      rw e (length-unique_from (seen ++ x ∷ []) xs (omega (arith, length-append seen (x ∷ []))))
]

nonempty-unique_from :
    (xs : List String) → (length xs == 0) ≡ false → 1 ≤ length (unique_from [] xs)
unfolding unique_from
nonempty-unique_from [] h = ground arith
nonempty-unique_from (x ∷ xs) h = length-unique_from (x ∷ []) xs (omega arith)

check_finding-Normalizes :
    (valid_refs : List String) (raw : Option RawFinding) (finding : Finding)
    → check_finding valid_refs raw ≡ ok finding
    → Normalizes valid_refs raw finding
unfolding check_finding
check_finding-Normalizes valid_refs none finding h = cc
check_finding-Normalizes valid_refs (some f) finding h = elim (Option-cases f.summary) [
  | inl e ↦ cc
  | inr (summary, e) ↦ elim (Option-cases f.evidence_refs) [
    | inl e' ↦ ground arith
    | inr (refs, e') ↦
        let spoken : is_empty (strip summary) ≡ false = ground arith in
        let cited : (length refs == 0) ≡ false = ground arith in
        let known : all (λ ref. contains ref valid_refs) refs ≡ true = ground arith in
        let same : record { summary = strip summary; evidence_refs = unique_from [] refs }
            ≡ finding =
          ground arith in
        subst (Normalizes valid_refs (some f)) same (
          f,
          refl,
          (summary, e, refl),
          spoken,
          (refs, e', λ x. contains-unique_from x [] refs),
          nonempty-unique_from refs cited,
          distinct-unique_from [] refs refl,
          all-unique_from (λ ref. contains ref valid_refs) [] refs refl known,
        )
  ]
]

check_findings-Normalizes :
    (valid_refs : List String) (raw : List (Option RawFinding)) (findings : List Finding)
    → check_findings valid_refs raw ≡ ok findings
    → Pairwise (Normalizes valid_refs) raw findings
unfolding check_findings
check_findings-Normalizes valid_refs [] [] h = tt
check_findings-Normalizes valid_refs [] (f ∷ fs) h = ground arith
check_findings-Normalizes valid_refs (r ∷ raw) findings h =
    elim (Result-cases (check_finding valid_refs r)) [
      | inr (e, h₁) ↦ absurd (ground arith)
      | inl (finding, h₁) ↦ elim (Result-cases (check_findings valid_refs raw)) [
        | inr (e, h₂) ↦ absurd (ground arith)
        | inl (rest, h₂) ↦
            let same : (finding ∷ rest) ≡ findings = ground arith in
            subst (Pairwise (Normalizes valid_refs) (r ∷ raw)) same (
              check_finding-Normalizes valid_refs r finding h₁,
              check_findings-Normalizes valid_refs raw rest h₂,
            )
      ]
    ]

-- What a synthesis that was let through is, with the reply it stands for.
abbrev pub IsGrounded : Json → Reply → List String → ℕ → Synthesis → Type 0
IsGrounded json reply valid_refs budget synthesis =
    ((answer : String) × (raw : List (Option RawFinding)) × (reply
        ≡ object (some answer) (some raw))
      × (strip answer ≡ synthesis.answer)
      × (is_empty synthesis.answer ≡ false)
      × (1 ≤ length raw)
      × Pairwise (Normalizes valid_refs) raw synthesis.findings)
    × (all (λ ref. contains ref valid_refs) (json.mentioned_refs reply) ≡ true)
    × (estimate_tokens (json.synthesis_length synthesis) ≤ budget)

check_object-IsGrounded :
    (json : Json) (answer : String) (raw : List (Option RawFinding)) (valid_refs : List String)
    (budget : ℕ) (synthesis : Synthesis)
    → is_empty (strip answer) ≡ false
    → 1 ≤ length raw
    → check_object json (object (some answer) (some raw)) answer raw valid_refs budget
      ≡ ok synthesis
    → IsGrounded json (object (some answer) (some raw)) valid_refs budget synthesis
unfolding check_object
check_object-IsGrounded json answer raw valid_refs budget synthesis spoken found h =
    elim (Result-cases (check_findings valid_refs raw)) [
      | inr (e, h₁) ↦ absurd (ground arith)
      | inl (findings, h₁) ↦
          let reply : Reply = object (some answer) (some raw) in
          let same : record { answer = strip answer; findings = findings } ≡ synthesis =
            ground arith in
          subst (IsGrounded json reply valid_refs budget) same (
            (
              answer,
              raw,
              refl,
              refl,
              spoken,
              found,
              check_findings-Normalizes valid_refs raw findings h₁,
            ),
            ground arith,
            ground arith,
          )
    ]

-- A reply that `validate_synthesis` accepts is an object with a text and a list that is not empty; the
-- synthesis has the text stripped and not empty, and one finding for each of the list, in the same order,
-- with the summary stripped and not empty and with the same references, of which there is at least one,
-- each stands once and each is among the ids of the evidence; every id that the reply mentions is among
-- them; and the JSON text of the synthesis is estimated to be within the budget.
pub validate_synthesis-IsGrounded :
    (json : Json) (reply : Reply) (valid_refs : List String) (budget : ℕ) (synthesis : Synthesis)
    → validate_synthesis json reply valid_refs budget ≡ ok synthesis
    → IsGrounded json reply valid_refs budget synthesis
unfolding validate_synthesis
validate_synthesis-IsGrounded json not_object valid_refs budget synthesis h = cc
validate_synthesis-IsGrounded json (object none findings) valid_refs budget synthesis h = cc
validate_synthesis-IsGrounded json (object (some answer) none) valid_refs budget synthesis h = cc
validate_synthesis-IsGrounded json (object (some answer) (some raw)) valid_refs budget synthesis h =
    check_object-IsGrounded json answer raw valid_refs budget synthesis (ground arith)
      (ground arith) (ground arith)
