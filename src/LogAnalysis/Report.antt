-- ===== src/LogAnalysis/Report.antt =====
-- What the analysis of a log reports.
use local_ai_broker.Prelude.{
  ℕ, suc, ◌==◌, String, Bool, true, false, none, some, List, [], ◌∷◌, ◌++◌, str_eq, length, take,
  keep, any, when, ◌≡◌, refl, ◌∙◌, sym, ap, if◌then◌else◌, arith, map, Bool-cases, inl, inr,
}
use mathlib.Core.Path.{subst}
use local_ai_broker.Prelude.Membership.{keep-true, keep-false}
use local_ai_broker.Prelude.Text.{text_take}
use local_ai_broker.Prelude.Search.{occurs}
use local_ai_broker.LogAnalysis.{
  Pattern, error_patterns, Finding, matched, or_generic, derive_findings, empty_log, classified,
  build_summary, steps_loop, derive_next_steps, Analysis, analyse, build_timeline, build_excerpt,
  report, redacted, find_failure_line, extract_timestamp,
}
use local_ai_broker.LogAnalysis.Excerpt.{
  excerpt_lines, build_excerpt-lines, IsFailureLine, find_failure_line-IsFailureLine,
}

-- A pattern is seen in a log that has a line with its needle.
abbrev pub seen_in : List String → Pattern → Bool
seen_in lines p = any (λ line. occurs p.needle line) lines

abbrev pub seen_patterns : List String → List Pattern
seen_patterns lines = keep (seen_in lines) error_patterns

-- What is reported for a pattern: nine in ten is the confidence in a severe one, three in four in another.
abbrev pub reported : Pattern → Finding
reported p = record {
  code = p.code;
  severity = p.severity;
  confidence = if str_eq p.severity "high" then 90 else 75;
  next_steps = [];
  evidence_refs = "artifact_log_excerpt" ∷ [];
}

abbrev pub unknown_failure : Finding
unknown_failure = record {
  code = "GENERIC_LOG_FAILURE";
  severity = "medium";
  confidence = 50;
  next_steps = [];
  evidence_refs = "artifact_log_excerpt" ∷ [];
}

abbrev pub unknown_steps : List String
unknown_steps =
    "Inspect the first error-like lines in the log."
    ∷ "Correlate the failure with the surrounding build or test step." ∷ []

abbrev pub all_steps : List Pattern → List String
all_steps [] = []
all_steps (p ∷ ps) = p.next_steps ++ all_steps ps

-- The findings, the summary and the steps of a log of `n` lines, by the patterns that are seen.
abbrev pub IsClassified : List Pattern → ℕ → Analysis → Type 0
IsClassified [] n a =
    (a.top_findings ≡ unknown_failure ∷ [])
    × (a.summary ≡ classified n "GENERIC_LOG_FAILURE")
    × (a.suggested_next_steps ≡ unknown_steps)
IsClassified (p ∷ ps) n a =
    (a.top_findings ≡ map reported (p ∷ ps))
    × (a.summary ≡ classified n p.code)
    × (a.suggested_next_steps ≡ take 5 (all_steps (p ∷ ps)))

-- The two events: the first line, and the last interesting line, or the last line where none is interesting.
abbrev pub HasEvents : String → List String → Analysis → Type 0
HasEvents line lines a =
    (failure : String) × IsFailureLine (line ∷ lines) failure
    × (a.timeline
        ≡ record { phase = "log_start"; timestamp_hint = text_take 32 line }
          ∷ record { phase = "failure"; timestamp_hint = text_take 32 failure }
          ∷ [])

abbrev pub IsReported : List String → Analysis → Type 0
IsReported [] a =
    (a.summary ≡ empty_log)
    × (a.top_findings ≡ [])
    × (a.timeline ≡ [])
    × (a.suggested_next_steps ≡ [])
    × (a.excerpt ≡ none)
IsReported (line ∷ lines) a =
    IsClassified (seen_patterns (line ∷ lines)) (length (line ∷ lines)) a
    × HasEvents line lines a
    × (a.excerpt ≡ some (redacted (excerpt_lines (line ∷ lines))))

-- The findings of patterns, before their steps are taken out.
found : Pattern → Finding
found p = record {
  code = p.code;
  severity = p.severity;
  confidence = if str_eq p.severity "high" then 90 else 75;
  next_steps = p.next_steps;
  evidence_refs = [];
}

-- The patterns whose place in a list of Booleans is true.
choose : List Bool → List Pattern → List Pattern
choose [] ps = []
choose (b ∷ bs) [] = []
choose (b ∷ bs) (p ∷ ps) = when b p ++ choose bs ps

keep-choose : (f : Pattern → Bool) (ps : List Pattern) → keep f ps ≡ choose (map f ps) ps
unfolding choose
keep-choose f [] = refl
keep-choose f (p ∷ ps) = elim (Bool-cases (f p)) [
  | inl there ↦ keep-true f p ps there ∙ rw there (ap (λ l. p ∷ l) (keep-choose f ps))
  | inr absent ↦ keep-false f p ps absent ∙ rw absent (keep-choose f ps)
]

matched-seen :
    (ps : List Pattern) (lines : List String)
    → matched ps lines ≡ map found (keep (seen_in lines) ps)
unfolding matched found
matched-seen [] lines = refl
matched-seen (p ∷ ps) lines = elim (Bool-cases (seen_in lines p)) [
  | inl there ↦
      rw (there, matched)
        (ap (λ l. found p ∷ l) (matched-seen ps lines)
          ∙ ap (map found) (sym (keep-true (seen_in lines) p ps there)))
  | inr absent ↦
      rw (absent, matched)
        (matched-seen ps lines ∙ ap (map found) (sym (keep-false (seen_in lines) p ps absent)))
]

-- The report by which of the four patterns are seen.
chosen-IsClassified :
    (a b c d : Bool) (line : String) (lines : List String)
    → IsClassified (choose (a ∷ b ∷ c ∷ d ∷ []) error_patterns) (length (line ∷ lines)) (
        report (line ∷ lines) (
          take 5
            (or_generic (map found (choose (a ∷ b ∷ c ∷ d ∷ []) error_patterns)) (line ∷ lines))))
unfolding choose found report derive_next_steps steps_loop build_summary
chosen-IsClassified false false false false line lines = (refl, refl, refl)
chosen-IsClassified false false false true line lines = (refl, refl, refl)
chosen-IsClassified false false true false line lines = (refl, refl, refl)
chosen-IsClassified false false true true line lines = (refl, refl, refl)
chosen-IsClassified false true false false line lines = (refl, refl, refl)
chosen-IsClassified false true false true line lines = (refl, refl, refl)
chosen-IsClassified false true true false line lines = (refl, refl, refl)
chosen-IsClassified false true true true line lines = (refl, refl, refl)
chosen-IsClassified true false false false line lines = (refl, refl, refl)
chosen-IsClassified true false false true line lines = (refl, refl, refl)
chosen-IsClassified true false true false line lines = (refl, refl, refl)
chosen-IsClassified true false true true line lines = (refl, refl, refl)
chosen-IsClassified true true false false line lines = (refl, refl, refl)
chosen-IsClassified true true false true line lines = (refl, refl, refl)
chosen-IsClassified true true true false line lines = (refl, refl, refl)
chosen-IsClassified true true true true line lines = (refl, refl, refl)

analyse-IsClassified :
    (line : String) (lines : List String)
    → IsClassified (seen_patterns (line ∷ lines)) (length (line ∷ lines)) (analyse (line ∷ lines))
unfolding analyse derive_findings
analyse-IsClassified line lines =
    let all_lines = line ∷ lines in
    let as_chosen = keep-choose (seen_in all_lines) error_patterns in
    subst
      (λ found_here.
        IsClassified (seen_patterns all_lines) (length all_lines)
          (report all_lines (take 5 (or_generic found_here all_lines))))
      (sym (matched-seen error_patterns all_lines))
      (subst
        (λ ps.
          IsClassified ps (length all_lines)
            (report all_lines (take 5 (or_generic (map found ps) all_lines))))
        (sym as_chosen) (chosen-IsClassified _ _ _ _ line lines))

analyse-events :
    (line : String) (lines : List String) → HasEvents line lines (analyse (line ∷ lines))
unfolding analyse report build_timeline extract_timestamp text_take
analyse-events line lines =
    (find_failure_line (line ∷ lines), find_failure_line-IsFailureLine (line ∷ lines), refl)

nonzero : (n : ℕ) → (suc n == 0) ≡ false
nonzero n = ground arith

report-excerpt :
    (line : String) (lines : List String) (fs : List Finding)
    → (report (line ∷ lines) (take 5 (or_generic fs (line ∷ lines)))).excerpt
      ≡ some (build_excerpt (line ∷ lines))
unfolding report
report-excerpt line lines [] = refl
report-excerpt line lines (f ∷ fs) = rw (nonzero (length (take 4 fs))) refl

analyse-excerpt :
    (line : String) (lines : List String)
    → (analyse (line ∷ lines)).excerpt ≡ some (redacted (excerpt_lines (line ∷ lines)))
unfolding analyse derive_findings
analyse-excerpt line lines =
    report-excerpt line lines (matched error_patterns (line ∷ lines))
    ∙ ap some (build_excerpt-lines (line ∷ lines))

-- A log without a line is reported as empty, with no findings, events, steps and excerpt. Of any other log the
-- findings are those of exactly the patterns whose needle stands in a line, in the order of the patterns, or
-- else the generic one; the first of them is the primary code of the summary, and the steps are the first
-- five of theirs. The timeline has the first line and the failure line, which is the last interesting line, or
-- the last line where none is interesting, each by its first 32 characters. The excerpt has, redacted, the
-- first twenty interesting lines, or the first twenty lines where none is interesting.
pub analyse-IsReported : (lines : List String) → IsReported lines (analyse lines)
unfolding analyse derive_next_steps
analyse-IsReported [] = (refl, refl, refl, refl, refl)
analyse-IsReported (line ∷ lines) =
    (analyse-IsClassified line lines, analyse-events line lines, analyse-excerpt line lines)
