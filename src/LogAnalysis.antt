-- ===== src/LogAnalysis.antt =====
-- The analysis of a log, workers/log-analysis/main.py: `derive_findings`, `build_summary`, `build_timeline`,
-- `derive_next_steps`, `build_excerpt`, `looks_interesting`, `redact`, `extract_timestamp` and
-- `find_failure_line`, as its `main` puts them together.
-- A log is the list of its lines; none of the needles has a line break, so that they stand in the joined
-- text where they stand in a line.
pub mod Redact
pub mod Report
pub mod Excerpt
pub mod Aggregate
use Prim.Native.String.{◌++◌ as str_append}
use local_ai_broker.Prelude.{
  ℕ, zero, suc, String, Bool, true, false, Option, none, some, List, [], ◌∷◌, ◌++◌, str_eq, ◌==◌,
  if◌then◌else◌, length, contains, member, take, any, map,
}
use local_ai_broker.Prelude.Text.{lower, rstrip, text_take}
use local_ai_broker.Prelude.Search.{partition, occurs}

pub record Pattern : Type 0 where
  pub code : String
  pub needle : String
  pub severity : String
  pub next_steps : List String

abbrev pub error_patterns : List Pattern
error_patterns =
    record {
      code = "MISSING_GENERATED_HEADER";
      needle = "fatal error:";
      severity = "high";
      next_steps =
          "Run the code generation step before compiling."
          ∷ "Verify generated include paths are available to the compiler." ∷ [];
    }
    ∷ record {
      code = "UNDEFINED_REFERENCE";
      needle = "undefined reference";
      severity = "high";
      next_steps =
          "Check linker inputs and library ordering."
          ∷ "Confirm the missing symbol is built for the current target." ∷ [];
    }
    ∷ record {
      code = "MODULE_NOT_FOUND";
      needle = "ModuleNotFoundError";
      severity = "medium";
      next_steps =
          "Install the missing dependency in the runtime environment."
          ∷ "Verify the correct Python environment is active." ∷ [];
    }
    ∷ record {
      code = "TEST_FAILURE";
      needle = "FAILED";
      severity = "medium";
      next_steps =
          "Inspect the first failing test and its setup path."
          ∷ "Compare the failing environment with a known-good run." ∷ [];
    }
    ∷ []

-- The confidence in hundredths.
pub record Finding : Type 0 where
  pub code : String
  pub severity : String
  pub confidence : ℕ
  pub next_steps : List String
  pub evidence_refs : List String

unfoldable pub matched : List Pattern → List String → List Finding
matched [] lines = []
matched (p ∷ ps) lines =
    let rest = matched ps lines in
    if any (occurs p.needle) lines
    then record {
      code = p.code;
      severity = p.severity;
      confidence = if str_eq p.severity "high" then 90 else 75;
      next_steps = p.next_steps;
      evidence_refs = [];
    }
      ∷ rest
    else rest

abbrev pub generic_failure : Finding
generic_failure = record {
  code = "GENERIC_LOG_FAILURE";
  severity = "medium";
  confidence = 50;
  next_steps =
      "Inspect the first error-like lines in the log."
      ∷ "Correlate the failure with the surrounding build or test step." ∷ [];
  evidence_refs = [];
}

-- `if not findings and lines`
abbrev pub or_generic : List Finding → List String → List Finding
or_generic [] [] = []
or_generic [] (line ∷ lines) = generic_failure ∷ []
or_generic (f ∷ fs) lines = f ∷ fs

unfoldable pub derive_findings : List String → List Finding
unfolding matched
derive_findings lines = take 5 (or_generic (matched error_patterns lines) lines)

-- The summary, with the number of lines and the primary code in place of the text that holds them.
pub data Summary : Type 0 where
  empty_log : Summary
  classified : (line_count : ℕ) (primary : String) → Summary
  unclassified : (line_count : ℕ) → Summary

unfoldable pub build_summary : List String → List Finding → Summary
build_summary [] findings = empty_log
build_summary (line ∷ lines) [] = unclassified (length (line ∷ lines))
build_summary (line ∷ lines) (f ∷ fs) = classified (length (line ∷ lines)) f.code

abbrev pub add_steps : List String → List String → List String
add_steps steps [] = steps
add_steps steps (s ∷ more) = add_steps (if contains s steps then steps else steps ++ s ∷ []) more

unfoldable pub steps_loop : List String → List Finding → List String
steps_loop steps [] = steps
steps_loop steps (f ∷ fs) = steps_loop (add_steps steps f.next_steps) fs

abbrev pub without_steps : Finding → Finding
without_steps f = record f { next_steps = [] }

-- The steps are taken out of the findings.
unfoldable pub derive_next_steps : List Finding → List String × List Finding
unfolding steps_loop
derive_next_steps findings = (take 5 (steps_loop [] findings), map without_steps findings)

abbrev pub interesting_tokens : List String
interesting_tokens = "error" ∷ "failed" ∷ "exception" ∷ "fatal" ∷ "undefined" ∷ []

unfoldable pub looks_interesting : String → Bool
unfolding lower occurs
looks_interesting line = any (λ token. occurs token (lower line)) interesting_tokens

abbrev pub redacted_tokens : List String
redacted_tokens = "Bearer " ∷ "bearer " ∷ "token=" ∷ "apikey=" ∷ "api_key=" ∷ []

unfoldable pub redact_loop : List String → String → String
unfolding partition
redact_loop [] line = line
redact_loop (token ∷ tokens) line =
    let later = redact_loop tokens line in
    elim (partition token line) [
      | some (before, rest) ↦ str_append before (str_append token "[REDACTED]")
      | none ↦ later
    ]

unfoldable pub redact : String → String
unfolding redact_loop
redact line = redact_loop redacted_tokens line

abbrev pub extract_timestamp : String → String
unfolding text_take
extract_timestamp line = text_take 32 line

abbrev pub last_or : String → List String → String
last_or line [] = line
last_or line (l ∷ ls) = last_or l ls

-- `find_failure_line`: the last line that looks interesting, or the last line, or an empty text.
unfoldable pub last_interesting : List String → Option String
last_interesting [] = none
last_interesting (line ∷ lines) = elim (last_interesting lines) [
  | some later ↦ some later
  | none ↦ if looks_interesting line then some line else none
]

unfoldable pub find_failure_line : List String → String
find_failure_line lines = elim (last_interesting lines) [
  | some line ↦ line
  | none ↦ last_or "" lines
]

pub record Event : Type 0 where
  pub phase : String
  pub timestamp_hint : String

unfoldable pub build_timeline : List String → List Event
unfolding find_failure_line
build_timeline [] = []
build_timeline (line ∷ lines) =
    record { phase = "log_start"; timestamp_hint = extract_timestamp line }
    ∷ record {
      phase = "failure";
      timestamp_hint = extract_timestamp (find_failure_line (line ∷ lines));
    }
    ∷ []

-- The lines of the excerpt, which the source joins.
unfoldable pub excerpt_loop : List String → List String → List String
excerpt_loop excerpt [] = excerpt
excerpt_loop excerpt (line ∷ lines) =
    let shown = if looks_interesting line then excerpt ++ redact (rstrip line) ∷ [] else excerpt in
    let later = excerpt_loop shown lines in if length shown == 20 then shown else later

abbrev pub redacted : List String → List String
redacted lines = map (λ line. redact (rstrip line)) lines

unfoldable pub build_excerpt : List String → List String
build_excerpt lines = elim (excerpt_loop [] lines) [
  | [] ↦ redacted (take 20 lines)
  | l ∷ ls ↦ l ∷ ls
]

-- The result of one log: `main`, with the text of the excerpt as its lines.
pub record Analysis : Type 0 where
  pub summary : Summary
  pub top_findings : List Finding
  pub timeline : List Event
  pub suggested_next_steps : List String
  pub excerpt : Option (List String)

abbrev pub with_reference : Finding → Finding
with_reference f = record f { evidence_refs = "artifact_log_excerpt" ∷ [] }

unfoldable pub report : List String → List Finding → Analysis
report lines findings =
    let (steps, stripped) = derive_next_steps findings in
    record {
      summary = build_summary lines findings;
      top_findings = map with_reference stripped;
      timeline = build_timeline lines;
      suggested_next_steps = steps;
      excerpt = if length findings == 0 then none else some (build_excerpt lines);
    }

unfoldable pub analyse : List String → Analysis
unfolding report derive_findings build_summary build_timeline derive_next_steps
analyse lines = report lines (derive_findings lines)
