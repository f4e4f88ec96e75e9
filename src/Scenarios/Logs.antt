-- ===== src/Scenarios/Logs.antt =====
-- A log of a build, and lines with secrets.
use Prim.Native.String.{◌++◌ as str_append}
use local_ai_broker.Prelude.{String, false, List, [], ◌∷◌, All, ◌≡◌, refl}
use local_ai_broker.Prelude.Search.{drop_prefix, partition, occurs}
use local_ai_broker.LogAnalysis.{redact_loop, redact, analyse}
use local_ai_broker.LogAnalysis.Redact.{redact-hides}
use local_ai_broker.LogAnalysis.Report.{IsReported, analyse-IsReported}

-- The list of tokens decides, not the line: the secret of an earlier place stays.
first_in_the_list : redact "token=abc Bearer xyz" ≡ "token=abc Bearer [REDACTED]"
unfolding redact redact_loop partition drop_prefix
first_in_the_list = refl

abbrev Clean : String → Type 0
Clean line = All (λ t. occurs t line ≡ false) ("Bearer " ∷ "bearer " ∷ [])

abc-Clean : Clean (str_append (str_append "GET /?" "token=") "abc")
unfolding occurs partition drop_prefix
abc-Clean = (refl, (refl, tt))

xyz-Clean : Clean (str_append (str_append "GET /?" "token=") "xyz")
unfolding occurs partition drop_prefix
xyz-Clean = (refl, (refl, tt))

redact-hides_example :
    (redact (str_append (str_append "GET /?" "token=") "abc")
      ≡ redact (str_append (str_append "GET /?" "token=") "xyz"))
    × (shown : String) × (redact (str_append (str_append "GET /?" "token=") "abc")
        ≡ str_append shown (str_append "token=" "[REDACTED]"))
redact-hides_example =
    redact-hides ("Bearer " ∷ "bearer " ∷ []) ("apikey=" ∷ "api_key=" ∷ []) "t" "oken=" "GET /?"
      "abc" "xyz" refl abc-Clean xyz-Clean

abbrev log : List String
log = "make all  " ∷ "ld: undefined reference to f" ∷ "make: Error 1" ∷ []

analyse-IsReported_example : IsReported log (analyse log)
analyse-IsReported_example = analyse-IsReported log
