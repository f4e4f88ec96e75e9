-- ===== src/LogAnalysis/Redact.antt =====
-- What `redact` hides.
use Prim.Native.String.{◌++◌ as str_append}
use Prim.Native.Char.{Char}
use mathlib.Core.Bool.{true≢false}
use local_ai_broker.Prelude.{
  String, true, false, Option, none, some, List, [], ◌∷◌, ◌++◌, ◌≡◌, refl, sym, ap, ◌∙◌, inl, inr,
  Option-cases, All,
}
use local_ai_broker.Prelude.Search.{partition, occurs, partition-append, partition-own, is_some}
use local_ai_broker.LogAnalysis.{redact_loop, redacted_tokens, redact}

redact_loop-skips :
    (tokens after : List String) (line : String)
    → All (λ token. occurs token line ≡ false) tokens
    → redact_loop (tokens ++ after) line ≡ redact_loop after line
unfolding redact_loop occurs
redact_loop-skips [] after line h = refl
redact_loop-skips (token ∷ tokens) after line h = elim (Option-cases (partition token line)) [
  | inl e ↦ rw (e, redact_loop) (redact_loop-skips tokens after line h.1)
  | inr (found, e) ↦ absurd (true≢false (rw (e, occurs) at h.0))
]

redact_loop-shown :
    (token : String) (later : List String) (line before rest : String)
    → partition token line ≡ some (before, rest)
    → redact_loop (token ∷ later) line ≡ str_append before (str_append token "[REDACTED]")
unfolding redact_loop
redact_loop-shown token later line before rest h = rw (h, redact_loop) refl

is_some-found : {A : Type 0} (o : Option A) → is_some o ≡ true → (a : A) × (o ≡ some a)
is_some-found none h = cc
is_some-found (some a) h = (a, refl)

-- A token that the list of the redacted ones holds hides what follows its first place in a line, where
-- none of the tokens before it in the list is in the line: two lines that are the same up to and with the
-- token are shown alike, and what is shown ends with the token and the mark of the redaction.
pub redact-hides :
    (passed later : List String) (c : Char) (token before secret other : String)
    → redacted_tokens ≡ passed ++ String.◌∷◌ c token ∷ later
    → All
        (λ t. occurs t (str_append (str_append before (String.◌∷◌ c token)) secret) ≡ false)
        passed
    → All (λ t. occurs t (str_append (str_append before (String.◌∷◌ c token)) other) ≡ false) passed
    → (redact (str_append (str_append before (String.◌∷◌ c token)) secret)
        ≡ redact (str_append (str_append before (String.◌∷◌ c token)) other))
      × (shown : String) × (redact (str_append (str_append before (String.◌∷◌ c token)) secret)
          ≡ str_append shown (str_append (String.◌∷◌ c token) "[REDACTED]"))
unfolding redact
redact-hides passed later c token before secret other listed first second =
    let ((shown, rest), e) = is_some-found _ (partition-own c token before) in
    let one = reads secret shown rest first e in
    let two = reads other shown rest second e in (one ∙ sym two, shown, one)
  where
    whole : String
    whole = String.◌∷◌ c token

    reads :
        (text shown rest : String)
        → All (λ t. occurs t (str_append (str_append before whole) text) ≡ false) passed
        → partition whole (str_append before whole) ≡ some (shown, rest)
        → redact (str_append (str_append before whole) text)
          ≡ str_append shown (str_append whole "[REDACTED]")
    reads text shown rest unseen e =
        let line = str_append (str_append before whole) text in
        ap (λ tokens. redact_loop tokens line) listed
        ∙ redact_loop-skips passed (whole ∷ later) line unseen
        ∙ redact_loop-shown whole later line shown (str_append rest text)
            (partition-append whole (str_append before whole) shown rest text e)
