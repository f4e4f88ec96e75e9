-- ===== src/Prelude/Search.antt =====
-- Looking for a text in another: `str.startswith`, `str.partition` and `in`, with how they treat what is appended.
use Prim.Native.Char.{Char, code}
use Prim.Native.String.{String, ◌++◌ as str_append}
use Prim.Native.String.append
use mathlib.Core.Path.{◌≡◌, refl, sym, ap, ◌∙◌}
use mathlib.Core.Bool.{Bool, true, false}
use mathlib.Core.Logic.{inl, inr}
use mathlib.Core.Option.{Option, none, some, none-ne-some}
use mathlib.Core.Option
use native.Mathlib.Omega.{arith}
use local_ai_broker.Prelude.Tests.{◌==◌, if◌then◌else◌, Bool-cases, Option-cases}

-- `text[len(prefix):]` where `text.startswith(prefix)`
unfoldable pub drop_prefix : (prefix text : String) → Option String
drop_prefix String.[] text = some text
drop_prefix (String.◌∷◌ c prefix) String.[] = none
drop_prefix (String.◌∷◌ c prefix) (String.◌∷◌ d text) =
    let rest = drop_prefix prefix text in if code c == code d then rest else none

-- One character of `partition`: whether the token stands here, or else where it stands later.
abbrev partition_step : Char → Option String → Option (String × String) → Option (String × String)
partition_step c (some rest) later = some (String.[], rest)
partition_step c none (some (before, rest)) = some (String.◌∷◌ c before, rest)
partition_step c none none = none

-- `text.partition(token)`, for a token that is not empty: what stands before its first place, and what behind.
unfoldable pub partition : (token text : String) → Option (String × String)
unfolding drop_prefix
partition token String.[] = none
partition token (String.◌∷◌ c text) =
    partition_step c (drop_prefix token (String.◌∷◌ c text)) (partition token text)

abbrev pub is_some {ℓ} : {A : Type ℓ} → Option A → Bool
is_some none = false
is_some (some x) = true

-- `token in text`
unfoldable pub occurs : (token text : String) → Bool
unfolding partition
occurs token text = is_some (partition token text)

-- A text is as long as the prefix.
abbrev Fits : (prefix text : String) → Type 0
Fits String.[] text = Unit
Fits (String.◌∷◌ c prefix) String.[] = ⊥
Fits (String.◌∷◌ c prefix) (String.◌∷◌ d text) = Fits prefix text

Fits-cons : (prefix text : String) (d : Char) → Fits prefix text → Fits prefix (String.◌∷◌ d text)
Fits-cons String.[] text d f = tt
Fits-cons (String.◌∷◌ c prefix) String.[] d f = absurd f
Fits-cons (String.◌∷◌ c prefix) (String.◌∷◌ e text) d f = Fits-cons prefix text e f

drop_prefix-Fits :
    (prefix text rest : String) → drop_prefix prefix text ≡ some rest → Fits prefix text
unfolding drop_prefix
drop_prefix-Fits String.[] text rest h = tt
drop_prefix-Fits (String.◌∷◌ c prefix) String.[] rest h = cc
drop_prefix-Fits (String.◌∷◌ c prefix) (String.◌∷◌ d text) rest h =
    drop_prefix-Fits prefix text rest (ground arith)

drop_prefix-append :
    (prefix text more : String)
    → Fits prefix text
    → drop_prefix prefix (str_append text more)
      ≡ Option.map (λ rest. str_append rest more) (drop_prefix prefix text)
unfolding drop_prefix
drop_prefix-append String.[] text more f = refl
drop_prefix-append (String.◌∷◌ c prefix) String.[] more f = absurd f
drop_prefix-append (String.◌∷◌ c prefix) (String.◌∷◌ d text) more f =
    ap (drop_prefix (String.◌∷◌ c prefix)) (λ i. append.cons d text more i)
    ∙ elim (Bool-cases (code c == code d)) [
      | inl same ↦ rw (same) (drop_prefix-append prefix text more f)
      | inr other ↦ rw (other) refl
    ]

partition-Fits :
    (token text before rest : String) → partition token text ≡ some (before, rest) → Fits token text
unfolding partition
partition-Fits token String.[] before rest h = cc
partition-Fits token (String.◌∷◌ c text) before rest h =
    elim (Option-cases (drop_prefix token (String.◌∷◌ c text))) [
      | inr (found, e) ↦ drop_prefix-Fits token (String.◌∷◌ c text) found e
      | inl e ↦ elim (Option-cases (partition token text)) [
        | inr ((b, r), k) ↦ Fits-cons token text c (partition-Fits token text b r k)
        | inl k ↦ absurd (none-ne-some (before, rest) (rw (e, k) at h))
      ]
    ]

abbrev behind : String → Option (String × String) → Option (String × String)
behind more = Option.map (λ found. (found.0, str_append found.1 more))

partition_step-append :
    (c : Char) (here : Option String) (later : Option (String × String)) (before rest more : String)
    → (here_too : Option String) (later_too : Option (String × String))
    → partition_step c here later ≡ some (before, rest)
    → here_too ≡ Option.map (λ r. str_append r more) here
    → ((b r : String) → later ≡ some (b, r) → later_too ≡ some (b, str_append r more))
    → partition_step c here_too later_too ≡ some (before, str_append rest more)
partition_step-append c (some found) later before rest more here_too later_too h e k =
    rw (e) (ap (behind more) h)
partition_step-append c none (some (b, r)) before rest more here_too later_too h e k =
    rw (e, k b r refl) (ap (behind more) h)
partition_step-append c none none before rest more here_too later_too h e k = cc

-- The first place of a token stays the first where more is appended.
pub partition-append :
    (token text before rest more : String)
    → partition token text ≡ some (before, rest)
    → partition token (str_append text more) ≡ some (before, str_append rest more)
unfolding partition
partition-append token String.[] before rest more h = cc
partition-append token (String.◌∷◌ c text) before rest more h =
    let fits = partition-Fits token (String.◌∷◌ c text) before rest h in
    let shifted : str_append (String.◌∷◌ c text) more ≡ String.◌∷◌ c (str_append text more) =
      λ i. append.cons c text more i in
    ap (partition token) shifted
    ∙ partition_step-append c (drop_prefix token (String.◌∷◌ c text)) (partition token text) before
        rest more (drop_prefix token (String.◌∷◌ c (str_append text more)))
        (partition token (str_append text more)) h
        (ap (drop_prefix token) (sym shifted)
          ∙ drop_prefix-append token (String.◌∷◌ c text) more fits)
        (λ b r k. partition-append token text b r more k)

drop_prefix-itself : (token : String) → drop_prefix token token ≡ some String.[]
unfolding drop_prefix
drop_prefix-itself String.[] = refl
drop_prefix-itself (String.◌∷◌ c token) = ground (arith, drop_prefix-itself token)

partition_step-some :
    (c : Char) (here : Option String) (later : Option (String × String))
    → is_some later ≡ true
    → is_some (partition_step c here later) ≡ true
partition_step-some c (some found) later h = refl
partition_step-some c none (some (b, r)) h = refl
partition_step-some c none none h = cc

-- A token is found behind any text.
pub partition-own :
    (c : Char) (token text : String)
    → is_some (partition (String.◌∷◌ c token) (str_append text (String.◌∷◌ c token))) ≡ true
unfolding partition
partition-own c token String.[] =
    ap (λ s. is_some (partition (String.◌∷◌ c token) s)) (λ i. append.nil (String.◌∷◌ c token) i)
    ∙ rw (drop_prefix-itself (String.◌∷◌ c token)) refl
partition-own c token (String.◌∷◌ d text) =
    ap (λ s. is_some (partition (String.◌∷◌ c token) s))
      (λ i. append.cons d text (String.◌∷◌ c token) i)
    ∙ partition_step-some d
        (drop_prefix (String.◌∷◌ c token) (String.◌∷◌ d (str_append text (String.◌∷◌ c token))))
        (partition (String.◌∷◌ c token) (str_append text (String.◌∷◌ c token)))
        (partition-own c token text)
