-- ===== src/Prelude/TextLength.antt =====
-- The length of texts that are cut, stripped and joined.
use Prim.Native.Nat.{ℕ, zero, suc, ◌+◌, ◌≤◌}
use Prim.Native.String
use Prim.Native.String.{String}
use Prim.Native.String.append
use mathlib.Core.Path.{◌≡◌, refl, ap, ◌∙◌}
use native.Mathlib.Omega.{arith}
use local_ai_broker.Prelude.Text.{rstrip, text_length, text_take}

pub text_length-take : (n : ℕ) (s : String) → text_length (text_take n s) ≤ n
unfolding text_length text_take
text_length-take zero s = omega arith
text_length-take (suc n) String.[] = omega arith
text_length-take (suc n) (String.◌∷◌ c s) = omega (arith, text_length-take n s)

pub text_length-rstrip : (s : String) → text_length (rstrip s) ≤ text_length s
unfolding text_length rstrip
text_length-rstrip String.[] = omega arith
text_length-rstrip (String.◌∷◌ c s) = ground (arith, text_length-rstrip s)

pub text_length-append :
    (s t : String) → text_length (String.◌++◌ s t) ≡ text_length s + text_length t
unfolding text_length
text_length-append String.[] t = ap text_length (λ i. append.nil t i) ∙ omega arith
text_length-append (String.◌∷◌ c s) t =
    ap text_length (λ i. append.cons c s t i) ∙ omega (arith, text_length-append s t)

pub dots_length : text_length "..." ≡ 3
unfolding text_length
dots_length = refl
