-- ===== src/Prelude/Text.antt =====
-- Python's text methods that the workers call, over native texts. Cases are changed for ASCII
-- letters, which is all that the compared names hold; white space is Python's whole list.
use Prim.Native.Nat.{ℕ, zero, suc, ◌-◌, ◌/◌, ◌%◌}
use Prim.Native.Char.{Char, code}
use Prim.Native.String.{String, char_at}
use mathlib.Core.Bool.{Bool, true, false, ◌&&◌, ◌||◌}
use local_ai_broker.Prelude.Tests.{leb, ltb, ◌==◌, if◌then◌else◌}

-- `not s`
abbrev pub is_empty : String → Bool
is_empty String.[] = true
is_empty (String.◌∷◌ c s) = false

-- `a or b` on texts
abbrev pub or_else : String → String → String
or_else String.[] t = t
or_else (String.◌∷◌ c s) t = String.◌∷◌ c s

abbrev lower_char : Char → Char
lower_char c =
    if leb b'A' (code c) && leb (code c) b'Z'
    then char_at "abcdefghijklmnopqrstuvwxyz" (code c - b'A')
    else c

-- `s.lower()`
unfoldable pub lower : String → String
lower String.[] = String.[]
lower (String.◌∷◌ c s) = String.◌∷◌ (lower_char c) (lower s)

-- `c.isspace()` as `str.strip` reads it
abbrev pub is_space : Char → Bool
is_space c =
    let n = code c in
    (leb 0x9 n && leb n 0xd)
    || (leb 0x1c n && leb n 0x20)
    || n == 0x85
    || n == 0xa0
    || n == 0x1680
    || (leb 0x2000 n && leb n 0x200a)
    || n == 0x2028
    || n == 0x2029
    || n == 0x202f
    || n == 0x205f
    || n == 0x3000

unfoldable pub lstrip : String → String
lstrip String.[] = String.[]
lstrip (String.◌∷◌ c s) = let rest = lstrip s in if is_space c then rest else String.◌∷◌ c s

unfoldable pub rstrip : String → String
rstrip String.[] = String.[]
rstrip (String.◌∷◌ c s) =
    let rest = rstrip s in if is_space c && is_empty rest then String.[] else String.◌∷◌ c rest

-- `s.strip()`
unfoldable pub strip : String → String
unfolding lstrip rstrip
strip s = rstrip (lstrip s)

-- `str(n)`: its digits in front of a text, by fuel; a number has fewer digits than it has steps to 0, and one.
digits : ℕ → ℕ → String → String
digits zero n text = text
digits (suc fuel) n text =
    let shown = String.◌∷◌ (char_at "0123456789" (n % 10)) text in
    let longer = digits fuel (n / 10) shown in if ltb n 10 then shown else longer

unfoldable pub decimal : ℕ → String
unfolding digits
decimal n = digits (suc n) n ""

-- `len(text)`
unfoldable pub text_length : String → ℕ
text_length String.[] = 0
text_length (String.◌∷◌ c s) = suc (text_length s)

-- `text[:n]`
unfoldable pub text_take : ℕ → String → String
text_take zero s = String.[]
text_take (suc n) String.[] = String.[]
text_take (suc n) (String.◌∷◌ c s) = String.◌∷◌ c (text_take n s)
