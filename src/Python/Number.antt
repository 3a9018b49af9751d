-- ===== src/Python/Number.antt =====
-- `int(text)` and `str.isdigit`, over the code points of ASCII: no other one is a digit or a space
-- here. That `int` refuses a text of more than 4300 digits is left out.
pub mod Decimal
use pyka.Common.{
  ℕ, zero, suc, ◌+◌, ◌-◌, ◌*◌, List, [], ◌∷◌, Bool, true, false, ◌&&◌, ◌||◌, Result, ok, err,
  value_error, ◌>>=◌, ◌==◌, leb, if◌then◌else◌,
}
use pyka.Common.Int.{ℤ, pos, negsuc}
use pyka.Python.Text.{Str}

abbrev pub is_digit : ℕ → Bool
is_digit c = leb 0x30 c && leb c 0x39

abbrev pub is_space : ℕ → Bool
is_space c = (leb 0x09 c && leb c 0x0d) || (leb 0x1c c && leb c 0x20)

abbrev pub all_space : Str → Bool
all_space [] = true
all_space (c ∷ cs) = is_space c && all_space cs

-- The digits after a sign, of which `value` were read; `seen` is whether the last character was one.
-- An underscore stands between two digits, and only spaces follow the number.
unfoldable pub digits : Bool → ℕ → Str → Result ℕ
digits seen value [] = if seen then ok value else err value_error
digits seen value (c ∷ cs) =
    let more = digits true (value * 10 + (c - 0x30)) cs in
    let after_underscore = digits false value cs in
    if is_digit c
    then more
    else if seen && c == 0x5f
    then after_underscore
    else if seen && is_space c && all_space cs
    then ok value
    else err value_error

abbrev pub negated : ℕ → ℤ
negated zero = pos 0
negated (suc n) = negsuc n

abbrev pub after_sign : Str → Result ℤ
after_sign [] = err value_error
after_sign (c ∷ cs) =
    if c == 0x2d
    then (digits false 0 cs >>= λ n. ok (negated n))
    else if c == 0x2b
    then (digits false 0 cs >>= λ n. ok (pos n))
    else digits false 0 (c ∷ cs) >>= λ n. ok (pos n)

abbrev pub strip_left : Str → Str
strip_left [] = []
strip_left (c ∷ cs) = let rest = strip_left cs in if is_space c then rest else c ∷ cs

-- int(text)
unfoldable pub int_of : Str → Result ℤ
unfolding digits
int_of text = after_sign (strip_left text)

abbrev pub all_digits : Str → Bool
all_digits [] = true
all_digits (c ∷ cs) = is_digit c && all_digits cs

-- text.isdigit()
unfoldable pub is_numeral : Str → Bool
is_numeral [] = false
is_numeral (c ∷ cs) = all_digits (c ∷ cs)
