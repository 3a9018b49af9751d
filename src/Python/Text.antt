-- ===== src/Python/Text.antt =====
-- What the source uses of `str`: decimal numbers, UTF-8, and `str.format` with one field.
use pyka.Common.{ℕ, zero, suc, ◌+◌, ◌/◌, ◌%◌, List, [], ◌∷◌, ◌++◌, ltb, if◌then◌else◌}
use pyka.Python.Struct.{Bytes}

-- A string is the list of its code points.
abbrev pub Str : Type 0
Str = List ℕ

unfoldable pub decimal_loop : ℕ → ℕ → Str → Str
decimal_loop zero n digits = digits
decimal_loop (suc fuel) n digits =
    let more = decimal_loop fuel (n / 10) ((0x30 + n % 10) ∷ digits) in
    if ltb n 10 then (0x30 + n % 10) ∷ digits else more

-- str(n)
unfoldable pub decimal : ℕ → Str
unfolding decimal_loop
decimal n = decimal_loop (suc n) n []

-- value.encode(), one code point at a time
encode_point : ℕ → Bytes
encode_point c =
    if ltb c 0x80
    then c ∷ []
    else if ltb c 0x800
    then (0xc0 + c / 0x40) ∷ (0x80 + c % 0x40) ∷ []
    else if ltb c 0x10000
    then (0xe0 + c / 0x1000) ∷ (0x80 + c / 0x40 % 0x40) ∷ (0x80 + c % 0x40) ∷ []
    else (0xf0 + c / 0x40000)
      ∷ (0x80 + c / 0x1000 % 0x40)
      ∷ (0x80 + c / 0x40 % 0x40)
      ∷ (0x80 + c % 0x40)
      ∷ []

unfoldable pub utf8 : Str → Bytes
unfolding encode_point
utf8 [] = []
utf8 (c ∷ cs) = encode_point c ++ utf8 cs

-- A format string as `str.format` reads it: text, and fields `{ordinal}`.
pub data Piece : Type 0 where
  text : Str → Piece
  ordinal : Piece

-- template.format(ordinal=n)
unfoldable pub format : List Piece → ℕ → Str
unfolding decimal
format [] n = []
format (text t ∷ ps) n = t ++ format ps n
format (ordinal ∷ ps) n = decimal n ++ format ps n
