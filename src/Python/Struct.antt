-- ===== src/Python/Struct.antt =====
-- The `struct` module, for the big-endian formats that the source uses: q, I, i.
-- A `bytes` object is a list of numbers.
pub mod Laws
use pyka.Common.{
  ℕ, zero, suc, ◌+◌, ◌-◌, ◌*◌, ◌/◌, ◌%◌, ◌^◌, ◌<◌, List, [], ◌∷◌, ◌++◌, Bool, ◌&&◌, Result, ok, err,
  struct_error, ltb, leb, if◌then◌else◌, length, take, drop, ◌==◌,
}
use pyka.Common.Int.{ℤ, pos, negsuc}

abbrev pub Bytes : Type 0
Bytes = List ℕ

abbrev pub IsByte : ℕ → Type 0
IsByte b = b < 256

-- The last `w` base-256 digits of `n`, most significant first.
unfoldable pub to_bytes : ℕ → ℕ → Bytes
to_bytes zero n = []
to_bytes (suc w) n = to_bytes w (n / 256) ++ (n % 256) ∷ []

from_bytes_loop : ℕ → Bytes → ℕ
from_bytes_loop acc [] = acc
from_bytes_loop acc (b ∷ bs) = from_bytes_loop (acc * 256 + b) bs

-- int.from_bytes(bs, "big")
unfoldable pub from_bytes : Bytes → ℕ
unfolding from_bytes_loop
from_bytes bs = from_bytes_loop 0 bs

-- struct.pack(">I", n)
unfoldable pub pack_u32 : ℕ → Result Bytes
pack_u32 n = if ltb n (2 ^ 32) then ok (to_bytes 4 n) else err struct_error

-- -2^(8w-1) <= z < 2^(8w-1)
unfoldable pub fits_signed : ℕ → ℤ → Bool
fits_signed w (pos n) = ltb (n * 2) (256 ^ w)
fits_signed w (negsuc n) = ltb (n * 2) (256 ^ w)

-- The two's complement pattern of an integer in `w` bytes.
unfoldable pub signed_bytes : ℕ → ℤ → Bytes
unfolding to_bytes
signed_bytes w (pos n) = to_bytes w n
signed_bytes w (negsuc n) = to_bytes w (256 ^ w - suc n)

-- `struct.error` out of range
unfoldable pub pack_signed : ℕ → ℤ → Result Bytes
pack_signed w z = if fits_signed w z then ok (signed_bytes w z) else err struct_error

-- struct.pack(">q", z) and struct.pack(">i", z)
abbrev pub pack_i64 : ℤ → Result Bytes
pack_i64 = pack_signed 8

abbrev pub pack_i32 : ℤ → Result Bytes
pack_i32 = pack_signed 4

-- The integer that a two's complement pattern of `w` bytes stands for.
unfoldable pub signed : ℕ → ℕ → ℤ
signed w n = if ltb (n * 2) (256 ^ w) then pos n else negsuc (256 ^ w - suc n)

-- `w` bytes of `buf` from `at` on: `struct.unpack_from` raises `struct.error` past the end.
unfoldable pub field_at : ℕ → ℕ → Bytes → Result Bytes
field_at w at buf =
    if leb (at + w) (length buf) then ok (take w (drop at buf)) else err struct_error

abbrev pub unpack_u32 : Bytes → ℕ
unpack_u32 = from_bytes

abbrev pub unpack_signed : ℕ → Bytes → ℤ
unpack_signed w bs = signed w (from_bytes bs)
