-- ===== src/Python/Zlib.antt =====
-- `zlib.crc32(data, value)`: the reflected CRC-32 with polynomial 0xedb88320, a bit at a time.
use Prim.Native.Nat.{bit_xor}
use pyka.Common.{
  ℕ, zero, suc, ◌-◌, ◌/◌, ◌%◌, ◌^◌, ◌<◌, ◌≡◌, refl, [], ◌∷◌, ◌++◌, arith, ◌==◌, if◌then◌else◌,
}
use pyka.Python.Struct.{Bytes}

-- `~c` on a uint32
abbrev complement : ℕ → ℕ
complement c = 2 ^ 32 - 1 - c % 2 ^ 32

-- c & 1 ? (c >> 1) ^ 0xedb88320 : c >> 1
crc_bit : ℕ → ℕ
crc_bit c = if c % 2 == 0 then c / 2 else bit_xor (c / 2) 0xedb88320 % 2 ^ 32

crc_bits : ℕ → ℕ → ℕ
crc_bits zero c = c
crc_bits (suc k) c = crc_bits k (crc_bit c)

crc_loop : Bytes → ℕ → ℕ
crc_loop [] c = c
crc_loop (b ∷ bs) c = crc_loop bs (crc_bits 8 (bit_xor c b % 2 ^ 32))

unfoldable pub crc32 : Bytes → ℕ → ℕ
unfolding crc_bit crc_bits crc_loop
crc32 bs value = complement (crc_loop bs (complement value))

crc_loop-append : (xs ys : Bytes) (c : ℕ) → crc_loop (xs ++ ys) c ≡ crc_loop ys (crc_loop xs c)
unfolding crc_loop
crc_loop-append [] ys c = refl
crc_loop-append (x ∷ xs) ys c = crc_loop-append xs ys (crc_bits 8 (bit_xor c x % 2 ^ 32))

crc_bit_lt : (c : ℕ) → c < 2 ^ 32 → crc_bit c < 2 ^ 32
unfolding crc_bit
crc_bit_lt c h = ground arith

crc_bits_lt : (k c : ℕ) → c < 2 ^ 32 → crc_bits k c < 2 ^ 32
unfolding crc_bits
crc_bits_lt zero c h = h
crc_bits_lt (suc k) c h = crc_bits_lt k (crc_bit c) (crc_bit_lt c h)

crc_loop_lt : (bs : Bytes) (c : ℕ) → c < 2 ^ 32 → crc_loop bs c < 2 ^ 32
unfolding crc_loop
crc_loop_lt [] c h = h
crc_loop_lt (b ∷ bs) c h =
    crc_loop_lt bs (crc_bits 8 (bit_xor c b % 2 ^ 32)) (crc_bits_lt 8 _ (omega arith))

complement-complement : (c : ℕ) → c < 2 ^ 32 → complement (complement c) ≡ c
complement-complement c h = omega arith

crc32_check :
    crc32 (0x31 ∷ 0x32 ∷ 0x33 ∷ 0x34 ∷ 0x35 ∷ 0x36 ∷ 0x37 ∷ 0x38 ∷ 0x39 ∷ []) 0 ≡ 0xcbf43926
unfolding crc32
crc32_check = refl

pub crc32_lt : (bs : Bytes) (value : ℕ) → crc32 bs value < 2 ^ 32
unfolding crc32
crc32_lt bs value = omega arith

-- A checksum can be taken piece by piece: each call goes on from the value of the last.
pub crc32-append : (xs ys : Bytes) (value : ℕ) → crc32 (xs ++ ys) value ≡ crc32 ys (crc32 xs value)
unfolding crc32
crc32-append xs ys value = rw (
  crc_loop-append,
  complement-complement (crc_loop xs (complement value)) (crc_loop_lt xs _ (omega arith)),
)
