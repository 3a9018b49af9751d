-- ===== src/Python/Struct/Laws.antt =====
-- Packing and unpacking are inverse, and a packed field has the width of its format.
use pyka.Common.{
  ℕ, zero, suc, ◌+◌, ◌-◌, ◌*◌, ◌/◌, ◌%◌, ◌^◌, ◌<◌, ◌≡◌, refl, sym, ap, ◌∙◌, [], ◌∷◌, ◌++◌, ok, true,
  arith, length, length-append, take, drop, take-append, drop-append,
}
use pyka.Common.Int.{ℤ, pos, negsuc}
use pyka.Python.Struct.{
  Bytes, to_bytes, from_bytes, from_bytes_loop, fits_signed, signed_bytes, signed, field_at,
}
use native.Mathlib.Nat.{pow-suc}

from_bytes_loop-append :
    (acc : ℕ) (xs : Bytes) (b : ℕ)
    → from_bytes_loop acc (xs ++ b ∷ []) ≡ from_bytes_loop acc xs * 256 + b
unfolding from_bytes_loop
from_bytes_loop-append acc [] b = refl
from_bytes_loop-append acc (x ∷ xs) b = from_bytes_loop-append (acc * 256 + x) xs b

pub length-to_bytes : (w n : ℕ) → length (to_bytes w n) ≡ w
unfolding to_bytes
length-to_bytes zero n = refl
length-to_bytes (suc w) n =
    omega (arith, length-append (to_bytes w (n / 256)) (n % 256 ∷ []), length-to_bytes w (n / 256))

div_fits : (w n : ℕ) → n < 256 ^ suc w → n / 256 < 256 ^ w
div_fits w n h = omega (arith, pow-suc 256 w)

pub from_bytes-to_bytes : (w n : ℕ) → n < 256 ^ w → from_bytes (to_bytes w n) ≡ n
unfolding from_bytes to_bytes
from_bytes-to_bytes zero n h = omega arith
from_bytes-to_bytes (suc w) n h =
    from_bytes_loop-append 0 (to_bytes w (n / 256)) (n % 256)
    ∙ omega (arith, from_bytes-to_bytes w (n / 256) (div_fits w n h))

-- An integer in range comes back from its pattern.
pub signed-signed_bytes :
    (w : ℕ) (z : ℤ)
    → fits_signed (suc w) z ≡ true
    → signed (suc w) (from_bytes (signed_bytes (suc w) z)) ≡ z
unfolding fits_signed signed_bytes signed
signed-signed_bytes w (pos n) h = ground (arith, from_bytes-to_bytes (suc w) n)
signed-signed_bytes w (negsuc n) h =
    ground (arith, pow-suc 256 w, from_bytes-to_bytes (suc w) (256 ^ suc w - suc n))

pub length-signed_bytes : (w : ℕ) (z : ℤ) → length (signed_bytes w z) ≡ w
unfolding signed_bytes
length-signed_bytes w (pos n) = length-to_bytes w n
length-signed_bytes w (negsuc n) = length-to_bytes w (256 ^ w - suc n)

-- `tail` is what a buffer holds from a position on.
pub record Holds (buf : Bytes) (at : ℕ) (tail : Bytes) : Type 0 where
  pub dropped : drop at buf ≡ tail
  pub whole : at + length tail ≡ length buf

drop-nil : (k : ℕ) → drop {A = ℕ} k [] ≡ []
drop-nil zero = refl
drop-nil (suc k) = refl

drop-add : (n m : ℕ) (xs : Bytes) → drop (n + m) xs ≡ drop m (drop n xs)
drop-add zero m xs = let e : 0 + m ≡ m = omega arith in ap (λ k. drop k xs) e
drop-add (suc n) m [] = drop-nil (suc n + m) ∙ sym (drop-nil m)
drop-add (suc n) m (x ∷ xs) =
    let e : suc n + m ≡ suc (n + m) = omega arith in rw e (drop-add n m xs)

pub Holds-start : (front tail : Bytes) → Holds (front ++ tail) (length front) tail
Holds-start front tail = record {
  dropped = drop-append (length front) front tail refl;
  whole = omega (arith, length-append front tail);
}

pub Holds-next :
    {buf : Bytes} {at : ℕ} (at' : ℕ) (field tail : Bytes)
    → Holds buf at (field ++ tail)
    → at' ≡ at + length field
    → Holds buf at' tail
Holds-next {buf} {at} at' field tail h e = rw e (record {
  dropped =
      drop-add at (length field) buf ∙ rw h.dropped (drop-append (length field) field tail refl);
  whole = omega (arith, h.whole, length-append field tail);
})

pub slice-Holds :
    {buf : Bytes} {at : ℕ} (w : ℕ) (field tail : Bytes)
    → Holds buf at (field ++ tail)
    → w ≡ length field
    → take w (drop at buf) ≡ field
slice-Holds w field tail h e = rw h.dropped (take-append w field tail e)

pub field_at-Holds :
    {buf : Bytes} {at : ℕ} (w : ℕ) (field tail : Bytes)
    → Holds buf at (field ++ tail)
    → w ≡ length field
    → field_at w at buf ≡ ok field
unfolding field_at
field_at-Holds {buf} {at} w field tail h e =
    ground (arith, slice-Holds w field tail h e, h.whole, length-append field tail)
