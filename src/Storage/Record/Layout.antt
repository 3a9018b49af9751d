-- ===== src/Storage/Record/Layout.antt =====
-- The bytes of a record, written as one expression, and when `encode` returns them.
use pyka.Common.{
  ℕ, ◌+◌, ◌*◌, ◌^◌, ◌≤◌, ◌≡◌, ◌↔◌, ◌∙◌, refl, sym, ap, ◌++◌, true, Option, none, some, ok, arith,
  length, length-append, lt→ltb,
}
use pyka.Python.Struct.{Bytes, to_bytes, signed_bytes, fits_signed, pack_signed, pack_u32}
use pyka.Python.Struct.Laws.{length-to_bytes, length-signed_bytes}
use pyka.Python.Zlib.{crc32, crc32_lt}
use pyka.Storage.Record.{
  Record, or_empty, length_or_null, checksum, size_field, encode, size, max_size,
}

abbrev pub key_bytes : Record → Bytes
key_bytes r = or_empty r.key

abbrev pub value_bytes : Record → Bytes
value_bytes r = or_empty r.value

unfoldable pub body : Record → Bytes
body r =
    signed_bytes 8 r.timestamp
    ++ (signed_bytes 4 (length_or_null r.key) ++ signed_bytes 4 (length_or_null r.value))

abbrev pub crc_of : Record → ℕ
crc_of r = checksum (body r) (key_bytes r) (value_bytes r)

unfoldable pub frame : Record → Bytes
frame r =
    signed_bytes 8 r.offset
    ++ (to_bytes 4 (size_field r)
        ++ (to_bytes 4 (crc_of r) ++ (body r ++ (key_bytes r ++ value_bytes r))))

-- Both integers fit an int64, and the size field is within MAX_SIZE.
pub record IsEncodable (r : Record) : Type 0 where
  pub offset_fits : fits_signed 8 r.offset ≡ true
  pub timestamp_fits : fits_signed 8 r.timestamp ≡ true
  pub size_fits : size_field r ≤ max_size

pub length-body : (r : Record) → length (body r) ≡ 16
unfolding body
length-body r = omega (
  arith,
  length-append (signed_bytes 8 r.timestamp)
      (signed_bytes 4 (length_or_null r.key) ++ signed_bytes 4 (length_or_null r.value)),
  length-append (signed_bytes 4 (length_or_null r.key)) (signed_bytes 4 (length_or_null r.value)),
  length-signed_bytes 8 r.timestamp,
  length-signed_bytes 4 (length_or_null r.key),
  length-signed_bytes 4 (length_or_null r.value),
)

-- `size()` is the number of bytes of the frame.
pub length-frame : (r : Record) → length (frame r) ≡ size r
unfolding frame size
length-frame r = omega (
  arith,
  length-append (signed_bytes 8 r.offset) (
      to_bytes 4 (size_field r)
      ++ (to_bytes 4 (crc_of r) ++ (body r ++ (key_bytes r ++ value_bytes r)))),
  length-append (to_bytes 4 (size_field r))
      (to_bytes 4 (crc_of r) ++ (body r ++ (key_bytes r ++ value_bytes r))),
  length-append (to_bytes 4 (crc_of r)) (body r ++ (key_bytes r ++ value_bytes r)),
  length-append (body r) (key_bytes r ++ value_bytes r),
  length-append (key_bytes r) (value_bytes r),
  length-signed_bytes 8 r.offset,
  length-to_bytes 4 (size_field r),
  length-to_bytes 4 (crc_of r),
  length-body r,
)

pub size-size_field : (r : Record) → size r ≡ 12 + size_field r
unfolding size size_field
size-size_field r = omega arith

-- A length that the size field allows fits an int32, absent ones included.
pub fits_length :
    (o : Option Bytes) → length (or_empty o) ≤ max_size → fits_signed 4 (length_or_null o) ≡ true
unfolding fits_signed
fits_length none h = refl
fits_length (some bs) h = lt→ltb (length bs * 2) (256 ^ 4) (omega arith)

pub lengths_fit :
    (r : Record)
    → IsEncodable r
    → (fits_signed 4 (length_or_null r.key) ≡ true)
      × (fits_signed 4 (length_or_null r.value) ≡ true)
unfolding size_field
lengths_fit r h = (
  fits_length r.key (omega (arith, h.size_fits)),
  fits_length r.value (omega (arith, h.size_fits)),
)

-- `encode` returns the frame of a record that is encodable.
pub encode-frame : (r : Record) → IsEncodable r → encode r ≡ ok (frame r)
unfolding encode pack_u32 pack_signed frame body
encode-frame r h = ground (
  arith,
  h.offset_fits,
  h.timestamp_fits,
  h.size_fits,
  (lengths_fit r h).0,
  (lengths_fit r h).1,
  crc32_lt (value_bytes r) (crc32 (key_bytes r) (crc32 (body r) 0)),
)

-- `encode` returns nothing else.
pub encode_inv : (r : Record) (bs : Bytes) → encode r ≡ ok bs → IsEncodable r × (bs ≡ frame r)
unfolding encode pack_u32 pack_signed frame body
encode_inv r bs h = (
  record { offset_fits = ground arith; timestamp_fits = ground arith; size_fits = ground arith },
  ground arith,
)

-- `encode` returns bytes exactly for the records with an offset and a timestamp within int64 and a
-- size field within MAX_SIZE, and these bytes are the frame of the record, `size()` bytes long.
pub encode_iff :
    (r : Record) (bs : Bytes)
    → (encode r ≡ ok bs) ↔ (IsEncodable r × (bs ≡ frame r) × (length bs ≡ size r))
encode_iff r bs = (
  λ h. let (good, e) = encode_inv r bs h in (good, e, ap length e ∙ length-frame r),
  λ h. encode-frame r h.0 ∙ ap ok (sym h.1),
)
