-- ===== src/Storage/Record/RoundTrip.antt =====
-- `decode` and `read_one` read back what `encode` writes.
use pyka.Common.{
  ℕ, ◌+◌, ◌≡◌, refl, sym, ap, [], ◌++◌, append_assoc, append-nil, true, false, Option, none, some,
  ok, arith, length, length-append, leb, ==_refl,
}
use pyka.Common.Int.{pos_part, ltb_ℤ}
use pyka.Python.Struct.{Bytes, to_bytes, signed_bytes, field_at}
use pyka.Python.Struct.Laws.{
  length-to_bytes, from_bytes-to_bytes, signed-signed_bytes, length-signed_bytes, Holds,
  Holds-start, Holds-next, slice-Holds, field_at-Holds,
}
use pyka.Python.Zlib.{crc32_lt}
use pyka.Storage.Record.{
  Record, or_empty, length_or_null, size_field, encode, slice, unless_null, decode_fields, decode,
  max_size, null,
}
use pyka.Storage.Record.Layout.{
  key_bytes, value_bytes, body, crc_of, frame, IsEncodable, length-body, length-frame,
  size-size_field, lengths_fit, encode_inv,
}

unless_null-length_or_null : (o : Option Bytes) → unless_null (length_or_null o) (or_empty o) ≡ o
unfolding unless_null
unless_null-length_or_null none = refl
unless_null-length_or_null (some bs) = ground arith

pos_part-length_or_null : (o : Option Bytes) → pos_part (length_or_null o) ≡ length (or_empty o)
pos_part-length_or_null none = refl
pos_part-length_or_null (some bs) = refl

length_or_null-ge : (o : Option Bytes) → ltb_ℤ (length_or_null o) null ≡ false
length_or_null-ge none = refl
length_or_null-ge (some bs) = ground arith

-- The last part of `decode`, at the values that the fields of a frame have.
decode_fields-frame :
    (r : Record) (buf : Bytes) (at : ℕ)
    → slice (at + 32) (length (key_bytes r)) buf ≡ key_bytes r
    → slice (at + 32 + length (key_bytes r)) (length (value_bytes r)) buf ≡ value_bytes r
    → decode_fields r.offset
        (size_field r)
        (crc_of r)
        (body r)
        r.timestamp
        (length_or_null r.key)
        (length_or_null r.value)
        buf
        at
      ≡ ok r
unfolding decode_fields size_field
decode_fields-frame r buf at ek ev = rw (
  length_or_null-ge r.key,
  length_or_null-ge r.value,
  pos_part-length_or_null r.key,
  pos_part-length_or_null r.value,
  ==_refl (4 + 16 + length (key_bytes r) + length (value_bytes r)),
  ek,
  ev,
  ==_refl (crc_of r),
  unless_null-length_or_null r.key,
  unless_null-length_or_null r.value,
)

-- What follows the frame, field by field.
abbrev fields : Record → Bytes → Bytes
fields r back =
    signed_bytes 8 r.offset
    ++ (to_bytes 4 (size_field r)
        ++ (to_bytes 4 (crc_of r) ++ (body r ++ (key_bytes r ++ (value_bytes r ++ back)))))

frame-fields : (r : Record) (back : Bytes) → frame r ++ back ≡ fields r back
unfolding frame
frame-fields r back = simp append_assoc

-- The fields of the body, in the body.
module _ (r : Record) where
  abbrev t_bytes : Bytes
  t_bytes = signed_bytes 8 r.timestamp

  abbrev k_bytes : Bytes
  k_bytes = signed_bytes 4 (length_or_null r.key)

  abbrev v_bytes : Bytes
  v_bytes = signed_bytes 4 (length_or_null r.value)

  body_t : Holds (body r) 0 (t_bytes ++ (k_bytes ++ (v_bytes ++ [])))
  unfolding body
  body_t = rw append-nil (Holds-start [] (t_bytes ++ (k_bytes ++ v_bytes)))

  body_k : Holds (body r) 8 (k_bytes ++ (v_bytes ++ []))
  body_k = Holds-next 8 t_bytes _ body_t (omega (arith, length-signed_bytes 8 r.timestamp))

  body_v : Holds (body r) 12 (v_bytes ++ [])
  body_v =
      Holds-next 12 k_bytes _ body_k (omega (arith, length-signed_bytes 4 (length_or_null r.key)))

  body_fields :
      (field_at 8 0 (body r) ≡ ok t_bytes)
      × (field_at 4 8 (body r) ≡ ok k_bytes)
      × (field_at 4 12 (body r) ≡ ok v_bytes)
  body_fields = (
    field_at-Holds 8 t_bytes _ body_t (sym (length-signed_bytes 8 r.timestamp)),
    field_at-Holds 4 k_bytes _ body_k (sym (length-signed_bytes 4 (length_or_null r.key))),
    field_at-Holds 4 v_bytes _ body_v (sym (length-signed_bytes 4 (length_or_null r.value))),
  )

pub size_guard : (r : Record) → IsEncodable r → leb (size_field r) max_size ≡ true
size_guard r good = ground (arith, good.size_fits)

room_guard :
    (r : Record) (buf : Bytes) (at : ℕ) (back : Bytes)
    → Holds buf at (fields r back)
    → leb (at + 12 + size_field r) (length buf) ≡ true
room_guard r buf at back h = ground (
  arith,
  h.whole,
  ap length (frame-fields r back),
  length-append (frame r) back,
  length-frame r,
  size-size_field r,
)

-- Where a buffer holds a frame, `decode` returns its record.
pub decode-Holds :
    (r : Record) (buf : Bytes) (at : ℕ) (back : Bytes)
    → IsEncodable r
    → Holds buf at (fields r back)
    → decode buf at ≡ ok r
unfolding decode
decode-Holds r buf at back good h =
    let o = signed_bytes 8 r.offset in
    let s = to_bytes 4 (size_field r) in
    let c = to_bytes 4 (crc_of r) in
    let lo : length o ≡ 8 = length-signed_bytes 8 r.offset in
    let ls : length s ≡ 4 = length-to_bytes 4 (size_field r) in
    let lc : length c ≡ 4 = length-to_bytes 4 (crc_of r) in
    let lb : length (body r) ≡ 16 = length-body r in
    let hs : Holds buf (at + 8) _ = Holds-next (at + 8) o _ h (omega arith) in
    let hc : Holds buf (at + 12) _ = Holds-next (at + 12) s _ hs (omega arith) in
    let hb : Holds buf (at + 12 + 4) _ = Holds-next (at + 12 + 4) c _ hc (omega arith) in
    let hk : Holds buf (at + 32) _ = Holds-next (at + 32) (body r) _ hb (omega arith) in
    let hv : Holds buf (at + 32 + length (key_bytes r)) _ =
      Holds-next (at + 32 + length (key_bytes r)) (key_bytes r) _ hk refl in
    let (bt, bk, bv) = body_fields r in
    let (fk, fv) = lengths_fit r good in
    rw
      (
        field_at-Holds 8 o _ h (sym lo),
        field_at-Holds 4 s _ hs (sym ls),
        from_bytes-to_bytes 4 (size_field r) (omega (arith, good.size_fits)),
        size_guard r good,
        room_guard r buf at back h,
        field_at-Holds 4 c _ hc (sym lc),
        slice-Holds 16 (body r) _ hb (sym lb),
        bt,
        bk,
        bv,
        from_bytes-to_bytes 4 (crc_of r) (crc32_lt _ _),
        signed-signed_bytes 7 r.offset good.offset_fits,
        signed-signed_bytes 7 r.timestamp good.timestamp_fits,
        signed-signed_bytes 3 (length_or_null r.key) fk,
        signed-signed_bytes 3 (length_or_null r.value) fv,
      )
      (decode_fields-frame r buf at (slice-Holds (length (key_bytes r)) (key_bytes r) _ hk refl)
        (slice-Holds (length (value_bytes r)) (value_bytes r) _ hv refl))

pub decode-frame : (r : Record) → IsEncodable r → decode (frame r) 0 ≡ ok r
decode-frame r good =
    rw (← append-nil (frame r), frame-fields r [])
      (decode-Holds r _ 0 [] good (Holds-start [] (fields r [])))

-- `decode` returns the record that was encoded, wherever its bytes stand in the buffer.
pub decode-encode :
    (r : Record) (bs front back : Bytes)
    → encode r ≡ ok bs
    → decode (front ++ (bs ++ back)) (length front) ≡ ok r
decode-encode r bs front back h =
    let (good, e) = encode_inv r bs h in
    rw (e, frame-fields r back)
      (decode-Holds r _ (length front) back good (Holds-start front (fields r back)))
