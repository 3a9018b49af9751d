-- ===== src/Storage/Record/Reading.antt =====
-- `read_one` on a stream: a whole record, a torn one, and a size field that no record can have.
use pyka.Common.{
  ℕ, ◌+◌, ◌-◌, ◌≤◌, ◌<◌, ◌≡◌, ◌∙◌, sym, ap, [], ◌++◌, append_assoc, append-nil, none, some, Result,
  ok, err, struct_error, ◌>>=◌, arith, length, length-append, take, drop, take-append, drop-append,
  length-take, take-append_ge, if◌then◌else◌, ltb, ltb-false, lt→ltb, le→leb, ◌⊎◌, inl, inr,
  length-drop,
}
use native.Mathlib.Decide.{dec_lt}
use pyka.Python.Struct.{Bytes, to_bytes, from_bytes, signed_bytes, field_at}
use pyka.Python.Struct.Laws.{
  length-to_bytes, from_bytes-to_bytes, length-signed_bytes, Holds-start, Holds-next,
  field_at-Holds,
}
use pyka.Python.File.{Stream, read}
use pyka.Storage.Record.{Record, size_field, size, encode, decode, read_one, max_size}
use pyka.Storage.Record.Layout.{
  key_bytes, value_bytes, body, crc_of, frame, IsEncodable, length-frame, size-size_field,
  encode_inv,
}
use pyka.Storage.Record.RoundTrip.{decode-frame}

-- The 12 bytes that `read_one` takes first, and what they announce.
abbrev head : Record → Bytes
head r = signed_bytes 8 r.offset ++ to_bytes 4 (size_field r)

abbrev payload : Record → Bytes
payload r = to_bytes 4 (crc_of r) ++ (body r ++ (key_bytes r ++ value_bytes r))

frame-head : (r : Record) → frame r ≡ head r ++ payload r
unfolding frame
frame-head r = simp append_assoc

length-head : (r : Record) → length (head r) ≡ 12
length-head r = omega (
  arith,
  length-append (signed_bytes 8 r.offset) (to_bytes 4 (size_field r)),
  length-signed_bytes 8 r.offset,
  length-to_bytes 4 (size_field r),
)

length-payload : (r : Record) → length (payload r) ≡ size_field r
length-payload r = omega (
  arith,
  ap length (frame-head r),
  length-append (head r) (payload r),
  length-head r,
  length-frame r,
  size-size_field r,
)

-- A prefix of 12 bytes that announces `m` more.
module _ (o : Bytes) (m : ℕ) (lo : length o ≡ 8) (hm : m ≤ max_size) where
  announced : Bytes
  announced = o ++ to_bytes 4 m

  length-announced : length announced ≡ 12
  unfolding announced
  length-announced = omega (arith, length-append o (to_bytes 4 m), length-to_bytes 4 m)

  announced_size : (tail : Bytes) → field_at 4 8 (announced ++ tail) ≡ ok (to_bytes 4 m)
  unfolding announced
  announced_size tail = rw (append_assoc o (to_bytes 4 m) tail) (
      field_at-Holds 4 (to_bytes 4 m) tail
        (Holds-next 8 o (to_bytes 4 m ++ tail) (Holds-start [] (o ++ (to_bytes 4 m ++ tail)))
          (omega arith))
        (sym (length-to_bytes 4 m)))

  announced_value : from_bytes (to_bytes 4 m) ≡ m
  announced_value = from_bytes-to_bytes 4 m (omega arith)

  -- What `read_one` does after such a prefix.
  after_prefix :
      (t : ℕ) (rest : Bytes)
      → read_one (record { tell = t; rest = announced ++ rest }) ≡ (
          if ltb (length (take m rest)) m
          then ok (none, record { tell = t + 12 + length (take m rest); rest = drop m rest })
          else do
            r ← decode (announced ++ take m rest) 0
            ok (some r, record { tell = t + 12 + length (take m rest); rest = drop m rest }))
  unfolding read_one read
  after_prefix t rest = rw (
    take-append 12 announced rest (sym length-announced),
    drop-append 12 announced rest (sym length-announced),
    length-announced,
    (rw append-nil at (announced_size [])),
    announced_value,
    le→leb m max_size hm,
  )

-- What `read_one` does after a whole prefix of an encodable record.
after_head :
    (r : Record) (t : ℕ) (rest : Bytes)
    → IsEncodable r
    → read_one (record { tell = t; rest = head r ++ rest }) ≡ (
        if ltb (length (take (size_field r) rest)) (size_field r)
        then ok (
          none,
          record {
            tell = t + 12 + length (take (size_field r) rest);
            rest = drop (size_field r) rest;
          },
        )
        else do
          r' ← decode (head r ++ take (size_field r) rest) 0
          ok (
            some r',
            record {
              tell = t + 12 + length (take (size_field r) rest);
              rest = drop (size_field r) rest;
            },
          ))
unfolding announced
after_head r t rest good =
    after_prefix (signed_bytes 8 r.offset) (size_field r) (length-signed_bytes 8 r.offset)
      good.size_fits t rest

frame-payload : (r : Record) (back : Bytes) → frame r ++ back ≡ head r ++ (payload r ++ back)
frame-payload r back = rw frame-head (append_assoc (head r) (payload r) back)

-- A whole record is read, and the stream stands behind it.
pub read_one-frame :
    (r : Record) (t : ℕ) (back : Bytes)
    → IsEncodable r
    → read_one (record { tell = t; rest = frame r ++ back })
      ≡ ok (some r, record { tell = t + size r; rest = back })
read_one-frame r t back good =
    let lp : size_field r ≡ length (payload r) = sym (length-payload r) in
    let whole : decode (head r ++ payload r) 0 ≡ ok r = rw (← frame-head r) (decode-frame r good) in
    let end : t + 12 + size_field r ≡ t + size r = omega (arith, size-size_field r) in
    rw (
      frame-payload r back,
      after_head r t (payload r ++ back) good,
      take-append (size_field r) (payload r) back lp,
      drop-append (size_field r) (payload r) back lp,
      length-payload r,
      ltb-false (size_field r) (size_field r) (omega arith),
      whole,
      end,
    )

-- Fewer bytes than a prefix: the end of the file, or a torn tail.
pub read_one_short :
    (t : ℕ) (bs : Bytes)
    → length bs < 12
    → read_one (record { tell = t; rest = bs })
      ≡ ok (none, record { tell = t + length (take 12 bs); rest = drop 12 bs })
unfolding read_one read
read_one_short t bs h = rw (lt→ltb (length (take 12 bs)) 12 (omega (arith, length-take 12 bs)))

-- A record of which the end is missing is no record, and no error.
pub read_one_torn :
    (r : Record) (t n : ℕ)
    → IsEncodable r
    → n < size r
    → (f : Stream) × (read_one (record { tell = t; rest = take n (frame r) }) ≡ ok (none, f))
read_one_torn r t n good h = elim (dec_lt n 12) [
  | yes p ↦ (_, read_one_short t (take n (frame r)) (omega (arith, length-take n (frame r))))
  | no p ↦
      let cut : take n (frame r) ≡ head r ++ take (n - 12) (payload r) =
        rw frame-head
          (take-append_ge n (head r) (payload r) (omega (arith, length-head r)) ∙ rw length-head) in
      let rest = take (n - 12) (payload r) in
      let short : length (take (size_field r) rest) < size_field r = omega (
        arith,
        length-take (size_field r) rest,
        length-take (n - 12) (payload r),
        size-size_field r,
      ) in
      (
        record {
          tell = t + 12 + length (take (size_field r) rest);
          rest = drop (size_field r) rest;
        },
        rw (cut, after_head r t rest good, lt→ltb _ _ short),
      )
]

field_at-cases :
    (w at : ℕ) (buf : Bytes)
    → (field_at w at buf ≡ err struct_error) ⊎ ((bs : Bytes) × (field_at w at buf ≡ ok bs))
unfolding field_at
field_at-cases w at buf = ground arith

short_body {ℓ} :
    {A : Type ℓ} (c : Bytes) (g : Bytes → Bytes → Bytes → Result A)
    → length c < 16
    → (do t ← field_at 8 0 c; k ← field_at 4 8 c; v ← field_at 4 12 c; g t k v) ≡ err struct_error
unfolding field_at
short_body c g h = ground arith

-- `decode` of a record with a size field below 20.
decode_undersized :
    (o body : Bytes)
    → length o ≡ 8
    → length body < 20
    → decode ((o ++ to_bytes 4 (length body)) ++ body) 0 ≡ err struct_error
unfolding decode announced
decode_undersized o body lo h =
    let m = length body in
    let buf : Bytes = (o ++ to_bytes 4 m) ++ body in
    let whole : length buf ≡ 12 + m =
      omega
        (arith, length-append (o ++ to_bytes 4 m) body, length-announced o m lo (omega arith)) in
    let fo : field_at 8 0 buf ≡ ok o =
      rw (append_assoc o (to_bytes 4 m) body)
        (field_at-Holds 8 o (to_bytes 4 m ++ body) (Holds-start [] _) (sym lo)) in
    let body_length : length (take 16 (drop 16 buf)) < 16 =
      omega (arith, whole, length-take 16 (drop 16 buf), length-drop 16 buf) in
    rw
      (
        fo,
        announced_size o m lo (omega arith) body,
        announced_value o m lo (omega arith),
        le→leb m max_size (omega arith),
        le→leb (12 + m) (length buf) (omega arith),
      )
      (elim (field_at-cases 4 12 buf) [
        | inl e ↦ rw e
        | inr (crc, e) ↦ rw e (short_body (take 16 (drop 16 buf)) _ body_length)
      ])

-- A size field below 20 leaves no room for the fixed fields. `struct` then raises `struct.error`:
-- neither a torn tail nor a CorruptRecord.
pub read_one_undersized :
    (t m : ℕ) (o back : Bytes)
    → length o ≡ 8
    → m < 20
    → m ≤ length back
    → read_one (record { tell = t; rest = (o ++ to_bytes 4 m) ++ back }) ≡ err struct_error
unfolding announced
read_one_undersized t m o back lo hm hb =
    let exact : length (take m back) ≡ m = omega (arith, length-take m back) in
    let bad : decode ((o ++ to_bytes 4 m) ++ take m back) 0 ≡ err struct_error =
      rw exact at (decode_undersized o (take m back) lo (omega arith)) in
    rw (after_prefix o m lo (omega arith) t back, exact, ltb-false m m (omega arith), bad)

-- Of the bytes that `encode` returns, `read_one` makes the record again, and stands behind them.
pub read_one-encode :
    (r : Record) (bs back : Bytes) (t : ℕ)
    → encode r ≡ ok bs
    → read_one (record { tell = t; rest = bs ++ back })
      ≡ ok (some r, record { tell = t + length bs; rest = back })
read_one-encode r bs back t h =
    let (good, e) = encode_inv r bs h in rw (e, length-frame r) (read_one-frame r t back good)

-- Every proper prefix of the bytes that `encode` returns is a torn tail: `read_one` returns None on
-- it, and does not raise.
pub read_one-encode_torn :
    (r : Record) (bs : Bytes) (t n : ℕ)
    → encode r ≡ ok bs
    → n < length bs
    → (f : Stream) × (read_one (record { tell = t; rest = take n bs }) ≡ ok (none, f))
read_one-encode_torn r bs t n h short =
    let (good, e) = encode_inv r bs h in
    rw e (read_one_torn r t n good (omega (arith, ap length e, length-frame r)))
