-- ===== src/Storage/Record.antt =====
-- src/pyka/storage/record.py: the framing of one record.
pub mod Layout
pub mod RoundTrip
pub mod Reading
use pyka.Common.{
  ℕ, ◌+◌, ◌-◌, ◌^◌, ◌≡◌, List, [], ◌∷◌, ◌++◌, Bool, true, false, not, ◌&&◌, ◌||◌, Option, none,
  some, Result, ok, err, value_error, corrupt_record, ◌>>=◌, ◌>>◌, guard, ltb, leb, ◌==◌,
  if◌then◌else◌, length, take, drop,
}
use pyka.Common.Int.{ℤ, pos, negsuc, pos_part, ltb_ℤ, eq_ℤ}
use pyka.Python.Struct.{
  Bytes, pack_u32, pack_i64, pack_i32, unpack_u32, unpack_signed, field_at, from_bytes, signed,
}
use pyka.Python.Zlib.{crc32}
use pyka.Python.File.{Stream, read}

-- An absent key or value is `none`; an empty one is `some []`.
pub record Record : Type 0 where
  pub offset : ℤ
  pub timestamp : ℤ
  pub key : Option Bytes
  pub value : Option Bytes

-- struct.calcsize of ">qI", ">qIIqii" and ">qii"
abbrev pub prefix_size : ℕ
prefix_size = 12

abbrev pub header_size : ℕ
header_size = 32

abbrev pub crc_body_size : ℕ
crc_body_size = 16

abbrev pub null : ℤ
null = negsuc 0

abbrev pub max_size : ℕ
max_size = 2 ^ 20

-- x if x is not None else b""
abbrev pub or_empty : Option Bytes → Bytes
or_empty none = []
or_empty (some bs) = bs

-- len(x) if x is not None else NULL
abbrev pub length_or_null : Option Bytes → ℤ
length_or_null none = null
length_or_null (some bs) = pos (length bs)

-- zlib.crc32(value, zlib.crc32(key, zlib.crc32(crc_body)))
abbrev pub checksum : Bytes → Bytes → Bytes → ℕ
checksum crc_body key_bytes value_bytes = crc32 value_bytes (crc32 key_bytes (crc32 crc_body 0))

-- struct.pack(CRC_BODY, timestamp, klen, vlen)
pub pack_crc_body : ℤ → ℤ → ℤ → Result Bytes
pack_crc_body timestamp klen vlen = do
  t ← pack_i64 timestamp
  k ← pack_i32 klen
  v ← pack_i32 vlen
  ok (t ++ (k ++ v))

-- The `size` field: 4 + struct.calcsize(CRC_BODY) + len(key_bytes) + len(value_bytes)
unfoldable pub size_field : Record → ℕ
size_field r = 4 + crc_body_size + length (or_empty r.key) + length (or_empty r.value)

unfoldable pub encode : Record → Result Bytes
unfolding pack_crc_body size_field
encode r = do
  let key_bytes = or_empty r.key
  let value_bytes = or_empty r.value
  crc_body ← pack_crc_body r.timestamp (length_or_null r.key) (length_or_null r.value)
  crc_pack ← pack_u32 (checksum crc_body key_bytes value_bytes)
  guard (leb (size_field r) max_size) value_error
  offset_pack ← pack_i64 r.offset
  size_pack ← pack_u32 (size_field r)
  ok (offset_pack ++ (size_pack ++ (crc_pack ++ (crc_body ++ (key_bytes ++ value_bytes)))))

-- Record.size(): bytes on disk
unfoldable pub size : Record → ℕ
size r = header_size + length (or_empty r.key) + length (or_empty r.value)

-- buf[at : at + n]
abbrev pub slice : ℕ → ℕ → Bytes → Bytes
slice at n buf = take n (drop at buf)

-- The last step of `decode`: -1 means absent, and the branch is on the declared length.
unfoldable pub unless_null : ℤ → Bytes → Option Bytes
unless_null len bs = if eq_ℤ len null then none else some bs

-- The rest of `decode`, from the three fields of the body on.
unfoldable pub decode_fields : ℤ → ℕ → ℕ → Bytes → ℤ → ℤ → ℤ → Bytes → ℕ → Result Record
decode_fields offset size crc_expected crc_body timestamp klen vlen buf pos_ = do
  guard (not (ltb_ℤ klen null || ltb_ℤ vlen null)) corrupt_record
  let key_len = pos_part klen
  let value_len = pos_part vlen
  guard (4 + crc_body_size + key_len + value_len == size) corrupt_record
  let key_start = pos_ + header_size
  let key_bytes = slice key_start key_len buf
  let value_bytes = slice (key_start + key_len) value_len buf
  guard (checksum crc_body key_bytes value_bytes == crc_expected) corrupt_record
  ok (record {
    offset = offset;
    timestamp = timestamp;
    key = unless_null klen key_bytes;
    value = unless_null vlen value_bytes;
  })

-- Record.decode(buf, pos). `struct` raises `struct.error` where the buffer is too short for a field;
-- an unpack of a slice that is too short does the same.
unfoldable pub decode : Bytes → ℕ → Result Record
decode buf pos_ = do
  offset_bytes ← field_at 8 pos_ buf
  size_bytes ← field_at 4 (pos_ + 8) buf
  let size = unpack_u32 size_bytes
  guard (leb size max_size) corrupt_record
  guard (leb (pos_ + prefix_size + size) (length buf)) corrupt_record
  crc_bytes ← field_at 4 (pos_ + prefix_size) buf
  let crc_body = slice (pos_ + prefix_size + 4) crc_body_size buf
  timestamp_bytes ← field_at 8 0 crc_body
  klen_bytes ← field_at 4 8 crc_body
  vlen_bytes ← field_at 4 12 crc_body
  decode_fields (unpack_signed 8 offset_bytes) size (unpack_u32 crc_bytes) crc_body
      (unpack_signed 8 timestamp_bytes) (unpack_signed 4 klen_bytes) (unpack_signed 4 vlen_bytes)
      buf pos_

-- Record.read_one(f): `ok none` is a torn tail, an error is bytes that are no record.
unfoldable pub read_one : Stream → Result (Option Record × Stream)
read_one f =
    let (prefix, f₁) = read prefix_size f in
    if ltb (length prefix) prefix_size then ok (none, f₁) else do
      size_bytes ← field_at 4 8 prefix
      let size = unpack_u32 size_bytes
      guard (leb size max_size) corrupt_record
      let (rest, f₂) = read size f₁
      if ltb (length rest) size
          then ok (none, f₂)
          else do r ← decode (prefix ++ rest) 0; ok (some r, f₂)
