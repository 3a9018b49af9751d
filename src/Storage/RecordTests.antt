-- ===== src/Storage/RecordTests.antt =====
-- The storage layer at concrete data.
use pyka.Common.{
  ◌^◌, ◌≡◌, ◌↔◌, refl, [], ◌∷◌, ◌++◌, none, some, ok, err, struct_error, arith, length, take,
}
use pyka.Common.Int.{pos, negsuc}
use pyka.Python.Struct.{Bytes, to_bytes, signed_bytes, fits_signed, pack_u32, pack_signed}
use pyka.Python.File.{Stream}
use pyka.Python.Zlib.{crc32}
use pyka.Storage.Record.{Record, size_field, size, encode, decode, read_one}
use pyka.Storage.Record.Layout.{frame, IsEncodable, encode_iff, length-frame, encode-frame}
use pyka.Storage.Record.RoundTrip.{decode-encode}
use pyka.Storage.Record.Reading.{read_one-encode_torn, read_one_undersized}

abbrev first : Record
first = record { offset = pos 0; timestamp = negsuc 4; key = some (1 ∷ 2 ∷ []); value = none }

first_bytes : Bytes
unfolding encode pack_signed pack_u32 fits_signed signed_bytes crc32 size_field to_bytes
first_bytes = elim (encode first) [ ok bs ↦ bs | err e ↦ [] ]

-- What Python's `Record(0, -5, b"\x01\x02", None).encode()` begins with.
first_starts : take 12 first_bytes ≡ 0 ∷ 0 ∷ 0 ∷ 0 ∷ 0 ∷ 0 ∷ 0 ∷ 0 ∷ 0 ∷ 0 ∷ 0 ∷ 22 ∷ []
unfolding first_bytes
first_starts = refl

first-IsEncodable : IsEncodable first
unfolding fits_signed size_field
first-IsEncodable = record { offset_fits = refl; timestamp_fits = refl; size_fits = omega arith }

first_encodes : encode first ≡ ok (frame first)
first_encodes = encode-frame first first-IsEncodable

too_large : encode (record first { timestamp = pos (2 ^ 63) }) ≡ err struct_error
unfolding encode pack_signed fits_signed
too_large = refl

encode_iff_example :
    (encode first ≡ ok (frame first))
    ↔ (IsEncodable first × (frame first ≡ frame first) × (length (frame first) ≡ size first))
encode_iff_example = encode_iff first (frame first)

decode-encode_example : decode ((7 ∷ []) ++ (frame first ++ (9 ∷ []))) 1 ≡ ok first
decode-encode_example = decode-encode first (frame first) (7 ∷ []) (9 ∷ []) first_encodes

length-first : length (frame first) ≡ 34
unfolding size
length-first = length-frame first

read_one-encode_torn_example :
    (f : Stream) × (read_one (record { tell = 0; rest = take 33 (frame first) }) ≡ ok (none, f))
read_one-encode_torn_example =
    read_one-encode_torn first (frame first) 0 33 first_encodes (omega (arith, length-first))

-- Twelve zero bytes, as a file system may leave them behind after a power cut.
abbrev zeros : Bytes
zeros = 0 ∷ 0 ∷ 0 ∷ 0 ∷ 0 ∷ 0 ∷ 0 ∷ 0 ∷ []

read_one_undersized_example :
    read_one (record { tell = 0; rest = (zeros ++ to_bytes 4 0) ++ [] }) ≡ err struct_error
read_one_undersized_example = read_one_undersized 0 0 zeros [] refl (omega arith) (omega arith)
