-- ===== src/Storage/Segment.antt =====
-- src/pyka/storage/segment.py: one .log file with its index.
pub mod Runs
pub mod Pointing
pub mod Recovery
pub mod Crash
pub mod Append
pub mod Reading
use pyka.Common.{
  ℕ, zero, suc, ◌+◌, ◌-◌, ◌^◌, List, [], ◌∷◌, ◌++◌, Bool, true, false, not, ◌&&◌, Option, none,
  some, Result, ok, err, Error, value_error, corrupt_record, runtime_error, stuck, ◌>>=◌, ◌>>◌,
  guard, ltb, leb, ◌==◌, length, take, if◌then◌else◌,
}
use pyka.Common.Int.{ℤ, pos, ◌+ℤ◌, ltb_ℤ, leb_ℤ, eq_ℤ}
use pyka.Python.Struct.{Bytes}
use pyka.Python.File.{Stream, open_at}
use pyka.Storage.Record.{Record, encode, size, read_one}
use pyka.Storage.Index.{Index, open_index, maybe_append, lookup, clear, max_u32}
use pyka.Storage.Index

-- `content` is the .log file and `synced` how many of its bytes fsync has made durable.
-- `position` and `next_offset` are what the object remembers of the file.
pub record Segment : Type 0 where
  pub base_offset : ℤ
  pub max_bytes : ℕ
  pub index : Index
  pub next_offset : ℤ
  pub position : ℕ
  pub content : Bytes
  pub synced : ℕ
  pub closed : Bool

-- the default of `Index.__init__`
abbrev pub interval_bytes : ℕ
interval_bytes = 4096

-- What the loop of `_recover` has found: the rebuilt index, the next offset, the end of the last
-- good record.
pub record Recovered : Type 0 where
  pub index : Index
  pub next_offset : ℤ
  pub position : ℕ

abbrev pub raised_or {ℓ κ} : {A : Type ℓ} {S : Type κ} → Result A × S → Result S
raised_or (ok a, s) = ok s
raised_or (err e, s) = err e

-- while (rec := Record.read_one(f)) is not None
unfoldable pub recover_loop : ℕ → Recovered → Stream → Result Recovered
recover_loop zero r f = err stuck
recover_loop (suc fuel) r f = do
  (found, f') ← read_one f
  elim found [
    | none ↦ ok r
    | some rec ↦ do
      guard (eq_ℤ rec.offset r.next_offset) corrupt_record
      index ← raised_or (maybe_append r.index rec.offset r.position)
      recover_loop fuel
          (record { index = index; next_offset = rec.offset +ℤ pos 1; position = f'.tell }) f'
  ]

-- `_recover` on an index that has been opened: every round reads twelve bytes or more.
unfoldable pub recover : ℤ → Index → Bytes → Result Recovered
unfolding recover_loop
recover base index content =
    recover_loop (suc (length content))
      (record { index = clear index; next_offset = base; position = 0 }) (open_at content 0)

-- Segment(base_path, base_offset, max_bytes), over what the two files hold. What follows the last
-- good record is cut off.
unfoldable pub open_segment : ℤ → ℕ → Bytes → Bytes → Result Segment
unfolding recover
open_segment base max_bytes content index_content = do
  guard (ltb 0 max_bytes && leb max_bytes (max_u32 + 1)) value_error
  r ← recover base (open_index base interval_bytes index_content) content
  ok (record {
    base_offset = base;
    max_bytes = max_bytes;
    index = r.index;
    next_offset = r.next_offset;
    position = r.position;
    content = take r.position content;
    synced = 0;
    closed = false;
  })

-- size_bytes, sealed and index_entries
abbrev pub size_bytes : Segment → ℕ
size_bytes s = s.position

abbrev pub sealed : Segment → Bool
sealed s = s.closed

unfoldable pub index_entries : Segment → ℕ
index_entries s = Index.size s.index

-- self._index.maybe_append(record.offset, position), and the return of `append`
unfoldable pub index_record : Segment → ℤ → ℕ → Result ℕ × Segment
index_record s offset position =
    let (r, index) = maybe_append s.index offset position in
    (elim r [ ok _ ↦ ok position | err e ↦ err e ], record s { index = index })

-- From the write on. The file is open for appending: the bytes go to its end, wherever that is, and
-- `tell` is the end after the write. A write to a closed file raises ValueError.
unfoldable pub write_record : Segment → Record → Bytes → Result ℕ × Segment
unfolding index_record
write_record s r bytes =
    let written = record s { content = s.content ++ bytes } in
    let end = length written.content in
    if s.closed
    then (err value_error, s)
    else if not (end == s.position + size r)
    then (err runtime_error, written)
    else index_record (record written { next_offset = s.next_offset +ℤ pos 1; position = end })
        r.offset s.position

unfoldable pub append : Segment → Record → Result ℕ × Segment
unfolding write_record
append s r =
    if eq_ℤ r.offset s.next_offset
    then elim (encode r) [ ok bytes ↦ write_record s r bytes | err e ↦ (err e, s) ]
    else (err value_error, s)

-- flush and fsync of the log, then of the index
unfoldable pub sync : Segment → Result (Unit {0}) × Segment
sync s =
    if s.closed
    then (err value_error, s)
    else let (r, index) = Index.sync s.index in
      (r, record s { synced = length s.content; index = index })

unfoldable pub close : Segment → Segment
unfolding sync
close s =
    if s.closed
    then s
    else let t = (sync s).1 in record t { closed = true; index = Index.close t.index }

-- An iteration: the records that it yields, and the exception that ends it, if one does.
pub record Iteration : Type 0 where
  pub records : List Record
  pub raised : Option Error

abbrev pub ended : Iteration
ended = record { records = []; raised = none }

abbrev pub raising : Error → Iteration
raising e = record { records = []; raised = some e }

abbrev pub yield_if : Bool → Record → Iteration → Iteration
yield_if b r rest = if b then record rest { records = r ∷ rest.records } else rest

-- while rec is not None: yield it if it is wanted, and read the next
unfoldable pub iter_loop : ℕ → ℤ → Option Record → Stream → Iteration
iter_loop zero offset found f = raising stuck
iter_loop (suc fuel) offset none f = ended
iter_loop (suc fuel) offset (some r) f =
    let rest : Iteration = elim (read_one f) [
      | ok (found, f') ↦ iter_loop fuel offset found f'
      | err e ↦ raising e
    ] in
    yield_if (leb_ℤ offset r.offset) r rest

-- f.seek(0); rec = Record.read_one(f)
unfoldable pub scan_from_start : Bytes → ℤ → Iteration
scan_from_start content offset = elim (read_one (open_at content 0)) [
  | ok (found, f) ↦ iter_loop (suc (length content)) offset found f
  | err e ↦ raising e
]

-- rec is not None and rec.offset == hint_offset
abbrev pub is_hinted : ℤ → Option Record → Bool
is_hinted hint_offset none = false
is_hinted hint_offset (some r) = eq_ℤ r.offset hint_offset

-- The first read at the hint. Only a CorruptRecord is caught there.
unfoldable pub scan_from_hint : Bytes → ℤ → ℤ → ℕ → Iteration
unfolding scan_from_start
scan_from_hint content offset hint_offset position =
    let whole = scan_from_start content offset in
    elim (read_one (open_at content position)) [
      | ok (found, f) ↦
          if is_hinted hint_offset found
          then iter_loop (suc (length content)) offset found f
          else whole
      | err corrupt_record ↦ whole
      | err e ↦ raising e
    ]

unfoldable pub iter_from : Segment → ℤ → Iteration
unfolding scan_from_hint
iter_from s offset = elim (lookup s.index offset) [
  | ok (hint_offset, position) ↦ scan_from_hint s.content offset hint_offset position
  | err e ↦ raising e
]

unfoldable pub read_from : Segment → ℤ → Result Iteration
unfolding iter_from
read_from s offset = if ltb_ℤ offset s.base_offset then err value_error else ok (iter_from s offset)

unfoldable pub has_room_for : Segment → Record → Bool
has_room_for s r = if s.position == 0 then true else leb (s.position + size r) s.max_bytes
