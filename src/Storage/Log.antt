-- ===== src/Storage/Log.antt =====
-- src/pyka/storage/log.py: one topic-partition, a chain of segments of which only the tail is
-- written.
pub mod Chain
pub mod Append
pub mod Reading
pub mod Files
pub mod Opened
pub mod Reopening
pub mod Growth
pub mod Sorting
use pyka.Common.{
  ℕ, zero, suc, ◌+◌, List, [], ◌∷◌, ◌++◌, map, Bool, true, false, Option, none, some, Result, ok,
  err, Error, value_error, corrupt_log, offset_out_of_range, ◌>>=◌, ◌>>◌, guard, ◌==◌, drop,
  if◌then◌else◌,
}
use pyka.Common.Int.{ℤ, pos, ltb_ℤ, leb_ℤ, eq_ℤ}
use pyka.Python.Struct.{Bytes}
use pyka.Python.Bisect.{bisect_right}
use pyka.Storage.Record.{Record}
use pyka.Storage.Segment.{
  Segment, Iteration, ended, raising, open_segment, size_bytes, has_room_for,
}
use pyka.Storage.Segment

-- `_segments`, which is never empty: all but the last, and the last (`_active`).
pub record Log : Type 0 where
  pub sealed : List Segment
  pub active : Segment
  pub max_segment_bytes : ℕ

abbrev pub segments : Log → List Segment
segments l = l.sealed ++ (l.active ∷ [])

abbrev pub next_offset : Log → ℤ
next_offset l = l.active.next_offset

-- A .log file of the directory with the .index file beside it. `stem` is `int(p.stem)`, and `none`
-- where that raises ValueError. The name of a file with a number is the one that Segment makes of it,
-- with twenty digits: it is the file that Segment opens.
pub record LogFile : Type 0 where
  pub stem : Option ℤ
  pub content : Bytes
  pub index_content : Bytes

-- The base offset and the two files of each segment.
abbrev pub Base : Type 0
Base = ℤ × Bytes × Bytes

pub bases_of : List LogFile → Result (List Base)
bases_of [] = ok []
bases_of (f ∷ fs) = do
  base ← elim f.stem [ none ↦ err value_error | some b ↦ ok b ]
  rest ← bases_of fs
  ok ((base, f.content, f.index_content) ∷ rest)

insert : Base → List Base → List Base
insert b [] = b ∷ []
insert b (c ∷ cs) = let rest = insert b cs in if ltb_ℤ c.0 b.0 then c ∷ rest else b ∷ c ∷ cs

-- sorted(...), on distinct numbers
pub sort : List Base → List Base
unfolding insert
sort [] = []
sort (b ∷ bs) = insert b (sort bs)

-- if not bases: bases = [Offset(0)]
pub or_first : List Base → List Base
or_first [] = (pos 0, [], []) ∷ []
or_first (b ∷ bs) = b ∷ bs

open_all : ℕ → List Base → Result (List Segment)
open_all max_bytes [] = ok []
open_all max_bytes ((base, content, index_content) ∷ bs) = do
  s ← open_segment base max_bytes content index_content
  rest ← open_all max_bytes bs
  ok (s ∷ rest)

-- for prev, cur in zip(self._segments, self._segments[1:])
pub check_chain : List Segment → Result (Unit {0})
check_chain [] = ok tt
check_chain (s ∷ []) = ok tt
check_chain (prev ∷ cur ∷ ss) = do
  guard (eq_ℤ cur.base_offset prev.next_offset) corrupt_log
  check_chain (cur ∷ ss)

-- for seg in self._segments[:-1]: seg.close()
seal : ℕ → List Segment → Segment → List Segment → Log
seal max_bytes sealed s [] = record { sealed = sealed; active = s; max_segment_bytes = max_bytes }
seal max_bytes sealed s (s' ∷ ss) = seal max_bytes (sealed ++ (Segment.close s ∷ [])) s' ss

-- No segment cannot be.
pub seal_opened : ℕ → List Segment → Result Log
unfolding seal
seal_opened max_bytes [] = err value_error
seal_opened max_bytes (s ∷ ss) = ok (seal max_bytes [] s ss)

-- Log(directory, max_segment_bytes), over the files of the directory
unfoldable pub open_log : ℕ → List LogFile → Result Log
unfolding bases_of sort or_first open_all check_chain seal_opened
open_log max_bytes files = do
  bases ← bases_of files
  opened ← open_all max_bytes (or_first (sort bases))
  check_chain opened
  seal_opened max_bytes opened

-- The new file has a name that no file has, and is empty.
unfoldable pub roll : Log → Result Segment × Log
roll l =
    if size_bytes l.active == 0
    then (ok l.active, l)
    else let closed = Segment.close l.active in
      elim (open_segment closed.next_offset l.max_segment_bytes [] []) [
        | ok s ↦ (ok s, record l { sealed = l.sealed ++ (closed ∷ []); active = s })
        | err e ↦ (err e, record l { active = closed })
      ]

-- The record that `append` builds. `now` is time.time_ns() // 1_000_000.
abbrev pub stamp : Log → Option Bytes → Option Bytes → Option ℤ → ℤ → Record
stamp l key value timestamp now = record {
  offset = next_offset l;
  timestamp = elim timestamp [ none ↦ now | some t ↦ t ];
  key = key;
  value = value;
}

-- self._active.append(record); return offset
abbrev pub append_active : Log → Record → Result ℤ × Log
append_active l r =
    let (result, active) = Segment.append l.active r in
    (elim result [ ok _ ↦ ok r.offset | err e ↦ err e ], record l { active = active })

unfoldable pub append : Log → Option Bytes → Option Bytes → Option ℤ → ℤ → Result ℤ × Log
append l key value timestamp now =
    let r = stamp l key value timestamp now in
    if has_room_for l.active r
    then append_active l r
    else let (rolled, l') = roll l in
      elim rolled [ ok _ ↦ append_active l' r | err e ↦ (err e, l') ]

-- yield from one iteration, then from the rest
abbrev pub then_from : Iteration → Iteration → Iteration
then_from first rest = elim first.raised [
  | none ↦ record rest { records = first.records ++ rest.records }
  | some e ↦ first
]

abbrev pub max_ℤ : ℤ → ℤ → ℤ
max_ℤ a b = if ltb_ℤ a b then b else a

-- for seg in segments: yield from seg.read_from(max(offset, seg.base_offset))
unfoldable pub iter_segments : ℤ → List Segment → Iteration
iter_segments offset [] = ended
iter_segments offset (s ∷ ss) =
    let rest = iter_segments offset ss in
    elim (Segment.read_from s (max_ℤ offset s.base_offset)) [
      | ok first ↦ then_from first rest
      | err e ↦ raising e
    ]

-- segments[start:] for start = bisect_right(bases, offset) - 1; a slice from -1 is the last one
abbrev pub from_start : Log → ℕ → List Segment
from_start l zero = l.active ∷ []
from_start l (suc start) = drop start (segments l)

abbrev pub begins_after : ℤ → Segment → Bool
begins_after offset s = ltb_ℤ offset s.base_offset

unfoldable pub iter_from : Log → ℤ → Iteration
unfolding iter_segments
iter_from l offset =
    iter_segments offset (from_start l (bisect_right (begins_after offset) (segments l)))

abbrev pub first_base : Log → ℤ
first_base l = elim l.sealed [ [] ↦ l.active.base_offset | s ∷ _ ↦ s.base_offset ]

-- `_iter_from` holds the lock while it takes the tuple of the segments; here these stay as they are
-- until the iteration is over.
unfoldable pub read_from : Log → ℤ → Result Iteration
unfolding iter_from
read_from l offset =
    if ltb_ℤ offset (first_base l) then err offset_out_of_range else ok (iter_from l offset)

unfoldable pub sync : Log → Result (Unit {0}) × Log
sync l = let (r, active) = Segment.sync l.active in (r, record l { active = active })

-- A close that fails is an error of the operating system, which the model does not have.
unfoldable pub close : Log → Log
close l = record l { sealed = map Segment.close l.sealed; active = Segment.close l.active }
