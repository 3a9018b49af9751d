-- ===== src/Storage/Index.antt =====
-- src/pyka/storage/index.py: the sparse map from offsets to byte positions.
pub mod Entries
pub mod Lookup
use Prim.Native.Nat.{compare, Ordering}
use pyka.Common.{
  ℕ, zero, suc, ◌+◌, ◌-◌, ◌^◌, ◌%◌, List, [], ◌∷◌, ◌++◌, Bool, true, false, ◌&&◌, Option, none,
  some, Result, ok, err, value_error, index_error, ltb, leb, length, take, get_elem?, get_last?,
  if◌then◌else◌, not,
}
use pyka.Common.Int.{ℤ, pos, pos_part, ◌+ℤ◌, ◌-ℤ◌, ltb_ℤ, leb_ℤ}
use pyka.Python.Struct.{Bytes, to_bytes, from_bytes}
use pyka.Python.Bisect.{bisect_right}

-- struct.calcsize(">II")
abbrev pub entry_size : ℕ
entry_size = 8

abbrev pub max_u32 : ℕ
max_u32 = 2 ^ 32 - 1

-- `disk` is the content of the .index file; `pending` was written and not flushed.
pub record Index : Type 0 where
  pub base_offset : ℤ
  pub interval_bytes : ℕ
  pub entries : List (ℕ × ℕ)
  pub disk : Bytes
  pub pending : Bytes
  pub closed : Bool

-- list(struct.iter_unpack(ENTRY, index_bytes)), on a whole number of entries
pub unpack_entries : Bytes → List (ℕ × ℕ)
unpack_entries (a ∷ b ∷ c ∷ d ∷ e ∷ f ∷ g ∷ h ∷ rest) =
    (from_bytes (a ∷ b ∷ c ∷ d ∷ []), from_bytes (e ∷ f ∷ g ∷ h ∷ [])) ∷ unpack_entries rest
unpack_entries _ = []

-- struct.pack(ENTRY, relative, position), both within u32
abbrev pub pack_entry : ℕ → ℕ → Bytes
pack_entry relative position = to_bytes 4 relative ++ to_bytes 4 position

-- Index(path, base_offset, interval_bytes), the file holding `content`
unfoldable pub open_index : ℤ → ℕ → Bytes → Index
unfolding unpack_entries
open_index base interval content =
    let end = length content - length content % entry_size in
    let kept = take end content in
    record {
      base_offset = base;
      interval_bytes = interval;
      entries = unpack_entries kept;
      disk = kept;
      pending = [];
      closed = false;
    }

-- self._entries[-1][1] if self._entries else 0
abbrev pub last_position : List (ℕ × ℕ) → ℕ
last_position entries = elim (get_last? entries) [ none ↦ 0 | some e ↦ e.1 ]

-- self._entries and relative <= self._entries[-1][0]
abbrev pub follows_last : List (ℕ × ℕ) → ℕ → Bool
follows_last entries relative = elim (get_last? entries) [ none ↦ true | some e ↦ ltb e.0 relative ]

-- self._file.write(...) on a closed file raises ValueError
unfoldable pub add_entry : Index → ℕ → ℕ → Result (Unit {0}) × Index
add_entry x relative position = if x.closed then (err value_error, x) else (
  ok tt,
  record x {
    pending = x.pending ++ pack_entry relative position;
    entries = x.entries ++ (relative, position) ∷ [];
  },
)

unfoldable pub maybe_append : Index → ℤ → ℕ → Result (Unit {0}) × Index
unfolding add_entry
maybe_append x offset position =
    let relative = offset -ℤ x.base_offset in
    if ltb position (last_position x.entries + x.interval_bytes)
    then (ok tt, x)
    else if not (leb_ℤ (pos 0) relative && leb_ℤ relative (pos max_u32))
    then (err value_error, x)
    else if not (leb position max_u32)
    then (err value_error, x)
    else if not (follows_last x.entries (pos_part relative))
    then (err value_error, x)
    else add_entry x (pos_part relative) position

-- `relative < e[0]`, the question that the binary search asks
abbrev pub starts_after : ℤ → ℕ × ℕ → Bool
starts_after relative e = ltb_ℤ relative (pos e.0)

-- entries[i], at the position `bisect_right` gave, less one
abbrev entry_before : Index → ℕ → Result (ℤ × ℕ)
entry_before x zero = ok (x.base_offset, 0)
entry_before x (suc i) = elim (get_elem? x.entries i) [
  | none ↦ err index_error
  | some e ↦ ok (x.base_offset +ℤ pos e.0, e.1)
]

unfoldable pub lookup : Index → ℤ → Result (ℤ × ℕ)
lookup x offset = entry_before x (bisect_right (starts_after (offset -ℤ x.base_offset)) x.entries)

-- The pending bytes are flushed, and the file is cut to nothing.
unfoldable pub clear : Index → Index
clear x = record x { entries = []; disk = []; pending = [] }

unfoldable pub last_entry : Index → Option (ℤ × ℕ)
last_entry x = elim (get_last? x.entries) [
  | none ↦ none
  | some e ↦ some (x.base_offset +ℤ pos e.0, e.1)
]

-- flush and fsync; both raise ValueError on a closed file
unfoldable pub sync : Index → Result (Unit {0}) × Index
sync x =
    if x.closed
    then (err value_error, x)
    else (ok tt, record x { disk = x.disk ++ x.pending; pending = [] })

unfoldable pub close : Index → Index
unfolding sync
close x = if x.closed then x else record (sync x).1 { closed = true }

-- __len__
unfoldable pub size : Index → ℕ
size x = length x.entries
