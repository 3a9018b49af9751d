-- ===== src/Topic/Partitioner.antt =====
-- src/pyka/topic/partitioner.py: which partition of a topic a record goes to.
pub mod Balance
use pyka.Common.{
  ℕ, ◌+◌, ◌%◌, ◌<◌, ◌≤◌, ◌≡◌, refl, Option, none, some, Result, ok, err, value_error, ltb,
  if◌then◌else◌, arith, ltb-false, if_false,
}
use pyka.Python.Struct.{Bytes}
use pyka.Python.Zlib.{crc32}

-- The round-robin counter `_next`.
pub record Partitioner : Type 0 where
  pub next : ℕ

-- A count below 0 takes the branch of 0.
unfoldable pub partition_for : Partitioner → Option Bytes → ℕ → Result ℕ × Partitioner
partition_for s key partitions = if ltb partitions 1 then (err value_error, s) else elim key [
  | none ↦ (ok (s.next % partitions), record s { next = s.next + 1 })
  | some k ↦ (ok (crc32 k 0 % partitions), s)
]
