-- ===== src/Storage/ChainTests.antt =====
-- Indexes, segments and logs at concrete data.
use mathlib.Core.List.Permᴰ
use pyka.Storage.Segment
use pyka.Common.{
  ℕ, if◌then◌else◌, ◌≡◌, ◌∙◌, refl, sym, ap, List, [], ◌∷◌, ◌++◌, append-nil, true, false, none,
  some, ok, err, value_error, arith, length,
}
use pyka.Common.Int
use pyka.Python.Bisect
use pyka.Common.Int.{ℤ, pos, negsuc, ◌+ℤ◌, +ℤ_zero, ltb_ℤ, eq_ℤ}
use pyka.Python.Struct.{Bytes, fits_signed}
use pyka.Storage.Record.{Record, size_field, size}
use pyka.Storage.Record.Layout.{frame, IsEncodable, length-frame}
use pyka.Storage.Index.{Index, maybe_append, lookup, open_index}
use pyka.Storage.Index
use pyka.Storage.Index.Entries
use pyka.Storage.Index.Entries.{maybe_append-IsValid, open_index-sync, pack_entries}
use pyka.Storage.Index.Lookup.{hint, lookup-hint}
use pyka.Storage.Segment.{Segment}
use pyka.Storage.Segment.Runs.{frames}
use pyka.Storage.Segment.Recovery.{IsWellFormed}
use pyka.Storage.Segment.Crash.{kept}
use pyka.Storage.Segment.Reading.{yielding}
use pyka.Storage.Log.{Log, LogFile}
use pyka.Storage.Log
use pyka.Storage.Log.Chain.{Holds, records}
use pyka.Storage.Log.Append.{append-ok}
use pyka.Storage.Log.Files.{file_of}
use pyka.Storage.Log.Reopening.{open_log_crash, sync-open_log}
use pyka.Storage.Log.Reading.{read_from-wanted-records}

-- An index over a log whose records of 100 bytes begin at byte 0, with an entry every 250 bytes.
abbrev sparse : Index
sparse = record {
  base_offset = pos 10;
  interval_bytes = 250;
  entries = (3, 300) ∷ (6, 600) ∷ [];
  disk = [];
  pending = pack_entries ((3, 300) ∷ (6, 600) ∷ []);
  closed = false;
}

sparse-IsValid : Entries.IsValid sparse
sparse-IsValid = record { increasing = omega arith; bounded = omega arith; stored = refl }

maybe_append-IsValid_example : Entries.IsValid (maybe_append sparse (pos 19) 900).1
maybe_append-IsValid_example = maybe_append-IsValid sparse (pos 19) 900 sparse-IsValid

-- An offset that does not follow the last entry raises.
backwards : (maybe_append sparse (pos 12) 900).0 ≡ err value_error
unfolding maybe_append Int.◌-ℤ◌
backwards = refl

lookup-hint_example : lookup sparse (pos 15) ≡ ok (hint sparse (pos 15))
lookup-hint_example = lookup-hint sparse (pos 15) sparse-IsValid

lookup_between : lookup sparse (pos 15) ≡ ok (pos 13, 300)
unfolding lookup Bisect.bisect_right Int.◌-ℤ◌ Int.◌+ℤ◌
lookup_between = refl

open_index-sync_example :
    let y = open_index (pos 10) 250 ((Index.sync sparse).1.disk ++ (1 ∷ 2 ∷ [])) in
    (y.entries ≡ sparse.entries) × (y.disk ≡ (Index.sync sparse).1.disk)
open_index-sync_example =
    open_index-sync sparse (1 ∷ 2 ∷ []) (pos 10) 250 sparse-IsValid refl (omega arith)

abbrev pub first : Record
first = record { offset = pos 0; timestamp = negsuc 4; key = some (1 ∷ 2 ∷ []); value = none }

first-IsEncodable : IsEncodable first
unfolding fits_signed size_field
first-IsEncodable = record { offset_fits = refl; timestamp_fits = refl; size_fits = omega arith }

abbrev second : Record
second = record { offset = pos 1; timestamp = pos 7; key = none; value = some [] }

second-IsEncodable : IsEncodable second
unfolding fits_signed size_field
second-IsEncodable = record { offset_fits = refl; timestamp_fits = refl; size_fits = omega arith }

abbrev empty_index : Index
empty_index = record {
  base_offset = pos 0;
  interval_bytes = 4096;
  entries = [];
  disk = [];
  pending = [];
  closed = false;
}

-- A segment that holds one record of 34 bytes.
abbrev one_record : Segment
one_record = record {
  base_offset = pos 0;
  max_bytes = 60;
  index = empty_index;
  next_offset = pos 1;
  position = 34;
  content = frame first;
  synced = 34;
  closed = false;
}

length-first : length (frame first) ≡ 34
unfolding size
length-first = length-frame first

length_one : 34 ≡ length (frames (first ∷ []))
length_one = sym length-first ∙ ap length (sym (append-nil (frame first)))

one_record-IsWellFormed : IsWellFormed one_record (first ∷ [])
unfolding Int.◌+ℤ◌
one_record-IsWellFormed = record {
  run = (refl, first-IsEncodable, tt);
  stored = sym (append-nil (frame first));
  next = refl;
  end = length_one;
  indexed = record {
    same_base = refl;
    valid = record { increasing = tt; bounded = tt; stored = refl };
    pointing = tt;
  };
  same_state = refl;
  limit = omega arith;
  durable = omega (arith, length-first);
}

abbrev pub one_log : Log
one_log = record { sealed = []; active = one_record; max_segment_bytes = 60 }

pub one_log-Holds : Holds one_log (pos 0) [] (first ∷ [])
one_log-Holds = record {
  sealed = tt;
  tail = one_record-IsWellFormed;
  tail_base = sym (+ℤ_zero (pos 0));
  tail_open = refl;
  tail_limit = refl;
}

-- The tail has 34 of its 60 bytes: a second record begins a new segment.
append-ok_example :
    (l' : Log) × (parts' : List (List Record)) × (last' : List Record) × (Log.append one_log none
        (some [])
        (some (pos 7))
        (pos 0)
      ≡ (ok (pos 0 +ℤ pos 1), l'))
    × Holds l' (pos 0) parts' last'
    × (records parts' last' ≡ first ∷ second ∷ [])
append-ok_example =
    append-ok one_log (pos 0) [] (first ∷ []) none (some []) (some (pos 7)) (pos 0) one_log-Holds
      second-IsEncodable

read_from-wanted-records_example : Log.read_from one_log (pos 0) ≡ ok (yielding (first ∷ []))
read_from-wanted-records_example =
    read_from-wanted-records one_log (pos 0) [] (first ∷ []) (pos 0) one_log-Holds (omega arith)

-- The log after the append of the second record: one segment is sealed.
abbrev sealed_one : Segment
sealed_one = record one_record { index = record empty_index { closed = true }; closed = true }

abbrev second_index : Index
second_index = record empty_index { base_offset = pos 1 }

abbrev tail_one : Segment
tail_one = record {
  base_offset = pos 1;
  max_bytes = 60;
  index = second_index;
  next_offset = pos 2;
  position = 32;
  content = frame second;
  synced = 0;
  closed = false;
}

abbrev rolled : Log
rolled = record { sealed = sealed_one ∷ []; active = tail_one; max_segment_bytes = 60 }

length-second : length (frame second) ≡ 32
unfolding size
length-second = length-frame second

rolled-Holds : Holds rolled (pos 0) ((first ∷ []) ∷ []) (second ∷ [])
unfolding Int.◌+ℤ◌
rolled-Holds = record {
  sealed = (
    refl,
    record {
      run = (refl, first-IsEncodable, tt);
      stored = sym (append-nil (frame first));
      next = refl;
      end = length_one;
      indexed = record {
        same_base = refl;
        valid = record { increasing = tt; bounded = tt; stored = refl };
        pointing = tt;
      };
      same_state = refl;
      limit = omega arith;
      durable = omega (arith, length-first);
    },
    record { shut = refl; durable = omega (arith, length-first); full = omega arith },
    tt,
  );
  tail = record {
    run = (refl, second-IsEncodable, tt);
    stored = sym (append-nil (frame second));
    next = refl;
    end = sym length-second ∙ ap length (sym (append-nil (frame second)));
    indexed = record {
      same_base = refl;
      valid = record { increasing = tt; bounded = tt; stored = refl };
      pointing = tt;
    };
    same_state = refl;
    limit = omega arith;
    durable = omega arith;
  };
  tail_base = refl;
  tail_open = refl;
  tail_limit = refl;
}

-- All of the sealed segment's file is left, five bytes of the tail's, and no index. The directory
-- lists the tail first.
abbrev few_left : ℤ → ℕ
few_left b = if eq_ℤ b (pos 0) then 34 else 5

abbrev none_left : ℤ → Bytes
none_left b = []

abbrev listed : (ℤ → ℕ) → Segment → List LogFile
listed left tail = file_of left none_left tail ∷ file_of left none_left sealed_one ∷ []

open_log_crash_example :
    (l' : Log) × (Log.open_log 60 (listed few_left tail_one) ≡ ok l')
    × Holds l' (pos 0) ((first ∷ []) ∷ []) (kept 5 (second ∷ []))
open_log_crash_example =
    open_log_crash rolled (pos 0) ((first ∷ []) ∷ []) (second ∷ []) few_left none_left
      (listed few_left tail_one) rolled-Holds (omega arith, tt) (omega arith) (omega arith, tt)
      (Permᴰ.swap refl refl)

abbrev forty_left : ℤ → ℕ
forty_left b = 40

synced_at : (Log.sync rolled).1.active.synced ≡ length (frame second)
unfolding Log.sync Segment.sync
synced_at = refl

sync-open_log_example :
    (l' : Log) × (Log.sync rolled ≡ (ok tt, l'))
    × Holds l' (pos 0) ((first ∷ []) ∷ []) (second ∷ [])
    × (l'' : Log) × (Log.open_log l'.max_segment_bytes
          (listed forty_left (Log.sync rolled).1.active)
        ≡ ok l'')
    × Holds l'' (pos 0) ((first ∷ []) ∷ []) (second ∷ [])
unfolding Log.sync Segment.sync
sync-open_log_example =
    sync-open_log rolled (pos 0) ((first ∷ []) ∷ []) (second ∷ []) forty_left none_left
      (listed forty_left (Log.sync rolled).1.active) rolled-Holds (omega arith, tt) (omega arith)
      (omega arith, tt) (omega (arith, synced_at, length-second)) (Permᴰ.swap refl refl)
