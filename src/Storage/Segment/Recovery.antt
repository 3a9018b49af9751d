-- ===== src/Storage/Segment/Recovery.antt =====
-- `_recover` after a crash: the records that were written whole are kept, the torn one is cut off.
use mathlib.Core.Path.{subst, ap₂}
use pyka.Common.{
  ℕ, zero, suc, ◌+◌, ◌≤◌, ◌<◌, ◌≡◌, ◌∙◌, refl, sym, ap, List, [], ◌∷◌, ◌++◌, append_assoc,
  append-nil, true, false, none, ok, arith, length, length-append, take, take-append, le→leb,
  lt→ltb,
}
use pyka.Common.Int.{ℤ, pos, ◌+ℤ◌, eq_ℤ, eq_ℤ_iff, +ℤ_zero}
use pyka.Python.Struct.{Bytes}
use pyka.Python.File.{Stream, open_at}
use pyka.Storage.Record.{Record, read_one, size}
use pyka.Storage.Record.Layout.{frame, IsEncodable}
use pyka.Storage.Record.Reading.{read_one-frame}
use pyka.Storage.Index.{maybe_append, max_u32, open_index, clear}
use pyka.Storage.Index.Entries.{clear-IsValid}
use pyka.Storage.Segment.{Segment, Recovered, recover_loop, open_segment, interval_bytes}
use pyka.Storage.Segment.Runs.{
  frames, IsRun, offset_next, length-frames-append, length-frames_cons, size-ge, length-frames-ge,
}
use pyka.Storage.Segment.Pointing.{Indexes, maybe_append-next}

-- What a segment object knows when it holds the records `rs`.
pub record IsWellFormed (s : Segment) (rs : List Record) : Type 0 where
  pub run : IsRun s.base_offset rs
  pub stored : s.content ≡ frames rs
  pub next : s.next_offset ≡ s.base_offset +ℤ pos (length rs)
  pub end : s.position ≡ length (frames rs)
  pub indexed : Indexes s.base_offset rs s.index
  pub same_state : s.index.closed ≡ s.closed
  pub limit : (0 < s.max_bytes) × (s.max_bytes ≤ max_u32 + 1)
  pub durable : s.synced ≤ length s.content

-- What recovery has found so far.
record HasFound (base : ℤ) (rs : List Record) (f : Recovered) : Type 0 where
  indexed : Indexes base rs f.index
  open_file : f.index.closed ≡ false
  next : f.next_offset ≡ base +ℤ pos (length rs)
  end : f.position ≡ length (frames rs)

-- Bytes that no record begins with, wherever they stand: the end of the file or a torn record.
abbrev pub IsTorn : Bytes → Type 0
IsTorn bs = (t : ℕ) → (f : Stream) × (read_one (record { tell = t; rest = bs }) ≡ ok (none, f))

one_round :
    (fuel : ℕ) (base : ℤ) (done : List Record) (r : Record) (rest : Bytes) (f : Recovered)
    → HasFound base done f
    → IsEncodable r
    → r.offset ≡ base +ℤ pos (length done)
    → length (frames done) ≤ max_u32
    → (f' : Recovered) × HasFound base (done ++ (r ∷ [])) f'
      × (recover_loop (suc fuel) f (record { tell = f.position; rest = frame r ++ rest })
          ≡ recover_loop fuel f' (record { tell = f'.position; rest = rest }))
unfolding recover_loop
one_round fuel base done r rest f h good same fits =
    let (y, added, covers, open_file) =
      maybe_append-next base done r f.index h.indexed h.open_file fits in
    let f' : Recovered = record {
      index = y;
      next_offset = r.offset +ℤ pos 1;
      position = f.position + size r;
    } in
    let in_order : eq_ℤ r.offset f.next_offset ≡ true =
      (eq_ℤ_iff r.offset f.next_offset).1 (same ∙ sym h.next) in
    let offered : maybe_append f.index r.offset f.position ≡ (ok tt, y) =
      ap₂ (maybe_append f.index) same h.end ∙ added in
    (
      f',
      record {
        indexed = covers;
        open_file = open_file;
        next = ap (λ o. o +ℤ pos 1) same ∙ offset_next base done r;
        end = omega (arith, h.end, length-frames-append done (r ∷ []), length-frames_cons r []);
      },
      rw (read_one-frame r f.position rest good, in_order, offered),
    )

-- The loop reads a run to its end and stops at the torn bytes behind it.
recover_loop-run :
    (base : ℤ) (torn : Bytes) (done rs : List Record) (fuel : ℕ) (f : Recovered)
    → HasFound base done f
    → IsRun (base +ℤ pos (length done)) rs
    → IsTorn torn
    → length rs < fuel
    → length (frames (done ++ rs)) ≤ max_u32 + 1
    → (f' : Recovered) × (recover_loop fuel f
          (record { tell = f.position; rest = frames rs ++ torn })
        ≡ ok f')
      × HasFound base (done ++ rs) f'
unfolding recover_loop
recover_loop-run base torn done rs zero f h run t enough fits = absurd (omega arith)
recover_loop-run base torn done [] (suc fuel) f h run t enough fits =
    let (g, stop) = t f.position in (f, rw stop, rw (append-nil done) h)
recover_loop-run base torn done (r ∷ rs) (suc fuel) f h run t enough fits =
    let (f', found, step) =
      one_round fuel base done r (frames rs ++ torn) f h run.1 run.0
        (omega (arith, length-frames-append done (r ∷ rs), length-frames_cons r rs, size-ge r)) in
    let (f'', end, all) =
      recover_loop-run base torn (done ++ (r ∷ [])) rs fuel f' found
        (subst (λ o. IsRun o rs) (offset_next base done r) run.2) t (omega arith)
        (rw (append_assoc done (r ∷ []) rs) fits) in
    (
      f'',
      ap (λ b. recover_loop (suc fuel) f (record { tell = f.position; rest = b }))
            (append_assoc (frame r) (frames rs) torn)
          ∙ step
          ∙ end,
      subst (λ l. HasFound base l f'') (append_assoc done (r ∷ []) rs) all,
    )

started :
    (base : ℤ) (index_content : Bytes)
    → HasFound base [] (record {
      index = clear (open_index base interval_bytes index_content);
      next_offset = base;
      position = 0;
    })
unfolding clear open_index
started base index_content = record {
  indexed = record {
    same_base = refl;
    valid = clear-IsValid (open_index base interval_bytes index_content);
    pointing = tt;
  };
  open_file = refl;
  next = sym (+ℤ_zero base);
  end = refl;
}

-- A file that holds a run of records and a torn tail is recovered: the segment has the records, its
-- index is rebuilt whatever the index file held, and the tail is cut off.
pub open_segment-run :
    (base : ℤ) (max_bytes : ℕ) (rs : List Record) (torn index_content : Bytes)
    → 0 < max_bytes
    → max_bytes ≤ max_u32 + 1
    → IsRun base rs
    → IsTorn torn
    → length (frames rs) ≤ max_u32 + 1
    → (s : Segment) × (open_segment base max_bytes (frames rs ++ torn) index_content ≡ ok s)
      × IsWellFormed s rs
      × (s.closed ≡ false)
      × (s.base_offset ≡ base)
      × (s.max_bytes ≡ max_bytes)
unfolding open_segment open_at
open_segment-run base max_bytes rs torn index_content lo hi run t fits =
    let x = clear (open_index base interval_bytes index_content) in
    let start : Recovered = record { index = x; next_offset = base; position = 0 } in
    let (f, found, h) =
      recover_loop-run base torn [] rs (suc (length (frames rs ++ torn))) start
        (started base index_content) (rw (+ℤ_zero base) run) t
        (omega (arith, length-append (frames rs) torn, length-frames-ge rs)) fits in
    (
      record {
        base_offset = base;
        max_bytes = max_bytes;
        index = f.index;
        next_offset = f.next_offset;
        position = f.position;
        content = take f.position (frames rs ++ torn);
        synced = 0;
        closed = false;
      },
      rw (lt→ltb 0 max_bytes lo, le→leb max_bytes (max_u32 + 1) hi, found),
      record {
        run = run;
        stored = take-append f.position (frames rs) torn h.end;
        next = h.next;
        end = h.end;
        indexed = h.indexed;
        same_state = h.open_file;
        limit = (lo, hi);
        durable = omega arith;
      },
      refl,
      refl,
      refl,
    )
