-- ===== src/Storage/Segment/Append.antt =====
-- `append` adds one record to what a segment holds, or changes nothing.
use mathlib.Core.Path.{ap₂}
use pyka.Common.{
  ℕ, ◌+◌, ◌≤◌, ◌≡◌, ◌≢◌, ◌∙◌, refl, sym, ap, List, [], ◌∷◌, ◌++◌, append-nil, true, false, ok, err,
  Error, Result, runtime_error, arith, ==_iff, length, length-append, inl, inr, Result-cases,
  Bool-cases, ◌==◌, if_true, if_false,
}
use pyka.Common.Int.{ℤ, pos, ◌+ℤ◌, eq_ℤ, eq_ℤ_iff}
use pyka.Storage.Record.{Record, size, encode}
use pyka.Storage.Record.Layout.{frame, IsEncodable, length-frame, encode-frame, encode_inv}
use pyka.Storage.Index.{Index, max_u32, maybe_append}
use pyka.Storage.Index
use pyka.Storage.Index.Entries.{sync-IsValid, close-IsValid}
use pyka.Storage.Segment.{Segment, write_record, append, sync, close}
use pyka.Storage.Segment.Runs.{
  frames, IsRun-append, offset_next, frames-append, length-frames-append, length-frames_cons,
}
use pyka.Storage.Segment.Pointing.{Indexes, maybe_append-next}
use pyka.Storage.Segment.Recovery.{IsWellFormed}

-- The next record is appended: the result is the position at which it starts, and the segment holds
-- one record more, in the file, in its counters and under its index.
pub append-next :
    (s : Segment) (rs : List Record) (r : Record)
    → IsWellFormed s rs
    → s.closed ≡ false
    → r.offset ≡ s.next_offset
    → IsEncodable r
    → s.position ≤ max_u32
    → (s' : Segment) × (append s r ≡ (ok s.position, s'))
      × IsWellFormed s' (rs ++ (r ∷ []))
      × (s'.closed ≡ false)
      × (s'.base_offset ≡ s.base_offset)
      × (s'.max_bytes ≡ s.max_bytes)
unfolding append write_record
append-next s rs r h o same good fits =
    let base = s.base_offset in
    let number : r.offset ≡ base +ℤ pos (length rs) = same ∙ h.next in
    let (x, added, covers, open_file) =
      maybe_append-next base rs r s.index h.indexed (h.same_state ∙ o) (omega (arith, h.end)) in
    let offered : maybe_append s.index r.offset s.position ≡ (ok tt, x) =
      ap₂ (maybe_append s.index) number h.end ∙ added in
    let exact : length (s.content ++ frame r) ≡ s.position + size r =
      omega (arith, length-append s.content (frame r), length-frame r, h.end, ap length h.stored) in
    let s' : Segment = record s {
      content = s.content ++ frame r;
      next_offset = s.next_offset +ℤ pos 1;
      position = length (s.content ++ frame r);
      index = x;
    } in
    (
      s',
      rw (
        (eq_ℤ_iff r.offset s.next_offset).1 same,
        encode-frame r good,
        o,
        (==_iff (length (s.content ++ frame r)) (s.position + size r)).1 exact,
        offered,
      ),
      record {
        run = IsRun-append base rs (r ∷ []) h.run (number, good, tt);
        stored =
            rw (h.stored, frames-append rs (r ∷ []))
              (ap (λ b. frames rs ++ b) (sym (append-nil (frame r))));
        next = ap (λ n. n +ℤ pos 1) h.next ∙ offset_next base rs r;
        end =
            omega (arith, exact, h.end, length-frames-append rs (r ∷ []), length-frames_cons r []);
        indexed = covers;
        same_state = open_file ∙ sym o;
        limit = h.limit;
        durable = omega (arith, h.durable, length-append s.content (frame r));
      },
      o,
      refl,
      refl,
    )

fail-ne-ok : {e : Error} {n : ℕ} → ◌≡◌ {A = Result ℕ} (ok n) (err e) → ⊥
fail-ne-ok p = cc

-- An append that raises, for whatever reason, has changed nothing.
pub append_failed :
    (s : Segment) (rs : List Record) (r : Record) (e : Error)
    → IsWellFormed s rs
    → s.position ≤ max_u32
    → (append s r).0 ≡ err e
    → (append s r).1 ≡ s
append_failed s rs r e h fits failed = elim (Bool-cases (eq_ℤ r.offset s.next_offset)) [
  | inr other ↦ unfold append in rw other
  | inl same ↦ elim (Result-cases (encode r)) [
    | inr (e', refused) ↦ unfold append in rw (same, refused)
    | inl (bytes, encoded) ↦ elim (Bool-cases s.closed) [
      | inl shut ↦ unfold append write_record in rw (same, encoded, shut)
      | inr o ↦
          let (s', appended, _, _, _, _) =
            append-next s rs r h o ((eq_ℤ_iff r.offset s.next_offset).0 same)
              (encode_inv r bytes encoded).0 fits in
          absurd (fail-ne-ok (sym (ap (λ (a : Result ℕ × Segment). a.0) appended) ∙ failed))
    ]
  ]
]

-- A file that has grown behind the segment's back: the append raises RuntimeError, and the counters
-- do not move.
pub append_other_writer :
    (s : Segment) (r : Record)
    → s.closed ≡ false
    → r.offset ≡ s.next_offset
    → IsEncodable r
    → length s.content ≢ s.position
    → append s r ≡ (err runtime_error, record s { content = s.content ++ frame r })
unfolding append write_record
append_other_writer s r o same good grown =
    let differs : ((length (s.content ++ frame r)) == (s.position + size r)) ≡ false =
      ground (arith, grown, length-append s.content (frame r), length-frame r) in
    rw ((eq_ℤ_iff r.offset s.next_offset).1 same, encode-frame r good, o, differs)

sync_kept :
    (x : Index)
    → ((Index.sync x).1.base_offset ≡ x.base_offset)
      × ((Index.sync x).1.entries ≡ x.entries)
      × ((Index.sync x).1.closed ≡ x.closed)
unfolding Index.sync
sync_kept x = ground arith

sync_ok : (x : Index) → x.closed ≡ false → (Index.sync x).0 ≡ ok tt
unfolding Index.sync
sync_ok x o = rw o

close_kept :
    (x : Index)
    → ((Index.close x).base_offset ≡ x.base_offset)
      × ((Index.close x).entries ≡ x.entries)
      × ((Index.close x).closed ≡ true)
unfolding Index.close
close_kept x = ground arith

Indexes-sync :
    (base : ℤ) (rs : List Record) (x : Index) → Indexes base rs x → Indexes base rs (Index.sync x).1
Indexes-sync base rs x h = record {
  same_base = (sync_kept x).0 ∙ h.same_base;
  valid = sync-IsValid x h.valid;
  pointing = rw (sync_kept x).1 h.pointing;
}

-- `sync` keeps what the segment holds, and makes all of it durable.
pub sync-IsWellFormed :
    (s : Segment) (rs : List Record)
    → IsWellFormed s rs
    → s.closed ≡ false
    → (s' : Segment) × (sync s ≡ (ok tt, s'))
      × IsWellFormed s' rs
      × (s'.closed ≡ false)
      × (length (frames rs) ≤ s'.synced)
unfolding sync
sync-IsWellFormed s rs h o = (
  record s { synced = length s.content; index = (Index.sync s.index).1 },
  if_false _ _ o
      ∙ (ap (λ r. (r, record s { synced = length s.content; index = (Index.sync s.index).1 }))
          (sync_ok s.index (h.same_state ∙ o))),
  record {
    run = h.run;
    stored = h.stored;
    next = h.next;
    end = h.end;
    indexed = Indexes-sync s.base_offset rs s.index h.indexed;
    same_state = (sync_kept s.index).2 ∙ h.same_state;
    limit = h.limit;
    durable = omega arith;
  },
  o,
  omega (arith, ap length h.stored),
)

sync_numbers :
    (s : Segment)
    → ((sync s).1.base_offset ≡ s.base_offset) × ((sync s).1.next_offset ≡ s.next_offset)
unfolding sync
sync_numbers s = ground arith

close_shut : (s : Segment) → s.closed ≡ true → close s ≡ s
unfolding close
close_shut s shut = if_true _ _ shut

close_open :
    (s : Segment)
    → s.closed ≡ false
    → close s ≡ record (sync s).1 { closed = true; index = Index.close (sync s).1.index }
unfolding close
close_open s o = if_false _ _ o

-- `close` keeps what the segment holds and makes it durable, and the segment is sealed.
pub close-IsWellFormed :
    (s : Segment) (rs : List Record)
    → IsWellFormed s rs
    → IsWellFormed (close s) rs
      × ((close s).closed ≡ true)
      × ((close s).base_offset ≡ s.base_offset)
      × ((close s).next_offset ≡ s.next_offset)
close-IsWellFormed s rs h = elim (Bool-cases s.closed) [
  | inl shut ↦ rw (close_shut s shut) (h, shut, refl, refl)
  | inr o ↦
      let (s', synced, h', _, all) = sync-IsWellFormed s rs h o in
      let kept = close_kept s'.index in
      rw (close_open s o, synced)
        (
          record {
            run = h'.run;
            stored = h'.stored;
            next = h'.next;
            end = h'.end;
            indexed = record {
              same_base = kept.0 ∙ h'.indexed.same_base;
              valid = close-IsValid s'.index h'.indexed.valid;
              pointing = rw kept.1 h'.indexed.pointing;
            };
            same_state = kept.2;
            limit = h'.limit;
            durable = h'.durable;
          },
          refl,
          ap (λ (r : Result (Unit {0}) × Segment). r.1.base_offset) (sym synced)
              ∙ (sync_numbers s).0,
          ap (λ (r : Result (Unit {0}) × Segment). r.1.next_offset) (sym synced)
              ∙ (sync_numbers s).1,
        )
]

-- What an open segment has when it is closed is durable, and its position stays what it was.
pub close-durable :
    (s : Segment)
    → s.closed ≡ false
    → (length (close s).content ≤ (close s).synced) × ((close s).position ≡ s.position)
unfolding close sync
close-durable s o = rw o (omega arith, refl)
