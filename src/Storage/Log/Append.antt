-- ===== src/Storage/Log/Append.antt =====
-- `append` and `roll` on a log.
use pyka.Common.{
  ℕ, ◌≤◌, ◌<◌, ◌≡◌, ◌∙◌, refl, sym, ap, List, [], ◌∷◌, ◌++◌, append_assoc, true, false, Option, ok,
  arith, length, length-append, Bool-cases, inl, inr, ◌==◌, if_true, if_false,
}
use pyka.Common.Int.{ℤ, pos, ◌+ℤ◌, +ℤ_zero}
use pyka.Python.Struct.{Bytes}
use pyka.Storage.Record.{Record}
use pyka.Storage.Record.Layout.{IsEncodable}
use pyka.Storage.Index.{max_u32}
use pyka.Storage.Segment.{Segment, open_segment, has_room_for, size_bytes}
use pyka.Storage.Segment
use pyka.Storage.Segment.Runs.{size-ge}
use pyka.Storage.Segment.Recovery.{IsWellFormed, open_segment-run}
use pyka.Storage.Segment.Crash.{IsTorn-nil}
use pyka.Storage.Segment.Append.{append-next, close-IsWellFormed, close-durable}
use pyka.Storage.Log.{Log, roll, append, append_active, stamp, next_offset}
use pyka.Storage.Log.Chain.{
  Holds, AllFormed-append_one, concat, concat-append_one, records, offset_add,
}

-- Where the next record of a log will stand.
pub next_offset_lem :
    (l : Log) (base : ℤ) (parts : List (List Record)) (last : List Record)
    → Holds l base parts last
    → next_offset l ≡ base +ℤ pos (length (records parts last))
next_offset_lem l base parts last h =
    h.tail.next
    ∙ ap (λ b. b +ℤ pos (length last)) h.tail_base
    ∙ rw (length-append (concat parts) last) (offset_add base (length (concat parts)) (length last))

nonzero : (n : ℕ) → 0 < n → (n == 0) ≡ false
nonzero n h = ground arith

-- A tail that has records is sealed by `roll`, and an empty one takes its place; the records of the
-- log stay what they are.
pub roll_full :
    (l : Log) (base : ℤ) (parts : List (List Record)) (last : List Record)
    → Holds l base parts last
    → 0 < size_bytes l.active
    → (l' : Log) × (roll l ≡ (ok l'.active, l'))
      × Holds l' base (parts ++ (last ∷ [])) []
      × (l'.max_segment_bytes ≡ l.max_segment_bytes)
      × (l'.active.next_offset ≡ l.active.next_offset)
unfolding roll
roll_full l base parts last h full =
    let closed = Segment.close l.active in
    let (w, shut, same_base, same_next) = close-IsWellFormed l.active last h.tail in
    let (durable, same_position) = close-durable l.active h.tail_open in
    let (s, opened, s_formed, s_open, s_base, s_limit) =
      open_segment-run closed.next_offset l.max_segment_bytes [] [] []
        (omega (arith, h.tail_limit, h.tail.limit.0)) (omega (arith, h.tail_limit, h.tail.limit.1))
        tt IsTorn-nil (omega arith) in
    let l' : Log = record l { sealed = l.sealed ++ (closed ∷ []); active = s } in
    (
      l',
      if_false _ _ (nonzero (size_bytes l.active) full) ∙ rw opened,
      record {
        sealed =
            AllFormed-append_one base l.sealed parts closed last h.sealed (same_base ∙ h.tail_base)
              w
              (record {
                shut = shut;
                durable = durable;
                full = omega (arith, same_position, full);
              });
        tail = s_formed;
        tail_base =
            s_base
            ∙ same_next
            ∙ next_offset_lem l base parts last h
            ∙ ap (λ q. base +ℤ pos (length q)) (sym (concat-append_one parts last));
        tail_open = s_open;
        tail_limit = s_limit;
      },
      refl,
      s_formed.next ∙ +ℤ_zero s.base_offset ∙ s_base ∙ same_next,
    )

append_active-ok :
    (l : Log) (base : ℤ) (parts : List (List Record)) (last : List Record) (r : Record)
    → Holds l base parts last
    → r.offset ≡ next_offset l
    → IsEncodable r
    → size_bytes l.active ≤ max_u32
    → (l' : Log) × (append_active l r ≡ (ok r.offset, l'))
      × Holds l' base parts (last ++ (r ∷ []))
      × (l'.max_segment_bytes ≡ l.max_segment_bytes)
append_active-ok l base parts last r h same good fits =
    let (s, added, formed, still_open, same_base, same_limit) =
      append-next l.active last r h.tail h.tail_open same good fits in
    (
      record l { active = s },
      rw added,
      record {
        sealed = h.sealed;
        tail = formed;
        tail_base = same_base ∙ h.tail_base;
        tail_open = still_open;
        tail_limit = same_limit ∙ h.tail_limit;
      },
      refl,
    )

-- An empty tail has room for any record; another, only within the limit of a segment.
room :
    (s : Segment) (r : Record) (rs : List Record)
    → IsWellFormed s rs
    → has_room_for s r ≡ true
    → size_bytes s ≤ max_u32
unfolding has_room_for
room s r rs h has = ground (arith, h.limit.1, size-ge r)

pub no_room : (s : Segment) (r : Record) → has_room_for s r ≡ false → 0 < size_bytes s
unfolding has_room_for
no_room s r h = ground arith

module _ (l : Log) (key value : Option Bytes) (timestamp : Option ℤ) (now : ℤ) where
  pub append_room :
      has_room_for l.active (stamp l key value timestamp now) ≡ true
      → append l key value timestamp now ≡ append_active l (stamp l key value timestamp now)
  unfolding append
  append_room has = if_true _ _ has

  pub append_rolled :
      (s : Segment) (l' : Log)
      → has_room_for l.active (stamp l key value timestamp now) ≡ false
      → roll l ≡ (ok s, l')
      → append l key value timestamp now ≡ append_active l' (stamp l key value timestamp now)
  unfolding append
  append_rolled s l' full rolled = if_false _ _ full ∙ rw (rolled, rolled)

-- An append of a record that can be encoded returns the offset one past the last, and adds the
-- record at the end of the log, whether the tail has room or a new segment is begun.
pub append-ok :
    (l : Log) (base : ℤ) (parts : List (List Record)) (last : List Record)
    (key value : Option Bytes) (timestamp : Option ℤ) (now : ℤ)
    → Holds l base parts last
    → IsEncodable (stamp l key value timestamp now)
    → (l' : Log) × (parts' : List (List Record)) × (last' : List Record) × (append l key value
          timestamp now
        ≡ (ok (base +ℤ pos (length (records parts last))), l'))
      × Holds l' base parts' last'
      × (records parts' last' ≡ records parts last ++ (stamp l key value timestamp now ∷ []))
append-ok l base parts last key value timestamp now h good =
    let r = stamp l key value timestamp now in
    let number = next_offset_lem l base parts last h in
    elim (Bool-cases (has_room_for l.active r)) [
      | inl has ↦
          let (l', added, h', _) =
            append_active-ok l base parts last r h refl good (room l.active r last h.tail has) in
          (
            l',
            parts,
            last ++ (r ∷ []),
            append_room l key value timestamp now has ∙ added ∙ ap (λ (o : ℤ). (ok o, l')) number,
            h',
            sym (append_assoc (concat parts) last (r ∷ [])),
          )
      | inr full ↦
          let (l₁, rolled, h₁, _, same_next) =
            roll_full l base parts last h (no_room l.active r full) in
          let (l', added, h', _) =
            append_active-ok l₁ base (parts ++ (last ∷ [])) [] r h₁ (sym same_next) good
              (omega (arith, h₁.tail.end)) in
          (
            l',
            parts ++ (last ∷ []),
            r ∷ [],
            append_rolled l key value timestamp now l₁.active l₁ full rolled
                ∙ added
                ∙ ap (λ (o : ℤ). (ok o, l')) number,
            h',
            ap (λ q. q ++ (r ∷ [])) (concat-append_one parts last),
          )
    ]
