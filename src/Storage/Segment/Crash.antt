-- ===== src/Storage/Segment/Crash.antt =====
-- A crash leaves the first bytes of a segment's file. What recovery then finds.
use pyka.Common.{
  ℕ, ◌+◌, ◌-◌, ◌≤◌, ◌<◌, ◌≡◌, ◌∙◌, sym, ap, List, [], ◌∷◌, ◌++◌, append_assoc, true, false, ok,
  arith, leb, length, if◌then◌else◌, take, take-append_le, take-append_ge, Bool-cases, leb→le,
  leb→gt, le→leb, take-nil, inl, inr,
}
use pyka.Common.Int.{ℤ, pos, ◌+ℤ◌}
use pyka.Python.Struct.{Bytes}
use pyka.Storage.Record.{Record, size}
use pyka.Storage.Record.Layout.{frame, length-frame}
use pyka.Storage.Record.Reading.{read_one_short, read_one_torn}
use pyka.Storage.Index.{max_u32}
use pyka.Storage.Segment.{Segment, open_segment}
use pyka.Storage.Segment.Runs.{frames, IsRun, length-frames_cons}
use pyka.Storage.Segment.Recovery.{IsWellFormed, IsTorn, open_segment-run}

-- The records that lie whole in the first `n` bytes.
abbrev pub kept : ℕ → List Record → List Record
kept n [] = []
kept n (r ∷ rs) = let rest = kept (n - size r) rs in if leb (size r) n then r ∷ rest else []

pub IsTorn-nil : IsTorn []
IsTorn-nil t = (record { tell = t + 0; rest = [] }, read_one_short t [] (omega arith))

-- A cut file is the whole records, and bytes that no record begins with.
cut_frames :
    (o : ℤ) (n : ℕ) (rs : List Record)
    → IsRun o rs
    → (torn : Bytes) × (take n (frames rs) ≡ frames (kept n rs) ++ torn) × IsTorn torn
cut_frames o n [] h = ([], take-nil n, IsTorn-nil)
cut_frames o n (r ∷ rs) h = elim (Bool-cases (leb (size r) n)) [
  | inl p ↦
      let (torn, e, t) = cut_frames (o +ℤ pos 1) (n - size r) rs h.2 in
      (
        torn,
        rw p (
            take-append_ge n (frame r) (frames rs)
              (omega (arith, leb→le (size r) n p, length-frame r))
            ∙ rw (length-frame r, e) (sym (append_assoc (frame r) (frames _) torn))),
        t,
      )
  | inr p ↦
      let short : n < size r = leb→gt (size r) n p in
      (
        take n (frame r),
        rw p (take-append_le n (frame r) (frames rs) (omega (arith, short, length-frame r))),
        λ t. read_one_torn r t n h.1 short,
      )
]

kept-IsRun : (o : ℤ) (n : ℕ) (rs : List Record) → IsRun o rs → IsRun o (kept n rs)
kept-IsRun o n [] h = tt
kept-IsRun o n (r ∷ rs) h = elim (Bool-cases (leb (size r) n)) [
  | inl p ↦ rw p (h.0, h.1, kept-IsRun (o +ℤ pos 1) (n - size r) rs h.2)
  | inr p ↦ rw p tt
]

length-kept : (n : ℕ) (rs : List Record) → length (frames (kept n rs)) ≤ length (frames rs)
length-kept n [] = omega arith
length-kept n (r ∷ rs) = elim (Bool-cases (leb (size r) n)) [
  | inl p ↦ rw p (
      omega (
        arith,
        length-frames_cons r rs,
        length-frames_cons r (kept (n - size r) rs),
        length-kept (n - size r) rs,
      ))
  | inr p ↦ rw p (omega arith)
]

-- Records whose bytes are all there are all kept.
pub kept-append :
    (n : ℕ) (rs qs : List Record)
    → length (frames rs) ≤ n
    → kept n (rs ++ qs) ≡ rs ++ kept (n - length (frames rs)) qs
kept-append n [] qs h = let e : n ≡ n - 0 = omega arith in ap (λ k. kept k qs) e
kept-append n (r ∷ rs) qs h =
    let whole : leb (size r) n ≡ true =
      le→leb (size r) n (omega (arith, length-frames_cons r rs)) in
    let less : n - length (frames (r ∷ rs)) ≡ n - size r - length (frames rs) =
      omega (arith, length-frames_cons r rs) in
    rw (whole, less)
      (ap (λ l. r ∷ l) (kept-append (n - size r) rs qs (omega (arith, length-frames_cons r rs))))

-- Whatever number of bytes survives a crash, reopening succeeds, and the segment holds exactly the
-- records that survived whole.
pub open_segment_crash :
    (s : Segment) (rs : List Record) (n : ℕ) (index_content : Bytes)
    → IsWellFormed s rs
    → s.position ≤ max_u32 + 1
    → (s' : Segment) × (open_segment s.base_offset s.max_bytes (take n s.content) index_content
        ≡ ok s')
      × IsWellFormed s' (kept n rs)
      × (s'.closed ≡ false)
      × (s'.base_offset ≡ s.base_offset)
      × (s'.max_bytes ≡ s.max_bytes)
open_segment_crash s rs n index_content h fits =
    let (torn, e, t) = cut_frames s.base_offset n rs h.run in
    rw (h.stored, e)
      (open_segment-run s.base_offset s.max_bytes (kept n rs) torn index_content h.limit.0 h.limit.1
        (kept-IsRun s.base_offset n rs h.run) t (omega (arith, length-kept n rs, h.end)))

-- Power may fail at any time: of the file, at least the bytes that fsync made durable survive. The
-- records within them are all there after reopening, followed by those of the rest that survived.
pub open_segment_durable :
    (s : Segment) (rs qs : List Record) (n : ℕ) (index_content : Bytes)
    → IsWellFormed s (rs ++ qs)
    → s.position ≤ max_u32 + 1
    → length (frames rs) ≤ s.synced
    → s.synced ≤ n
    → (s' : Segment) × (open_segment s.base_offset s.max_bytes (take n s.content) index_content
        ≡ ok s')
      × IsWellFormed s' (rs ++ kept (n - length (frames rs)) qs)
      × (s'.closed ≡ false)
      × (s'.base_offset ≡ s.base_offset)
      × (s'.max_bytes ≡ s.max_bytes)
open_segment_durable s rs qs n index_content h fits durable survived =
    rw (← kept-append n rs qs (omega arith))
      (open_segment_crash s (rs ++ qs) n index_content h fits)
