-- ===== src/Storage/Segment/Runs.antt =====
-- A run of records as a segment stores it: encodable, numbered without a gap, framed end to end.
use pyka.Common.{
  ℕ, suc, ◌+◌, ◌*◌, ◌≤◌, ◌≡◌, refl, sym, ap, List, [], ◌∷◌, ◌++◌, append_assoc, true, false, arith,
  length, length-append, if◌then◌else◌, Bool-cases, inl, inr,
}
use pyka.Common.Int.{ℤ, pos, ◌+ℤ◌, ◌≤ℤ◌, leb_ℤ, +ℤ_parts, +ℤ_zero, int_laws}
use pyka.Python.Struct.{Bytes}
use pyka.Storage.Record.{Record, size}
use pyka.Storage.Record.Layout.{frame, IsEncodable, length-frame}

abbrev pub frames : List Record → Bytes
frames [] = []
frames (r ∷ rs) = frame r ++ frames rs

-- Each record can be encoded, and offsets count up by one from `o`.
abbrev pub IsRun : ℤ → List Record → Type 0
IsRun o [] = Unit
IsRun o (r ∷ rs) = (r.offset ≡ o) × IsEncodable r × IsRun (o +ℤ pos 1) rs

-- The records that a reader from `offset` on wants.
abbrev pub wanted : ℤ → List Record → List Record
wanted offset [] = []
wanted offset (r ∷ rs) = if leb_ℤ offset r.offset then r ∷ wanted offset rs else wanted offset rs

-- o + (n + 1) and (o + 1) + n
pub offset_step : (o : ℤ) (n : ℕ) → o +ℤ pos 1 +ℤ pos n ≡ o +ℤ pos (suc n)
offset_step o n = omega int_laws

pub offset_next :
    (o : ℤ) (rs : List Record) (r : Record)
    → o +ℤ pos (length rs) +ℤ pos 1 ≡ o +ℤ pos (length (rs ++ (r ∷ [])))
offset_next o rs r = rw (length-append rs (r ∷ [])) (omega int_laws)

pub frames-append : (rs qs : List Record) → frames (rs ++ qs) ≡ frames rs ++ frames qs
frames-append [] qs = refl
frames-append (r ∷ rs) qs =
    rw (frames-append rs qs) (sym (append_assoc (frame r) (frames rs) (frames qs)))

pub length-frames-append :
    (rs qs : List Record) → length (frames (rs ++ qs)) ≡ length (frames rs) + length (frames qs)
length-frames-append rs qs =
    omega (arith, ap length (frames-append rs qs), length-append (frames rs) (frames qs))

pub length-frames_cons :
    (r : Record) (rs : List Record) → length (frames (r ∷ rs)) ≡ size r + length (frames rs)
length-frames_cons r rs = omega (arith, length-append (frame r) (frames rs), length-frame r)

pub IsRun-append :
    (o : ℤ) (rs qs : List Record)
    → IsRun o rs
    → IsRun (o +ℤ pos (length rs)) qs
    → IsRun o (rs ++ qs)
IsRun-append o [] qs h k = rw (+ℤ_zero o) at k
IsRun-append o (r ∷ rs) qs h k =
    (h.0, h.1, IsRun-append (o +ℤ pos 1) rs qs h.2 (rw (offset_step o (length rs)) k))

pub IsRun-drop :
    (o : ℤ) (rs qs : List Record) → IsRun o (rs ++ qs) → IsRun (o +ℤ pos (length rs)) qs
IsRun-drop o [] qs h = rw (+ℤ_zero o) h
IsRun-drop o (r ∷ rs) qs h = rw (offset_step o (length rs)) at (IsRun-drop (o +ℤ pos 1) rs qs h.2)

pub IsRun-take : (o : ℤ) (rs qs : List Record) → IsRun o (rs ++ qs) → IsRun o rs
IsRun-take o [] qs h = tt
IsRun-take o (r ∷ rs) qs h = (h.0, h.1, IsRun-take (o +ℤ pos 1) rs qs h.2)

-- A record takes 32 bytes or more.
pub size-ge : (r : Record) → 32 ≤ size r
unfolding size
size-ge r = omega arith

pub length-frames-ge : (rs : List Record) → 32 * length rs ≤ length (frames rs)
length-frames-ge [] = omega arith
length-frames-ge (r ∷ rs) = omega (arith, length-frames_cons r rs, size-ge r, length-frames-ge rs)

-- A reader past a run wants nothing of it.
pub wanted_past :
    (o offset : ℤ) (rs : List Record)
    → IsRun o rs
    → o +ℤ pos (length rs) ≤ℤ offset
    → wanted offset rs ≡ []
wanted_past o offset [] h past = refl
wanted_past o offset (r ∷ rs) h past =
    let later : leb_ℤ offset r.offset ≡ false =
      rw h.0 (ground (arith, +ℤ_parts o (pos (suc (length rs))))) in
    rw later (wanted_past (o +ℤ pos 1) offset rs h.2 (rw (offset_step o (length rs)) past))

pub wanted-append :
    (offset : ℤ) (rs qs : List Record)
    → wanted offset (rs ++ qs) ≡ wanted offset rs ++ wanted offset qs
wanted-append offset [] qs = refl
wanted-append offset (r ∷ rs) qs = elim (Bool-cases (leb_ℤ offset r.offset)) [
  | inl p ↦ rw (p, wanted-append offset rs qs)
  | inr p ↦ rw (p, wanted-append offset rs qs)
]

-- A reader at or before the start of a run wants all of it.
pub wanted_before :
    (o offset : ℤ) (rs : List Record) → IsRun o rs → offset ≤ℤ o → wanted offset rs ≡ rs
wanted_before o offset [] h early = refl
wanted_before o offset (r ∷ rs) h early =
    let now : leb_ℤ offset r.offset ≡ true = rw h.0 (ground arith) in
    rw now (
      ap (λ l. r ∷ l)
        (wanted_before (o +ℤ pos 1) offset rs h.2 (omega (arith, +ℤ_parts o (pos 1)))))
