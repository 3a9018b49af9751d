-- ===== src/Storage/Log/Reading.antt =====
-- `read_from` on a log yields the records from an offset on, across its segments.
use mathlib.Core.Path.{subst}
use pyka.Common.{
  ℕ, zero, suc, ◌<◌, ◌≡◌, ◌∙◌, refl, sym, ap, List, [], ◌∷◌, ◌++◌, true, false, ok, err,
  offset_out_of_range, arith, length, length-append, drop, Bool-cases, inl, inr, All, ltb-false,
  ltb→ge, ltb→lt, if_true, if_false,
}
use pyka.Common.Int.{ℤ, pos, ◌+ℤ◌, ◌≤ℤ◌, ltb_ℤ, +ℤ_zero, +ℤ_parts}
use pyka.Python.Bisect.{bisect_right}
use pyka.Python.Bisect.Laws.{IsPartitioned, count_before, bisect_right_lem}
use pyka.Storage.Record.{Record}
use pyka.Storage.Segment.{Segment, Iteration}
use pyka.Storage.Segment
use pyka.Storage.Segment.Runs.{
  IsRun, IsRun-append, IsRun-take, IsRun-drop, wanted, wanted-append, wanted_past, wanted_before,
}
use pyka.Storage.Segment.Recovery.{IsWellFormed}
use pyka.Storage.Segment.Reading.{yielding, read_from-wanted}
use pyka.Storage.Log.{
  Log, iter_segments, max_ℤ, segments, from_start, begins_after, iter_from, read_from,
}
use pyka.Storage.Log.Chain.{
  Holds, AllFormed, AllFormed-IsRun, concat, concat-append_one, records, offset_add,
}

-- The segments of a log as one list, each with its records.
abbrev Chained : ℤ → List Segment → List (List Record) → Type 0
Chained o [] [] = Unit
Chained o [] (p ∷ ps) = ⊥
Chained o (s ∷ ss) [] = ⊥
Chained o (s ∷ ss) (p ∷ ps) =
    (s.base_offset ≡ o) × IsWellFormed s p × Chained (o +ℤ pos (length p)) ss ps

chain :
    (o : ℤ) (ss : List Segment) (ps : List (List Record)) (s : Segment) (p : List Record)
    → AllFormed o ss ps
    → s.base_offset ≡ o +ℤ pos (length (concat ps))
    → IsWellFormed s p
    → Chained o (ss ++ (s ∷ [])) (ps ++ (p ∷ []))
chain o [] [] s p h b w = (b ∙ +ℤ_zero o, w, tt)
chain o [] (q ∷ ps) s p h b w = absurd h
chain o (t ∷ ss) [] s p h b w = absurd h
chain o (t ∷ ss) (q ∷ ps) s p h b w = (
  h.0,
  h.1,
  chain (o +ℤ pos (length q)) ss ps s p h.3
      (b ∙ rw (length-append q (concat ps)) (sym (offset_add o (length q) (length (concat ps))))) w,
)

-- What one segment yields for a reader of the chain: the offset is raised to the segment's base.
read_one_segment :
    (s : Segment) (p : List Record) (offset : ℤ)
    → IsWellFormed s p
    → Segment.read_from s (max_ℤ offset s.base_offset) ≡ ok (yielding (wanted offset p))
read_one_segment s p offset w = elim (Bool-cases (ltb_ℤ offset s.base_offset)) [
  | inl below ↦ rw (if_true s.base_offset offset below) (
      read_from-wanted s p s.base_offset w (omega arith)
      ∙ ap (λ l. ok (yielding l))
          (wanted_before s.base_offset s.base_offset p w.run (omega arith)
            ∙ sym (wanted_before s.base_offset offset p w.run (omega (arith, ltb→lt _ _ below)))))
  | inr above ↦
      rw (if_false s.base_offset offset above) (read_from-wanted s p offset w (ltb→ge _ _ above))
]

iter_segments-chain :
    (o offset : ℤ) (ss : List Segment) (ps : List (List Record))
    → Chained o ss ps
    → iter_segments offset ss ≡ yielding (wanted offset (concat ps))
unfolding iter_segments
iter_segments-chain o offset [] [] h = refl
iter_segments-chain o offset [] (p ∷ ps) h = absurd h
iter_segments-chain o offset (s ∷ ss) [] h = absurd h
iter_segments-chain o offset (s ∷ ss) (p ∷ ps) h = rw (
  read_one_segment s p offset h.1,
  iter_segments,
  iter_segments-chain (o +ℤ pos (length p)) offset ss ps h.2,
  wanted-append offset p (concat ps),
)

All-begin_after :
    (o offset : ℤ) (ss : List Segment) (ps : List (List Record))
    → Chained o ss ps
    → ltb_ℤ offset o ≡ true
    → All (λ s. begins_after offset s ≡ true) ss
All-begin_after o offset [] ps h before = tt
All-begin_after o offset (s ∷ ss) [] h before = absurd h
All-begin_after o offset (s ∷ ss) (p ∷ ps) h before = (
  rw h.0 before,
  All-begin_after (o +ℤ pos (length p)) offset ss ps h.2
      (ground (arith, +ℤ_parts o (pos (length p)))),
)

Chained-IsPartitioned :
    (o offset : ℤ) (ss : List Segment) (ps : List (List Record))
    → Chained o ss ps
    → IsPartitioned (begins_after offset) ss
Chained-IsPartitioned o offset [] ps h = tt
Chained-IsPartitioned o offset (s ∷ ss) [] h = absurd h
Chained-IsPartitioned o offset (s ∷ ss) (p ∷ ps) h = (
  λ before.
      All-begin_after (o +ℤ pos (length p)) offset ss ps h.2
        (ground (arith, rw h.0 at before, +ℤ_parts o (pos (length p)))),
  Chained-IsPartitioned (o +ℤ pos (length p)) offset ss ps h.2,
)

count_step :
    (offset : ℤ) (s : Segment) (ss : List Segment) (n : ℕ)
    → count_before (begins_after offset) (s ∷ ss) ≡ suc n
    → (begins_after offset s ≡ false) × (count_before (begins_after offset) ss ≡ n)
count_step offset s ss n c = ground arith

-- Dropping the segments before the one that can hold the offset drops no record that is wanted.
drop_before :
    (o offset : ℤ) (ss : List Segment) (ps : List (List Record)) (i : ℕ)
    → Chained o ss ps
    → IsRun o (concat ps)
    → count_before (begins_after offset) ss ≡ suc i
    → iter_segments offset (drop i ss) ≡ yielding (wanted offset (concat ps))
drop_before o offset ss ps zero h run c = iter_segments-chain o offset ss ps h
drop_before o offset [] ps (suc i) h run c = absurd (omega arith)
drop_before o offset (s ∷ ss) [] (suc i) h run c = absurd h
drop_before o offset (s ∷ []) (p ∷ ps) (suc i) h run c =
    absurd (omega (arith, (count_step offset s [] (suc i) c).1))
drop_before o offset (s ∷ t ∷ ss) (p ∷ []) (suc i) h run c = absurd h.2
drop_before o offset (s ∷ t ∷ ss) (p ∷ q ∷ qs) (suc i) h run c =
    let later = (count_step offset s (t ∷ ss) (suc i) c).1 in
    let reached : o +ℤ pos (length p) ≤ℤ offset =
      subst (λ b. b ≤ℤ offset) h.2.0 (ltb→ge _ _ (count_step offset t ss i later).0) in
    drop_before (o +ℤ pos (length p)) offset (t ∷ ss) (q ∷ qs) i h.2
      (IsRun-drop o p (concat (q ∷ qs)) run) later
    ∙ ap yielding (
        sym (
          wanted-append offset p (concat (q ∷ qs))
          ∙ ap (λ l. l ++ wanted offset (concat (q ∷ qs)))
              (wanted_past o offset p (IsRun-take o p (concat (q ∷ qs)) run) reached)))

pub begins_first :
    (o : ℤ) (ss : List Segment) (ps : List (List Record)) (s : Segment)
    → AllFormed o ss ps
    → s.base_offset ≡ o +ℤ pos (length (concat ps))
    → (elim ss [ [] ↦ s.base_offset | t ∷ _ ↦ t.base_offset ]) ≡ o
begins_first o [] [] s h b = b ∙ +ℤ_zero o
begins_first o [] (p ∷ ps) s h b = absurd h
begins_first o (t ∷ ss) [] s h b = absurd h
begins_first o (t ∷ ss) (p ∷ ps) s h b = h.0

-- The segment that can hold an offset of the log is never past its first.
reaches_first :
    (o offset : ℤ) (ss : List Segment) (ps : List (List Record))
    → Chained o ss ps
    → o ≤ℤ offset
    → 0 < length ss
    → 0 < count_before (begins_after offset) ss
reaches_first o offset [] ps h reached n = elim n [ ]
reaches_first o offset (s ∷ ss) [] h reached n = absurd h
reaches_first o offset (s ∷ ss) (p ∷ ps) h reached n =
    rw (ltb-false _ _ (subst (λ b. b ≤ℤ offset) (sym h.0) reached)) (omega arith)

from_start-wanted :
    (l : Log) (offset : ℤ) (n : ℕ) (all : List Record)
    → 0 < n
    → ((i : ℕ)
        → n ≡ suc i
        → iter_segments offset (drop i (segments l)) ≡ yielding (wanted offset all))
    → iter_segments offset (from_start l n) ≡ yielding (wanted offset all)
from_start-wanted l offset zero all h f = elim h [ ]
from_start-wanted l offset (suc i) all h f = f i refl

-- From any offset at or past its start, a log yields the records from that offset on, in order,
-- crossing segments, and no exception.
pub read_from-wanted-records :
    (l : Log) (base : ℤ) (parts : List (List Record)) (last : List Record) (offset : ℤ)
    → Holds l base parts last
    → base ≤ℤ offset
    → read_from l offset ≡ ok (yielding (wanted offset (records parts last)))
unfolding read_from iter_from
read_from-wanted-records l base parts last offset h reached =
    let ss = segments l in
    let ps = parts ++ (last ∷ []) in
    let chained = chain base l.sealed parts l.active last h.sealed h.tail_base h.tail in
    let whole : concat ps ≡ records parts last = concat-append_one parts last in
    let run : IsRun base (concat ps) = subst (IsRun base) (sym whole) (
      IsRun-append base (concat parts) last (AllFormed-IsRun base l.sealed parts h.sealed)
        (subst (λ b. IsRun b last) h.tail_base h.tail.run)) in
    let counted =
      bisect_right_lem (begins_after offset) ss (Chained-IsPartitioned base offset ss ps chained) in
    if_false _ _ (
      ltb-false _ _ (
        subst (λ b. b ≤ℤ offset)
          (sym (begins_first base l.sealed parts l.active h.sealed h.tail_base)) reached))
    ∙ ap ok (
        from_start-wanted l offset (bisect_right (begins_after offset) ss) (concat ps)
          (rw counted (
            reaches_first base offset ss ps chained reached
              (omega (arith, length-append l.sealed (l.active ∷ [])))))
          (λ i e. drop_before base offset ss ps i chained run (sym counted ∙ e))
        ∙ ap (λ q. yielding (wanted offset q)) whole)

-- Before the start of the log the call raises OffsetOutOfRange.
pub read_from_too_early :
    (l : Log) (base : ℤ) (parts : List (List Record)) (last : List Record) (offset : ℤ)
    → Holds l base parts last
    → ltb_ℤ offset base ≡ true
    → read_from l offset ≡ err offset_out_of_range
unfolding read_from
read_from_too_early l base parts last offset h early = if_true _ _ (
    subst (λ b. ltb_ℤ offset b ≡ true)
      (sym (begins_first base l.sealed parts l.active h.sealed h.tail_base)) early)
