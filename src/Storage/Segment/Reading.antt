-- ===== src/Storage/Segment/Reading.antt =====
-- `read_from` yields the records from an offset on, with the index and without.
use mathlib.Core.Path.{subst, subst₂, ap₂}
use pyka.Common.{
  ℕ, zero, suc, ◌+◌, ◌<◌, ◌≡◌, ◌∙◌, refl, sym, ap, List, [], ◌∷◌, ◌++◌, true, false, none, some,
  Option-cases, ok, err, arith, length, length-append, drop, drop-append, inl, inr, ltb-false,
  ltb→ge,
}
use pyka.Common.Int.{ℤ, pos, ◌+ℤ◌, ◌-ℤ◌, ◌≤ℤ◌, ltb_ℤ, eq_ℤ, eq_ℤ_iff, +ℤ_zero, -ℤ_parts, +ℤ_parts}
use pyka.Python.Struct.{Bytes}
use pyka.Python.Bisect.Laws.{last_before, last_before-All}
use pyka.Python.File.{open_at}
use pyka.Storage.Record.{Record, read_one, size}
use pyka.Storage.Record.Reading.{read_one-frame, read_one_short}
use pyka.Storage.Index.{Index, starts_after}
use pyka.Storage.Index.Lookup.{hint, lookup-hint}
use pyka.Storage.Segment.{
  Segment, Iteration, raising, iter_loop, scan_from_start, scan_from_hint, iter_from, read_from,
}
use pyka.Storage.Segment.Runs.{
  frames, IsRun, IsRun-drop, IsRun-take, wanted, wanted-append, wanted_past, frames-append,
  length-frames-ge,
}
use pyka.Storage.Segment.Pointing.{PointsInto}
use pyka.Storage.Segment.Recovery.{IsWellFormed}

abbrev pub yielding : List Record → Iteration
yielding rs = record { records = rs; raised = none }

-- From the first read on: what the loop of `_iter_from` yields.
iter_run :
    (o offset : ℤ) (rs : List Record) (t fuel : ℕ)
    → IsRun o rs
    → length rs < fuel
    → (elim (read_one (record { tell = t; rest = frames rs })) [
      | ok (found, f) ↦ iter_loop fuel offset found f
      | err e ↦ raising e
    ])
      ≡ yielding (wanted offset rs)
unfolding iter_loop
iter_run o offset rs t zero run enough = absurd (omega arith)
iter_run o offset [] t (suc fuel) run enough = rw (read_one_short t [] (omega arith))
iter_run o offset (r ∷ rs) t (suc fuel) run enough =
    rw
      (
        read_one-frame r t (frames rs) run.1,
        iter_run (o +ℤ pos 1) offset rs (t + size r) fuel run.2 (omega arith),
      )
      (ground arith)

-- A scan from byte 0 yields the wanted records of a run.
scan_from_start-run :
    (o offset : ℤ) (rs : List Record)
    → IsRun o rs
    → scan_from_start (frames rs) offset ≡ yielding (wanted offset rs)
unfolding scan_from_start open_at
scan_from_start-run o offset rs run =
    iter_run o offset rs 0 (suc (length (frames rs))) run (omega (arith, length-frames-ge rs))

-- A scan from the start of a record of the run whose offset is not past the one that is wanted.
scan_from_hint-run :
    (o offset : ℤ) (front : List Record) (r : Record) (back : List Record)
    → IsRun o (front ++ (r ∷ back))
    → o +ℤ pos (length front) ≤ℤ offset
    → scan_from_hint
        (frames (front ++ (r ∷ back)))
        offset
        (o +ℤ pos (length front))
        (length (frames front))
      ≡ yielding (wanted offset (front ++ (r ∷ back)))
unfolding scan_from_hint open_at
scan_from_hint-run o offset front r back run reached =
    let whole = frames (front ++ (r ∷ back)) in
    let at : ℕ = length (frames front) in
    let run' = IsRun-drop o front (r ∷ back) run in
    let rest : drop at whole ≡ frames (r ∷ back) =
      rw frames-append (drop-append at (frames front) (frames (r ∷ back)) refl) in
    let first : read_one (open_at whole at)
        ≡ ok (some r, record { tell = at + size r; rest = frames back }) =
      unfold open_at in rw rest (read_one-frame r at (frames back) run'.1) in
    let hinted : eq_ℤ r.offset (o +ℤ pos (length front)) ≡ true = (eq_ℤ_iff _ _).1 run'.0 in
    let all = rw (read_one-frame r at (frames back) run'.1) at (
      iter_run (o +ℤ pos (length front)) offset (r ∷ back) at (suc (length whole)) run'
        (omega (arith, length-frames-ge (front ++ (r ∷ back)), length-append front (r ∷ back)))) in
    let skipped : wanted offset (front ++ (r ∷ back)) ≡ wanted offset (r ∷ back) = rw (
      wanted-append offset front (r ∷ back),
      wanted_past o offset front (IsRun-take o front (r ∷ back) run) reached,
    ) in
    rw (first, scan_from_hint) (rw hinted (all ∙ ap yielding (sym skipped)))

-- The hint of an empty index: byte 0.
scan_from_hint_start :
    (o offset : ℤ) (rs : List Record)
    → IsRun o rs
    → o ≤ℤ offset
    → scan_from_hint (frames rs) offset o 0 ≡ yielding (wanted offset rs)
scan_from_hint_start o offset [] run early =
    unfold scan_from_hint open_at in
    rw (read_one_short 0 [] (omega arith), scan_from_hint) (scan_from_start-run o offset [] run)
scan_from_hint_start o offset (r ∷ back) run early =
    rw (+ℤ_zero o) at
      (scan_from_hint-run o offset [] r back run (omega (arith, +ℤ_parts o (pos 0))))

entry_reached :
    (base base' offset : ℤ) (n m : ℕ)
    → base' ≡ base
    → n ≡ m
    → ltb_ℤ (offset -ℤ base') (pos n) ≡ false
    → base +ℤ pos m ≤ℤ offset
entry_reached base base' offset n m e q h =
    let le = ltb→ge _ _ h in
    subst₂ (λ b k. b +ℤ pos k ≤ℤ offset) e q
      (omega (arith, le, -ℤ_parts offset base', +ℤ_parts base' (pos n)))

hint-none :
    (x : Index) (offset : ℤ)
    → last_before (starts_after (offset -ℤ x.base_offset)) x.entries ≡ none
    → hint x offset ≡ (x.base_offset, 0)
unfolding hint
hint-none x offset e = rw (e, hint)

hint-some :
    (x : Index) (offset : ℤ) (e : ℕ × ℕ)
    → last_before (starts_after (offset -ℤ x.base_offset)) x.entries ≡ some e
    → hint x offset ≡ (x.base_offset +ℤ pos e.0, e.1)
unfolding hint
hint-some x offset e found = rw (found, hint)

abbrev scan_pair : Bytes → ℤ → ℤ × ℕ → Iteration
scan_pair content offset p = scan_from_hint content offset p.0 p.1

scan_at_hint :
    (s : Segment) (rs : List Record) (offset : ℤ)
    → IsWellFormed s rs
    → s.base_offset ≤ℤ offset
    → scan_pair s.content offset (hint s.index offset) ≡ yielding (wanted offset rs)
scan_at_hint s rs offset h early =
    let x = s.index in
    elim (Option-cases (last_before (starts_after (offset -ℤ x.base_offset)) x.entries)) [
      | inl e ↦
          ap₂ (λ c p. scan_pair c offset p) h.stored
            (hint-none x offset e ∙ ap (λ o. (o, 0)) h.indexed.same_base)
          ∙ scan_from_hint_start s.base_offset offset rs h.run early
      | inr (e, found) ↦
          let (p, not_after) =
            last_before-All (starts_after (offset -ℤ x.base_offset)) (PointsInto rs) x.entries e
              h.indexed.pointing found in
          ap₂ (λ c q. scan_pair c offset q) (h.stored ∙ ap frames p.split)
            (hint-some x offset e found
              ∙ ap₂ (λ (o : ℤ) (q : ℕ × ℕ). (o +ℤ pos q.0, q.1)) h.indexed.same_base
                  (ap₂ (λ (a b : ℕ). (a, b)) p.number p.start))
          ∙ scan_from_hint-run s.base_offset offset p.front p.here p.back
              (subst (IsRun s.base_offset) p.split h.run)
              (entry_reached s.base_offset x.base_offset offset e.0 (length p.front)
                h.indexed.same_base p.number not_after)
          ∙ ap (λ l. yielding (wanted offset l)) (sym p.split)
    ]

-- The iterator of a well-formed segment yields the records from `offset` on, in order, and ends
-- without an exception. Below the base the call itself raises.
pub read_from-wanted :
    (s : Segment) (rs : List Record) (offset : ℤ)
    → IsWellFormed s rs
    → s.base_offset ≤ℤ offset
    → read_from s offset ≡ ok (yielding (wanted offset rs))
unfolding read_from
read_from-wanted s rs offset h early =
    rw (ltb-false _ _ early, lookup-hint s.index offset h.indexed.valid, iter_from)
      (ap ok (scan_at_hint s rs offset h early))
