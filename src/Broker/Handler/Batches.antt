-- ===== src/Broker/Handler/Batches.antt =====
-- Reading a run in batches: each goes on where the last one ended.
use mathlib.Core.Path.{subst, ap₂}
use pyka.Common.{
  leb→le, ℕ, ◌<◌, ◌≡◌, refl, sym, ap, ◌∙◌, List, [], ◌∷◌, ◌++◌, arith, length, take, drop,
  Bool-cases, inl, inr, if_false, take-append-drop,
}
use pyka.Common.Int.{ℤ, pos, ◌+ℤ◌, ◌≤ℤ◌, leb_ℤ, +ℤ_parts}
use pyka.Storage.Record.{Record}
use pyka.Storage.Segment.Runs.{
  IsRun, IsRun-take, IsRun-drop, wanted, wanted-append, wanted_before, wanted_past, offset_step,
}
use pyka.Broker.Handler.Consume.{next_after}

-- What is wanted from a later offset on is wanted of what was wanted from an earlier one.
wanted-wanted : (o o' : ℤ) (rs : List Record) → o ≤ℤ o' → wanted o' (wanted o rs) ≡ wanted o' rs
wanted-wanted o o' [] h = refl
wanted-wanted o o' (r ∷ rs) h = ground (arith, wanted-wanted o o' rs h)

-- What is wanted of a run is a run.
pub wanted-IsRun :
    (o offset : ℤ) (rs : List Record)
    → IsRun o rs
    → (o' : ℤ) × IsRun o' (wanted offset rs) × (offset ≤ℤ o')
wanted-IsRun o offset [] run = (offset, tt, omega arith)
wanted-IsRun o offset (r ∷ rs) run = elim (Bool-cases (leb_ℤ offset o)) [
  | inl early ↦
      let le : offset ≤ℤ o = leb→le _ _ early in
      (o, subst (IsRun o) (sym (wanted_before o offset (r ∷ rs) run le)) run, le)
  | inr late ↦
      let (o', later, le) = wanted-IsRun (o +ℤ pos 1) offset rs run.2 in
      let skipped : wanted offset (r ∷ rs) ≡ wanted offset rs =
        if_false {b = leb_ℤ offset r.offset} _ _ (rw run.0 late) in
      (o', subst (IsRun o') (sym skipped) later, le)
]

next_after-run :
    (d o : ℤ) (rs : List Record)
    → IsRun o rs
    → 0 < length rs
    → next_after d rs ≡ o +ℤ pos (length rs)
next_after-run d o [] run h = elim h [ ]
next_after-run d o (r ∷ []) run h = ap (λ z. z +ℤ pos 1) run.0
next_after-run d o (r ∷ r' ∷ rs) run h =
    next_after-run d (o +ℤ pos 1) (r' ∷ rs) run.2 (omega arith) ∙ offset_step o (length (r' ∷ rs))

next_after-le :
    (offset o : ℤ) (batch : List Record)
    → IsRun o batch
    → offset ≤ℤ o
    → offset ≤ℤ next_after offset batch
next_after-le offset o [] run h = omega arith
next_after-le offset o (r ∷ rs) run h =
    rw (next_after-run offset o (r ∷ rs) run (omega arith))
      (omega (arith, +ℤ_parts o (pos (length (r ∷ rs)))))

batch_rest :
    (offset o : ℤ) (batch rest : List Record)
    → IsRun o (batch ++ rest)
    → offset ≤ℤ o
    → wanted (next_after offset batch) (batch ++ rest) ≡ rest
batch_rest offset o [] rest run h = wanted_before o offset rest run h
batch_rest offset o (r ∷ rs) rest run h =
    let front = IsRun-take o (r ∷ rs) rest run in
    let end = o +ℤ pos (length (r ∷ rs)) in
    ap (λ e. wanted e ((r ∷ rs) ++ rest)) (next_after-run offset o (r ∷ rs) front (omega arith))
    ∙ wanted-append end (r ∷ rs) rest
    ∙ ap₂ ◌++◌ (wanted_past o end (r ∷ rs) front (omega arith))
        (wanted_before end end rest (IsRun-drop o (r ∷ rs) rest run) (omega arith))

-- After a batch from the front of what is wanted, the rest of it is wanted, from an offset that is
-- not before the one of the batch.
pub wanted-next_after :
    (base offset : ℤ) (rs : List Record) (n : ℕ)
    → IsRun base rs
    → (wanted (next_after offset (take n (wanted offset rs))) rs ≡ drop n (wanted offset rs))
      × (offset ≤ℤ next_after offset (take n (wanted offset rs)))
wanted-next_after base offset rs n run =
    let ws = wanted offset rs in
    let (o, run', le) = wanted-IsRun base offset rs run in
    let split : take n ws ++ drop n ws ≡ ws = take-append-drop n ws in
    let whole = subst (IsRun o) (sym split) run' in
    let later =
      next_after-le offset o (take n ws) (IsRun-take o (take n ws) (drop n ws) whole) le in
    (
      sym (wanted-wanted offset (next_after offset (take n ws)) rs later)
          ∙ ap (wanted (next_after offset (take n ws))) (sym split)
          ∙ batch_rest offset o (take n ws) (drop n ws) whole le,
      later,
    )
