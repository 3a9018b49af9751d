-- ===== src/Storage/Index/Lookup.antt =====
-- `lookup` against a scan of the entries.
use pyka.Common.{ℕ, zero, suc, ◌≤◌, ◌≡◌, [], ◌∷◌, true, Option, none, some, ok, arith, length, All}
use pyka.Common.Int.{ℤ, pos, ◌+ℤ◌, ◌-ℤ◌}
use pyka.Python.Bisect.{bisect_right}
use pyka.Python.Bisect.Laws.{
  IsPartitioned, last_before, element_before, element_before-bisect, bisect_right-le, get_elem?-in,
}
use pyka.Storage.Index.{Index, starts_after, entry_before, lookup}
use pyka.Storage.Index.Entries.{Entries, Follows, IsIncreasing, IsValid}

-- The last entry at or before the offset, found by looking at all of them; byte 0 if there is none.
unfoldable pub hint : Index → ℤ → ℤ × ℕ
hint x offset = elim (last_before (starts_after (offset -ℤ x.base_offset)) x.entries) [
  | none ↦ (x.base_offset, 0)
  | some e ↦ (x.base_offset +ℤ pos e.0, e.1)
]

All-after :
    (i : ℕ) (relative : ℤ) (e : ℕ × ℕ) (es : Entries)
    → All (Follows i e) es
    → starts_after relative e ≡ true
    → All (λ d. starts_after relative d ≡ true) es
All-after i relative e [] h t = tt
All-after i relative e (d ∷ es) h t = (ground (arith, h.0), All-after i relative e es h.1 t)

pub IsIncreasing-IsPartitioned :
    (i : ℕ) (relative : ℤ) (es : Entries)
    → IsIncreasing i es
    → IsPartitioned (starts_after relative) es
IsIncreasing-IsPartitioned i relative [] h = tt
IsIncreasing-IsPartitioned i relative (e ∷ es) h =
    (λ t. All-after i relative e es h.0 t, IsIncreasing-IsPartitioned i relative es h.1)

entry_before_lem :
    (x : Index) (n : ℕ) (found : Option (ℕ × ℕ))
    → n ≤ length x.entries
    → element_before (starts_after (pos 0)) x.entries n ≡ found
    → entry_before x n
      ≡ ok (elim found [ none ↦ (x.base_offset, 0) | some e ↦ (x.base_offset +ℤ pos e.0, e.1) ])
unfolding entry_before
entry_before_lem x zero found h q = rw (← q)
entry_before_lem x (suc i) found h q =
    let (e, at) = get_elem?-in (starts_after (pos 0)) x.entries i (omega arith) in
    rw (← q, at, entry_before)

-- `lookup` never fails, and its binary search finds the entry that the scan finds.
pub lookup-hint : (x : Index) (offset : ℤ) → IsValid x → lookup x offset ≡ ok (hint x offset)
unfolding lookup hint
lookup-hint x offset v =
    let after = starts_after (offset -ℤ x.base_offset) in
    let sorted =
      IsIncreasing-IsPartitioned x.interval_bytes (offset -ℤ x.base_offset) x.entries
        v.increasing in
    entry_before_lem x (bisect_right after x.entries) _ (bisect_right-le after x.entries sorted)
      (element_before-bisect after x.entries sorted)
