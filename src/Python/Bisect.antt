-- ===== src/Python/Bisect.antt =====
-- `bisect.bisect_right(a, x, key=...)`. The test `x < key(e)` comes as a predicate on elements.
pub mod Laws
use pyka.Common.{
  ℕ, zero, suc, ◌+◌, ◌/◌, List, [], ◌∷◌, Bool, true, false, Option, none, some, ltb, length,
  if◌then◌else◌, get_elem?,
}

module _ {ℓ} {A : Type ℓ} (after : A → Bool) where
  -- `x < key(a[i])`. The loop only asks at positions inside the list.
  abbrev pub after_at : List A → ℕ → Bool
  after_at a i = elim (get_elem? a i) [ none ↦ false | some e ↦ after e ]

  -- while lo < hi: mid = (lo + hi) // 2; if x < key(a[mid]): hi = mid else: lo = mid + 1
  unfoldable pub bisect_loop : ℕ → List A → ℕ → ℕ → ℕ
  bisect_loop zero a lo hi = lo
  bisect_loop (suc fuel) a lo hi =
      let mid = (lo + hi) / 2 in
      let left = bisect_loop fuel a lo mid in
      let right = bisect_loop fuel a (mid + 1) hi in
      if ltb lo hi then (if after_at a mid then left else right) else lo

  unfoldable pub bisect_right : List A → ℕ
  unfolding bisect_loop
  bisect_right a = bisect_loop (length a) a 0 (length a)
