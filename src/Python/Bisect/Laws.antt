-- ===== src/Python/Bisect/Laws.antt =====
-- On a sorted list the binary search counts the elements that are not after `x`.
use mathlib.Core.Path.{subst, ◌∙◌}
use mathlib.Core.Option.{some-injective}
use pyka.Common.{
  none-ne-some, Option-cases, ℕ, zero, suc, ◌+◌, ◌/◌, ◌≤◌, ◌<◌, ◌≡◌, refl, List, [], ◌∷◌, Bool,
  true, false, Option, none, some, length, if◌then◌else◌, get_elem?, arith, Bool-cases, inl, inr,
  All, Option, none, some,
}
use pyka.Python.Bisect.{after_at, bisect_loop, bisect_right}

module _ {ℓ} {A : Type ℓ} (after : A → Bool) where
  -- How many elements stand before the first one that is after `x`.
  abbrev pub count_before : List A → ℕ
  count_before [] = 0
  count_before (e ∷ es) = let rest = count_before es in if after e then 0 else suc rest

  -- From the first element after `x` on, all are.
  abbrev pub IsPartitioned : List A → Type 0
  IsPartitioned [] = Unit
  IsPartitioned (e ∷ es) = (after e ≡ true → All (λ d. after d ≡ true) es) × IsPartitioned es

  pub count_before-le : (es : List A) → count_before es ≤ length es
  count_before-le [] = omega arith
  count_before-le (e ∷ es) = ground (arith, count_before-le es)

  -- before the count, the test fails
  below_count : (es : List A) (i : ℕ) → i < count_before es → after_at after es i ≡ false
  below_count [] i h = refl
  below_count (e ∷ es) zero h = ground arith
  below_count (e ∷ es) (suc i) h = ground (arith, below_count es i)

  All-at :
      (es : List A) (i : ℕ)
      → All (λ d. after d ≡ true) es
      → i < length es
      → after_at after es i ≡ true
  All-at [] i h lt = elim lt [ ]
  All-at (e ∷ es) zero h lt = h.0
  All-at (e ∷ es) (suc i) h lt = All-at es i h.1 (omega arith)

  -- from the count on, it holds
  above_count :
      (es : List A) (i : ℕ)
      → IsPartitioned es
      → count_before es ≤ i
      → i < length es
      → after_at after es i ≡ true
  above_count [] i h c lt = elim lt [ ]
  above_count (e ∷ es) zero h c lt = ground arith
  above_count (e ∷ es) (suc i) h c lt = ground (arith, h.0, All-at es i, above_count es i h.1)

  bisect_loop_lem :
      (fuel : ℕ) (es : List A) (lo hi : ℕ)
      → IsPartitioned es
      → lo ≤ count_before es
      → count_before es ≤ hi
      → hi ≤ length es
      → hi ≤ lo + fuel
      → bisect_loop after fuel es lo hi ≡ count_before es
  unfolding bisect_loop
  bisect_loop_lem zero es lo hi s l h b f = omega arith
  bisect_loop_lem (suc fuel) es lo hi s l h b f = ground (
    arith,
    below_count es ((lo + hi) / 2),
    above_count es ((lo + hi) / 2) s,
    bisect_loop_lem fuel es lo ((lo + hi) / 2) s,
    bisect_loop_lem fuel es ((lo + hi) / 2 + 1) hi s,
  )

  -- The search takes no more rounds than there are elements, and ends at the boundary.
  pub bisect_right_lem : (es : List A) → IsPartitioned es → bisect_right after es ≡ count_before es
  unfolding bisect_right
  bisect_right_lem es s =
      bisect_loop_lem (length es) es 0 (length es) s (omega arith) (count_before-le es)
        (omega arith) (omega arith)

  pub bisect_right-le : (es : List A) → IsPartitioned es → bisect_right after es ≤ length es
  bisect_right-le es s = rw (bisect_right_lem es s) (count_before-le es)

  -- The last element that is not after `x`, by a scan of the whole list.
  abbrev pub last_before : List A → Option A
  last_before [] = none
  last_before (e ∷ es) = elim (last_before es) [
    | some d ↦ some d
    | none ↦ if after e then none else some e
  ]

  abbrev pub element_before : List A → ℕ → Option A
  element_before es zero = none
  element_before es (suc i) = get_elem? es i

  last_before-none : (es : List A) → All (λ d. after d ≡ true) es → last_before es ≡ none
  last_before-none [] h = refl
  last_before-none (e ∷ es) h = rw (last_before-none es h.1, h.0)

  pub get_elem?-in : (es : List A) (i : ℕ) → i < length es → (e : A) × (get_elem? es i ≡ some e)
  get_elem?-in [] i h = elim h [ ]
  get_elem?-in (e ∷ es) zero h = (e, refl)
  get_elem?-in (e ∷ es) (suc i) h = get_elem?-in es i (omega arith)

  element_before_step :
      (e : A) (es : List A) (n : ℕ)
      → after e ≡ false
      → n ≤ length es
      → element_before es n ≡ last_before es
      → get_elem? (e ∷ es) n ≡ last_before (e ∷ es)
  element_before_step e es zero p h ih = rw (← ih) (rw p)
  element_before_step e es (suc i) p h ih =
      let (d, found) = get_elem?-in es i (omega arith) in rw (← ih, found)

  element_before-count :
      (es : List A) → IsPartitioned es → element_before es (count_before es) ≡ last_before es
  element_before-count [] h = refl
  element_before-count (e ∷ es) h = elim (Bool-cases (after e)) [
    | inl p ↦ rw (p, last_before-none es (h.0 p)) (rw p)
    | inr p ↦ rw p (
        element_before_step e es (count_before es) p (count_before-le es)
          (element_before-count es h.1))
  ]

  -- `a[bisect_right(a, x) - 1]` is what the scan finds, and there is none where the scan finds none.
  pub element_before-bisect :
      (es : List A) → IsPartitioned es → element_before es (bisect_right after es) ≡ last_before es
  element_before-bisect es h = rw (bisect_right_lem es h) (element_before-count es h)

  -- What the scan finds is an element of the list, and not after `x`.
  pub last_before-All {κ} :
      (P : A → Type κ) (es : List A) (e : A)
      → All P es
      → last_before es ≡ some e
      → P e × (after e ≡ false)
  last_before-All P [] e h found = cc
  last_before-All P (d ∷ es) e h found = elim (Option-cases (last_before es)) [
    | inr (e', later) ↦ last_before-All P es e h.1 (later ∙ rw later at found)
    | inl none_later ↦ elim (Bool-cases (after d)) [
      | inl p ↦ absurd (none-ne-some (rw (none_later, p) at found))
      | inr p ↦
          let same : d ≡ e = some-injective d e (rw (none_later, p) at found) in
          (subst P same h.0, rw (← same) p)
    ]
  ]
