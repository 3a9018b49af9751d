-- ===== src/Cluster/HashRing/Circle.antt =====
-- The binary search on the sorted points finds the first point clockwise.
use native.Mathlib.Nat.{mod-eq_of_lt, mod_self}
use pyka.Common.{
  ℕ, suc, ◌+◌, ◌%◌, ◌≤◌, ◌<◌, ◌≡◌, refl, sym, ap, ◌∙◌, List, [], ◌∷◌, ◌++◌, true, Option, none,
  some, ltb, if◌then◌else◌, length, get_elem?, arith, All, Bool-cases, inl, inr, ◌⊎◌, if_elim,
  ltb→lt, ltb→ge, if_true, if_false,
}
use pyka.Python.Bisect.{bisect_right}
use pyka.Python.Bisect.Laws.{count_before, count_before-le, IsPartitioned, bisect_right_lem}
use pyka.Cluster.HashRing.{Point, point_ltb, insert, insert_all, is_after}

-- The first point of the list behind `d`.
abbrev pub first_after : ℕ → List Point → Option Point
first_after d [] = none
first_after d (p ∷ ps) = if is_after d p then some p else first_after d ps

abbrev pub head? : List Point → Option Point
head? [] = none
head? (p ∷ ps) = some p

abbrev pub or_else : Option Point → Option Point → Option Point
or_else none other = other
or_else (some p) other = some p

-- The first point behind `d`, or the first point of all where none is behind `d`.
abbrev pub clockwise : ℕ → List Point → Option Point
clockwise d ps = or_else (first_after d ps) (head? ps)

get_elem?-count :
    (d : ℕ) (ps : List Point) → get_elem? ps (count_before (is_after d) ps) ≡ first_after d ps
get_elem?-count d [] = refl
get_elem?-count d (p ∷ ps) = elim (Bool-cases (is_after d p)) [
  | inl h ↦ rw h
  | inr h ↦ rw h (get_elem?-count d ps)
]

get_elem?-length {ℓ} : {A : Type ℓ} (xs : List A) → get_elem? xs (length xs) ≡ none
get_elem?-length [] = refl
get_elem?-length (x ∷ xs) = get_elem?-length xs

get_elem?-zero : (ps : List Point) → get_elem? ps 0 ≡ head? ps
get_elem?-zero [] = refl
get_elem?-zero (p ∷ ps) = refl

or_else-first_after :
    (d : ℕ) (ps : List Point) (other : Option Point)
    → count_before (is_after d) ps < length ps
    → or_else (first_after d ps) other ≡ first_after d ps
or_else-first_after d [] other h = elim h [ ]
or_else-first_after d (p ∷ ps) other h = elim (Bool-cases (is_after d p)) [
  | inl after ↦ rw after
  | inr before ↦
      let shorter : suc (count_before (is_after d) ps) < suc (length ps) = rw before at h in
      rw before (or_else-first_after d ps other (omega arith))
]

-- the index that broker_for computes, where there is a point
pub get_elem?-bisect :
    (d : ℕ) (ps : List Point)
    → IsPartitioned (is_after d) ps
    → 1 ≤ length ps
    → get_elem? ps (bisect_right (is_after d) ps % length ps) ≡ clockwise d ps
get_elem?-bisect d ps h some_point =
    rw (bisect_right_lem (is_after d) ps h)
      (elim (Bool-cases (ltb (count_before (is_after d) ps) (length ps))) [
        | inl lt ↦
            rw (mod-eq_of_lt (ltb→lt _ _ lt), get_elem?-count d ps)
              (sym (or_else-first_after d ps (head? ps) (ltb→lt _ _ lt)))
        | inr ge ↦
            let e : count_before (is_after d) ps ≡ length ps =
              omega (arith, ltb→ge _ _ ge, count_before-le (is_after d) ps) in
            let no_more : first_after d ps ≡ none =
              sym (get_elem?-count d ps) ∙ ap (λ i. get_elem? ps i) e ∙ get_elem?-length ps in
            rw (e, mod_self (length ps), get_elem?-zero, no_more)
      ])

pub insert-All {ℓ} :
    (P : Point → Type ℓ) (x : Point) (ps : List Point) → P x → All P ps → All P (insert x ps)
unfolding insert
insert-All P x [] px h = (px, tt)
insert-All P x (c ∷ cs) px h =
    if_elim (All P) (point_ltb x c) (px, h) (h.0, insert-All P x cs px h.1)

-- Inserting a point keeps the points in order, seen from any digest.
insert-IsPartitioned :
    (d : ℕ) (x : Point) (ps : List Point)
    → IsPartitioned (is_after d) ps
    → IsPartitioned (is_after d) (insert x ps)
unfolding insert
insert-IsPartitioned d x [] h = (λ _. tt, tt)
insert-IsPartitioned d x (c ∷ cs) h = elim (Bool-cases (point_ltb x c)) [
  | inl lower ↦ rw lower (
    (λ after_x.
        let after_c : is_after d c ≡ true = ground (arith, lower, after_x) in
        (after_c, h.0 after_c)),
    h,
  )
  | inr higher ↦ rw higher (
    λ after_c.
        insert-All (λ p. is_after d p ≡ true) x cs (ground (arith, higher, after_c)) (h.0 after_c),
    insert-IsPartitioned d x cs h.1,
  )
]

pub insert_all-IsPartitioned :
    (d : ℕ) (xs ps : List Point)
    → IsPartitioned (is_after d) ps
    → IsPartitioned (is_after d) (insert_all xs ps)
unfolding insert_all
insert_all-IsPartitioned d [] ps h = h
insert_all-IsPartitioned d (x ∷ xs) ps h =
    insert_all-IsPartitioned d xs (insert x ps) (insert-IsPartitioned d x ps h)

pub insert_all-All {ℓ} :
    (P : Point → Type ℓ) (xs ps : List Point) → All P xs → All P ps → All P (insert_all xs ps)
unfolding insert_all
insert_all-All P [] ps hs h = h
insert_all-All P (x ∷ xs) ps hs h =
    insert_all-All P xs (insert x ps) hs.1 (insert-All P x ps hs.0 h)

length-insert : (x : Point) (ps : List Point) → length (insert x ps) ≡ suc (length ps)
unfolding insert
length-insert x [] = refl
length-insert x (c ∷ cs) =
    if_elim (λ (l : List Point). length l ≡ suc (suc (length cs))) (point_ltb x c) refl
      (ap suc (length-insert x cs))

pub length-insert_all : (xs ps : List Point) → length (insert_all xs ps) ≡ length xs + length ps
unfolding insert_all
length-insert_all [] ps = omega arith
length-insert_all (x ∷ xs) ps =
    omega (arith, length-insert_all xs (insert x ps), length-insert x ps)

pub insert_all-append :
    (xs ys ps : List Point) → insert_all (xs ++ ys) ps ≡ insert_all ys (insert_all xs ps)
unfolding insert_all
insert_all-append [] ys ps = refl
insert_all-append (x ∷ xs) ys ps = insert_all-append xs ys (insert x ps)

first_after-All {ℓ} :
    (P : Point → Type ℓ) (d : ℕ) (ps : List Point)
    → All P ps
    → (first_after d ps ≡ none) ⊎ ((p : Point) × (first_after d ps ≡ some p) × P p)
first_after-All P d [] h = inl refl
first_after-All P d (p ∷ ps) h = elim (Bool-cases (is_after d p)) [
  | inl after ↦ inr (p, if_true _ _ after, h.0)
  | inr before ↦ elim (first_after-All P d ps h.1) [
    | inl none_after ↦ inl (if_false _ _ before ∙ none_after)
    | inr (q, found, pq) ↦ inr (q, if_false _ _ before ∙ found, pq)
  ]
]

-- A point that is found is one of the points.
pub clockwise-All {ℓ} :
    (P : Point → Type ℓ) (d : ℕ) (ps : List Point)
    → 1 ≤ length ps
    → All P ps
    → (p : Point) × (clockwise d ps ≡ some p) × P p
clockwise-All P d [] some_point h = absurd (omega arith)
clockwise-All P d (p ∷ ps) some_point h = elim (first_after-All P d (p ∷ ps) h) [
  | inl none_after ↦ (p, ap (λ f. or_else f (some p)) none_after, h.0)
  | inr (q, found, pq) ↦ (q, ap (λ f. or_else f (some p)) found, pq)
]
