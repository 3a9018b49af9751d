-- ===== src/Cluster/HashRing/Churn.antt =====
-- What a hash ring promises: an owner among the brokers, and little change when a broker joins.
use mathlib.Core.Path.{subst, ap₂}
use mathlib.Core.Option.{some-injective}
use pyka.Common.{
  ℕ, zero, suc, ◌+◌, ◌%◌, ◌≤◌, ◌<◌, ◌≡◌, refl, sym, ap, ◌∙◌, List, [], ◌∷◌, ◌++◌, Option, none,
  some, ltb, length, get_elem?, arith, All, Bool-cases, inl, inr, ◌⊎◌, if_true, if_elim, if_false,
  ok-injective, err-ne-ok, ltb→ge, ok,
}
use pyka.Common.Int.{ℤ, pos, negsuc}
use pyka.Python.Struct.{Bytes}
use pyka.Python.Bisect.{bisect_right}
use pyka.Python.Bisect.Laws.{IsPartitioned}
use pyka.Python.Text.{Str, Piece}
use pyka.Cluster.Ring.{make_ring}
use pyka.Cluster.Ring.Owner.{IsRouting}
use pyka.Cluster.HashRing.{
  HashRing, Point, insert, insert_all, sort, is_after, point_ltb, digest, partition_name,
  broker_points, owner_of, all_points, make_hash_ring, broker_for,
}
use pyka.Cluster.HashRing.Circle.{
  first_after, head?, or_else, clockwise, get_elem?-bisect, insert_all-IsPartitioned,
  insert_all-All, length-insert_all, insert_all-append, clockwise-All,
}

first_after-cons :
    (d : ℕ) (x : Point) (ps : List Point)
    → (first_after d (x ∷ ps) ≡ some x) ⊎ (first_after d (x ∷ ps) ≡ first_after d ps)
first_after-cons d x ps = elim (Bool-cases (is_after d x)) [
  | inl after ↦ inl (if_true _ _ after)
  | inr before ↦ inr (if_false _ _ before)
]

-- The first point behind `d` is the new one, or what it was.
first_after-insert :
    (d : ℕ) (x : Point) (ps : List Point)
    → (first_after d (insert x ps) ≡ some x) ⊎ (first_after d (insert x ps) ≡ first_after d ps)
unfolding insert
first_after-insert d x [] = elim (Bool-cases (is_after d x)) [
  | inl after ↦ inl (rw after)
  | inr before ↦ inr (rw before)
]
first_after-insert d x (c ∷ cs) =
    if_elim
      (λ (l : List Point). (first_after d l ≡ some x) ⊎ (first_after d l ≡ first_after d (c ∷ cs)))
      (point_ltb x c) (first_after-cons d x (c ∷ cs))
      (elim (Bool-cases (is_after d c)) [
        | inl after ↦ inr (if_true _ _ after ∙ sym (if_true _ _ after))
        | inr before ↦ elim (first_after-insert d x cs) [
          | inl is_x ↦ inl (if_false _ _ before ∙ is_x)
          | inr same ↦ inr (if_false _ _ before ∙ same ∙ sym (if_false _ _ before))
        ]
      ])

head?-insert :
    (x : Point) (ps : List Point)
    → (head? (insert x ps) ≡ some x) ⊎ (head? (insert x ps) ≡ head? ps)
unfolding insert
head?-insert x [] = inl refl
head?-insert x (c ∷ cs) = elim (Bool-cases (point_ltb x c)) [
  | inl lower ↦ inl (rw lower)
  | inr higher ↦ inr (rw higher)
]

or_else-cases :
    (x : Point) (f g f' g' : Option Point)
    → (f' ≡ some x) ⊎ (f' ≡ f)
    → (g' ≡ some x) ⊎ (g' ≡ g)
    → (or_else f' g' ≡ some x) ⊎ (or_else f' g' ≡ or_else f g)
or_else-cases x f g f' g' (inl p) _ = inl (rw p)
or_else-cases x (some q) g f' g' (inr p) _ = inr (rw p)
or_else-cases x none g f' g' (inr p) (inl q) = inl (rw (p, q))
or_else-cases x none g f' g' (inr p) (inr q) = inr (rw (p, q))

-- Points of one broker that join the circle take what they take: the rest stays where it was.
clockwise-insert_all :
    (d b : ℕ) (xs ps : List Point)
    → All (λ x. x.1 ≡ b) xs
    → ((p : Point) × (clockwise d (insert_all xs ps) ≡ some p) × (p.1 ≡ b))
      ⊎ (clockwise d (insert_all xs ps) ≡ clockwise d ps)
unfolding insert_all
clockwise-insert_all d b [] ps h = inr refl
clockwise-insert_all d b (x ∷ xs) ps h = elim (clockwise-insert_all d b xs (insert x ps) h.1) [
  | inl found ↦ inl found
  | inr same ↦
      elim (or_else-cases x (first_after d ps) (head? ps) (first_after d (insert x ps))
        (head? (insert x ps)) (first_after-insert d x ps) (head?-insert x ps)) [
          | inl is_x ↦ inl (x, same ∙ is_x, h.0)
          | inr before ↦ inr (same ∙ before)
        ]
]

module _ {ℓ κ} {A : Type ℓ} where
  All-map : (P Q : A → Type κ) (xs : List A) → ((x : A) → P x → Q x) → All P xs → All Q xs
  All-map P Q [] f h = tt
  All-map P Q (x ∷ xs) f h = (f x h.0, All-map P Q xs f h.1)

  All-append : (P : A → Type κ) (xs ys : List A) → All P xs → All P ys → All P (xs ++ ys)
  All-append P [] ys h k = k
  All-append P (x ∷ xs) ys h k = (h.0, All-append P xs ys h.1 k)

module _ (blake2b : Bytes → Bytes) where
  broker_points-All : (b v count : ℕ) → All (λ p. p.1 ≡ b) (broker_points blake2b b v count)
  unfolding broker_points
  broker_points-All b v zero = tt
  broker_points-All b v (suc count) = (refl, broker_points-All b (v + 1) count)

  length-broker_points : (b v count : ℕ) → length (broker_points blake2b b v count) ≡ count
  unfolding broker_points
  length-broker_points b v zero = refl
  length-broker_points b v (suc count) = ap suc (length-broker_points b (v + 1) count)

  all_points-All :
      (brokers vnodes : ℕ) → All (λ p. p.1 < brokers) (all_points blake2b brokers vnodes)
  unfolding all_points
  all_points-All zero vnodes = tt
  all_points-All (suc n) vnodes =
      All-append _ _ _ (All-map _ _ _ (λ p h. omega arith) (all_points-All n vnodes))
        (All-map _ _ _ (λ p h. omega arith) (broker_points-All n 0 vnodes))

  -- The points of a ring of `n` brokers with `v` points each.
  abbrev points_of : ℕ → ℕ → List Point
  points_of n v = sort (all_points blake2b n v)

  points_of-All : (n v : ℕ) → All (λ p. p.1 < n) (points_of n v)
  unfolding sort
  points_of-All n v = insert_all-All _ (all_points blake2b n v) [] (all_points-All n v) tt

  points_of-IsPartitioned : (d n v : ℕ) → IsPartitioned (is_after d) (points_of n v)
  unfolding sort
  points_of-IsPartitioned d n v = insert_all-IsPartitioned d (all_points blake2b n v) [] tt

  points_of-suc :
      (n v : ℕ) → points_of (suc n) v ≡ insert_all (broker_points blake2b n 0 v) (points_of n v)
  unfolding sort all_points
  points_of-suc n v = insert_all-append (all_points blake2b n v) (broker_points blake2b n 0 v) []

  length-points_of : (n v : ℕ) → 1 ≤ n → 1 ≤ v → 1 ≤ length (points_of n v)
  length-points_of zero v h k = absurd (omega arith)
  length-points_of (suc n) v h k = rw (points_of-suc n v) (
      omega (
        arith,
        length-insert_all (broker_points blake2b n 0 v) (points_of n v),
        length-broker_points n 0 v,
        k,
      ))

  -- What the constructor leaves in a ring.
  pub record IsValid (h : HashRing) : Type 0 where
    pub points_sorted : h.points ≡ points_of h.ring.brokers h.vnodes
    pub some_broker : 1 ≤ h.ring.brokers
    pub some_vnode : 1 ≤ h.vnodes

  -- A ring that the constructor returns holds the sorted points of its brokers, of which there is at
  -- least one with at least one point.
  pub make_hash_ring-IsValid :
      (brokers me : ℤ) (template : List Piece) (vnodes : ℕ) (h : HashRing)
      → make_hash_ring blake2b brokers me template vnodes ≡ ok h
      → IsValid h
  unfolding make_hash_ring make_ring
  make_hash_ring-IsValid (negsuc n) me template vnodes h made = cc
  make_hash_ring-IsValid (pos n) (negsuc m) template vnodes h made = cc
  make_hash_ring-IsValid (pos n) (pos m) template vnodes h made = elim (Bool-cases (ltb n 1)) [
    | inl no_broker ↦ absurd (err-ne-ok (rw no_broker at made))
    | inr brokers ↦ elim (Bool-cases (ltb m n)) [
      | inr outside ↦ absurd (err-ne-ok (rw (brokers, outside) at made))
      | inl inside ↦ elim (Bool-cases (ltb vnodes 1)) [
        | inl no_vnode ↦ absurd (err-ne-ok (rw (brokers, inside, no_vnode) at made))
        | inr vnode ↦ subst IsValid (ok-injective (rw (brokers, inside, vnode) at made)) record {
          points_sorted = refl;
          some_broker = ltb→ge n 1 brokers;
          some_vnode = ltb→ge vnodes 1 vnode;
        }
      ]
    ]
  ]

  -- the owner by the circle, without the binary search
  broker_for-clockwise :
      (h : HashRing) (topic : Str) (p : ℕ)
      → IsValid h
      → (q : Point) × (clockwise (digest blake2b (partition_name topic p)) h.points ≡ some q)
        × (broker_for blake2b h topic (pos p) ≡ ok q.1)
        × (q.1 < h.ring.brokers)
  unfolding broker_for
  broker_for-clockwise h topic p valid =
      let d = digest blake2b (partition_name topic p) in
      let long : 1 ≤ length h.points =
        rw valid.points_sorted
          (length-points_of h.ring.brokers h.vnodes valid.some_broker valid.some_vnode) in
      let (q, found, q_lt) =
        clockwise-All (λ q. q.1 < h.ring.brokers) d h.points long
          (rw valid.points_sorted (points_of-All h.ring.brokers h.vnodes)) in
      let at_index : get_elem? h.points (bisect_right (is_after d) h.points % length h.points)
          ≡ some q =
        get_elem?-bisect d h.points
          (rw valid.points_sorted (points_of-IsPartitioned d h.ring.brokers h.vnodes)) long
        ∙ found in
      (q, found, ap owner_of at_index, q_lt)

  -- In a ring that the constructor returns, every partition belongs to one of the brokers.
  pub hash_ring-IsRouting :
      (h : HashRing) → IsValid h → IsRouting h.ring.brokers (broker_for blake2b h)
  hash_ring-IsRouting h valid topic p =
      let (q, found, is_q, q_lt) = broker_for-clockwise h topic p valid in (q.1, is_q, q_lt)

  -- When a ring grows by one broker, every partition stays with its owner or moves to the new broker,
  -- also where two digests are equal.
  pub broker_for_grown :
      (h h' : HashRing) (topic : Str) (p b b' : ℕ)
      → IsValid h
      → IsValid h'
      → h'.ring.brokers ≡ suc h.ring.brokers
      → h'.vnodes ≡ h.vnodes
      → broker_for blake2b h topic (pos p) ≡ ok b
      → broker_for blake2b h' topic (pos p) ≡ ok b'
      → (b' ≡ b) ⊎ (b' ≡ h.ring.brokers)
  broker_for_grown h h' topic p b b' valid valid' grown same_vnodes is_b is_b' =
      let d = digest blake2b (partition_name topic p) in
      let (q, found, is_q, _) = broker_for-clockwise h topic p valid in
      let (q', found', is_q', _) = broker_for-clockwise h' topic p valid' in
      let eb : q.1 ≡ b = ok-injective (sym is_q ∙ is_b) in
      let eb' : q'.1 ≡ b' = ok-injective (sym is_q' ∙ is_b') in
      let joined : h'.points
          ≡ insert_all (broker_points blake2b h.ring.brokers 0 h.vnodes) h.points =
        valid'.points_sorted
        ∙ ap₂ points_of grown same_vnodes
        ∙ points_of-suc h.ring.brokers h.vnodes
        ∙ ap (λ ps. insert_all (broker_points blake2b h.ring.brokers 0 h.vnodes) ps)
            (sym valid.points_sorted) in
      let moved : clockwise d
            (insert_all (broker_points blake2b h.ring.brokers 0 h.vnodes) h.points)
          ≡ some q' =
        sym (ap (λ ps. clockwise d ps) joined) ∙ found' in
      elim (clockwise-insert_all d h.ring.brokers (broker_points blake2b h.ring.brokers 0 h.vnodes)
        h.points (broker_points-All h.ring.brokers 0 h.vnodes)) [
          | inl (r, is_r, new) ↦
              inr (sym eb' ∙ ap (λ x. x.1) (some-injective q' r (sym moved ∙ is_r)) ∙ new)
          | inr kept ↦
              inl (sym eb' ∙ ap (λ x. x.1) (some-injective q' q (sym moved ∙ kept ∙ found)) ∙ eb)
        ]
