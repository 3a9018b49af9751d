-- ===== src/Topic/Partitioner/Balance.antt =====
-- What the partitioner promises: a partition that exists, one per key, an even load without keys.
use native.Mathlib.Nat.{add-mod_right, mod-add-mod, mod-eq_of_lt, mod_self}
use pyka.Common.{
  ℕ, zero, suc, ◌+◌, ◌%◌, ◌<◌, ◌≤◌, ◌≡◌, ◌≢◌, refl, sym, ◌∙◌, ap, Option, none, some, Result, ok,
  err, ltb, if◌then◌else◌, arith, ltb-false, ltb→lt, ltb→ge, Bool-cases, inl, inr, ok-injective,
  if_false, List, [], ◌∷◌, ◌==◌,
}
use pyka.Python.Struct.{Bytes}
use pyka.Python.Zlib.{crc32}
use pyka.Topic.Partitioner.{Partitioner, partition_for}

partition_for-none :
    (s : Partitioner) (n : ℕ)
    → 1 ≤ n
    → partition_for s none n ≡ (ok (s.next % n), record s { next = s.next + 1 })
unfolding partition_for
partition_for-none s n h = if_false _ _ (ltb-false n 1 h)

partition_for-some :
    (s : Partitioner) (k : Bytes) (n : ℕ)
    → 1 ≤ n
    → partition_for s (some k) n ≡ (ok (crc32 k 0 % n), s)
unfolding partition_for
partition_for-some s k n h = if_false _ _ (ltb-false n 1 h)

-- With one partition or more, every record goes to a partition of the topic.
pub partition_for-lt :
    (s : Partitioner) (key : Option Bytes) (n : ℕ)
    → 1 ≤ n
    → (p : ℕ) × ((partition_for s key n).0 ≡ ok p) × (p < n)
partition_for-lt s none n h = (s.next % n, ap (λ r. r.0) (partition_for-none s n h), omega arith)
partition_for-lt s (some k) n h =
    (crc32 k 0 % n, ap (λ r. r.0) (partition_for-some s k n h), omega arith)

-- A list of records with or without keys, one after the other: the partition of each, where it has
-- one, and the state at the end.
unfoldable pub partition_all : Partitioner → List (Option Bytes) → ℕ → List (Result ℕ) × Partitioner
partition_all s [] n = ([], s)
partition_all s (key ∷ keys) n =
    let (p, s') = partition_for s key n in let (ps, s'') = partition_all s' keys n in (p ∷ ps, s'')

-- A key goes to one partition, whatever went before it in this process or in another one.
pub partition_for_stable :
    (s s' : Partitioner) (before before' : List (Option Bytes)) (k : Bytes) (n : ℕ)
    → 1 ≤ n
    → (partition_for (partition_all s before n).1 (some k) n).0
      ≡ (partition_for (partition_all s' before' n).1 (some k) n).0
partition_for_stable s s' before before' k n h = rw (
  partition_for-some (partition_all s before n).1 k n h,
  partition_for-some (partition_all s' before' n).1 k n h,
)

-- The partitions of `m` records without a key, sent one after the other.
abbrev pub keyless : ℕ → List (Option Bytes)
keyless zero = []
keyless (suc m) = none ∷ keyless m

abbrev pub is_ok : ℕ → Result ℕ → ℕ
is_ok p (ok q) = if p == q then 1 else 0
is_ok p (err e) = 0

-- How many of the records went to partition `p`.
abbrev pub load : ℕ → List (Result ℕ) → ℕ
load p [] = 0
load p (r ∷ rs) = is_ok p r + load p rs

abbrev turn : ℕ → ℕ → ℕ → ℕ
turn p n i = if p == i % n then 1 else 0

-- the same count, over the counter
turns : ℕ → ℕ → ℕ → ℕ → ℕ
turns p n start zero = 0
turns p n start (suc m) = turn p n start + turns p n (start + 1) m

load-turns :
    (s : Partitioner) (p n m : ℕ)
    → 1 ≤ n
    → load p (partition_all s (keyless m) n).0 ≡ turns p n s.next m
unfolding partition_all turns
load-turns s p n zero h = refl
load-turns s p n (suc m) h =
    rw (partition_for-none s n h, load-turns (record s { next = s.next + 1 }) p n m h)

turns_last : (p n start m : ℕ) → turns p n start (suc m) ≡ turns p n start m + turn p n (start + m)
unfolding turns
turns_last p n start zero =
    let e : start + 0 ≡ start = omega arith in omega (arith, ap (λ i. turn p n i) e)
turns_last p n start (suc m) =
    let e : start + 1 + m ≡ start + suc m = omega arith in
    omega (arith, turns_last p n (start + 1) m, ap (λ i. turn p n i) e)

turn_mod : (p n start : ℕ) → 1 ≤ n → turn p n (start + n) ≡ turn p n start
turn_mod p n start h = ap (λ i. if p == i then 1 else 0) (add-mod_right start n)

-- a window that moves by one loses the turn that it gains
turns_shift : (p n start : ℕ) → 1 ≤ n → turns p n (start + 1) n ≡ turns p n start n
unfolding turns
turns_shift p n start h = omega (arith, turns_last p n start n, turn_mod p n start h)

turns_first :
    (p n start m : ℕ)
    → start + m ≤ n
    → turns p n start m ≡ (if ltb p start then 0 else if ltb p (start + m) then 1 else 0)
unfolding turns
turns_first p n start zero h = ground arith
turns_first p n start (suc m) h =
    let e : start % n ≡ start = mod-eq_of_lt (omega arith) in
    ground (arith, e, turns_first p n (start + 1) m (omega arith))

turns_once : (p n start : ℕ) → p < n → turns p n start n ≡ 1
turns_once p n zero h = ground (arith, turns_first p n 0 n (omega arith))
turns_once p n (suc start) h =
    let e : start + 1 ≡ suc start = omega arith in
    ap (λ i. turns p n i n) (sym e) ∙ turns_shift p n start (omega arith) ∙ turns_once p n start h

-- From any state, as many records without a key as there are partitions go to each partition once.
pub load-keyless :
    (s : Partitioner) (p n : ℕ) → p < n → load p (partition_all s (keyless n) n).0 ≡ 1
load-keyless s p n h = load-turns s p n n (omega arith) ∙ turns_once p n s.next h

next_differs : (k n : ℕ) → 2 ≤ n → k % n ≢ (k + 1) % n
next_differs k n h same = elim (Bool-cases (ltb (k % n + 1) n)) [
  | inl lt ↦
      let e : (k % n + 1) % n ≡ k % n + 1 = mod-eq_of_lt (ltb→lt _ _ lt) in
      omega (arith, mod-add-mod k n 1, e)
  | inr ge ↦
      let e : k % n + 1 ≡ n = omega (arith, ltb→ge _ _ ge) in
      omega (arith, mod-add-mod k n 1, ap (λ i. i % n) e, mod_self n)
]

-- A record without a key, asked for twice in a row in a topic of two partitions or more, gets two
-- different partitions.
pub partition_for_again :
    (s : Partitioner) (n p q : ℕ)
    → 2 ≤ n
    → (partition_for s none n).0 ≡ ok p
    → (partition_for (partition_for s none n).1 none n).0 ≡ ok q
    → p ≢ q
partition_for_again s n p q h first again same =
    let one : 1 ≤ n = omega arith in
    let p_is : ok (s.next % n) ≡ ok p = rw (partition_for-none s n one) at first in
    let q_is : ok ((s.next + 1) % n) ≡ ok q =
      rw (partition_for-none s n one, partition_for-none (record s { next = s.next + 1 }) n one) at
        again in
    next_differs s.next n h (ok-injective (p_is ∙ ap ok same ∙ sym q_is))
