-- ===== src/Cluster/HashRing.antt =====
-- src/pyka/cluster/ring.py, class HashRing: brokers and partitions as points of one circle.
-- `hashlib.blake2b(data, digest_size=8).digest()` is the parameter `blake2b`.
pub mod Circle
pub mod Churn
use pyka.Common.{
  ℕ, zero, suc, ◌+◌, ◌-◌, ◌%◌, List, [], ◌∷◌, ◌++◌, Bool, true, false, Option, none, some, Result,
  ok, err, value_error, index_error, ◌>>=◌, ltb, ◌==◌, if◌then◌else◌, length, get_elem?,
}
use pyka.Common.Int.{ℤ, pos, negsuc}
use pyka.Python.Struct.{Bytes, from_bytes}
use pyka.Python.Bisect.{bisect_right}
use pyka.Python.Text.{Str, Piece, decimal, utf8}
use pyka.Cluster.Ring.{Ring, make_ring}

-- A digest and a broker. `_keys` are the digests of `_points`.
abbrev pub Point : Type 0
Point = ℕ × ℕ

pub record HashRing : Type 0 where
  pub ring : Ring
  pub vnodes : ℕ
  pub points : List Point

-- Tuples are compared by digest, then by broker.
abbrev pub point_ltb : Point → Point → Bool
point_ltb (k, b) (k', b') = if k == k' then ltb b b' else ltb k k'

-- before the first point that is greater
unfoldable pub insert : Point → List Point → List Point
insert x [] = x ∷ []
insert x (c ∷ cs) = let rest = insert x cs in if point_ltb x c then x ∷ c ∷ cs else c ∷ rest

unfoldable pub insert_all : List Point → List Point → List Point
insert_all [] sorted = sorted
insert_all (x ∷ xs) sorted = insert_all xs (insert x sorted)

-- sorted(points), by insertion
unfoldable pub sort : List Point → List Point
unfolding insert_all
sort xs = insert_all xs []

-- f"broker-{broker}#{v}"
abbrev vnode_name : ℕ → ℕ → Str
vnode_name broker v =
    (0x62 ∷ 0x72 ∷ 0x6f ∷ 0x6b ∷ 0x65 ∷ 0x72 ∷ 0x2d ∷ []) ++ decimal broker ++ 0x23 ∷ decimal v

-- f"{topic}:{partition}"
abbrev pub partition_name : Str → ℕ → Str
partition_name topic partition = topic ++ 0x3a ∷ decimal partition

abbrev pub is_after : ℕ → Point → Bool
is_after d p = ltb d p.0

-- self._points[index][1]
abbrev pub owner_of : Option Point → Result ℕ
owner_of (some p) = ok p.1
owner_of none = err index_error

module _ (blake2b : Bytes → Bytes) where
  unfoldable pub digest : Str → ℕ
  digest value = from_bytes (blake2b (utf8 value))

  -- the points of one broker, from its `v`-th on
  unfoldable pub broker_points : ℕ → ℕ → ℕ → List Point
  unfolding digest
  broker_points broker v zero = []
  broker_points broker v (suc count) =
      (digest (vnode_name broker v), broker) ∷ broker_points broker (v + 1) count

  -- for broker in range(brokers) for v in range(vnodes)
  unfoldable pub all_points : ℕ → ℕ → List Point
  unfolding broker_points
  all_points zero vnodes = []
  all_points (suc brokers) vnodes = all_points brokers vnodes ++ broker_points brokers 0 vnodes

  -- HashRing(brokers, me, address_template, vnodes), with __post_init__
  unfoldable pub make_hash_ring : ℤ → ℤ → List Piece → ℕ → Result HashRing
  unfolding make_ring sort all_points
  make_hash_ring brokers me template vnodes = do
    r ← make_ring brokers me template
    if ltb vnodes 1
        then err value_error
        else ok (record { ring = r; vnodes = vnodes; points = sort (all_points r.brokers vnodes) })

  unfoldable pub broker_for : HashRing → Str → ℤ → Result ℕ
  unfolding digest bisect_right
  broker_for h topic (negsuc n) = err value_error
  broker_for h topic (pos partition) =
      let index = bisect_right (is_after (digest (partition_name topic partition))) h.points in
      owner_of (get_elem? h.points (index % length h.points))
