-- ===== src/Cluster/Ring.antt =====
-- src/pyka/cluster/ring.py, class Ring: which broker owns a partition. What HashRing inherits takes
-- the `broker_for` that it calls as a parameter.
pub mod Owner
use pyka.Common.{
  ℕ, zero, suc, ◌+◌, ◌%◌, List, [], ◌∷◌, Bool, true, false, Option, none, some, Result, ok, err,
  value_error, ◌>>=◌, ◌>>◌, guard, ltb, leb, ◌==◌, if◌then◌else◌, arith, not, ◌&&◌,
}
use pyka.Common.Int.{ℤ, pos, negsuc, leb_ℤ, ltb_ℤ}
use pyka.Python.Text.{Str, Piece, format}

pub record Ring : Type 0 where
  pub brokers : ℕ
  pub me : ℕ
  pub address_template : List Piece

-- Ring(brokers, me, address_template), with __post_init__
unfoldable pub make_ring : ℤ → ℤ → List Piece → Result Ring
make_ring (negsuc n) me template = err value_error
make_ring (pos n) (negsuc m) template = err value_error
make_ring (pos n) (pos me) template =
    if ltb n 1
    then err value_error
    else if ltb me n
    then ok (record { brokers = n; me = me; address_template = template })
    else err value_error

unfoldable pub broker_for : Ring → Str → ℤ → Result ℕ
broker_for r topic (pos partition) = ok (partition % r.brokers)
broker_for r topic (negsuc n) = err value_error

-- range(start, start + count)
abbrev pub range : ℕ → ℕ → List ℕ
range start zero = []
range start (suc count) = start ∷ range (start + 1) count

unfoldable pub address_of : Ring → ℤ → Result Str
unfolding format
address_of r (negsuc n) = err value_error
address_of r (pos broker) =
    if ltb broker r.brokers then ok (format r.address_template broker) else err value_error

module _ (broker_for : Str → ℤ → Result ℕ) where
  unfoldable pub owns : ℕ → Str → ℤ → Result Bool
  owns me topic partition = do broker ← broker_for topic partition; ok (broker == me)

  select : ℕ → Str → List ℕ → Result (List ℕ)
  unfolding owns
  select me topic [] = ok []
  select me topic (p ∷ ps) = do
    owned ← owns me topic (pos p)
    rest ← select me topic ps
    ok (if owned then p ∷ rest else rest)

  unfoldable pub my_partitions : ℕ → Str → ℕ → Result (List ℕ)
  unfolding select
  my_partitions me topic partitions = select me topic (range 0 partitions)

  addresses : Ring → Str → List ℕ → Result (List (ℕ × Str))
  addresses r topic [] = ok []
  addresses r topic (p ∷ ps) = do
    broker ← broker_for topic (pos p)
    address ← address_of r (pos broker)
    rest ← addresses r topic ps
    ok ((p, address) ∷ rest)

  unfoldable pub routing_table : Ring → Str → ℕ → Result (List (ℕ × Str))
  unfolding addresses
  routing_table r topic partitions = addresses r topic (range 0 partitions)
