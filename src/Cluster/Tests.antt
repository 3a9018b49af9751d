-- ===== src/Cluster/Tests.antt =====
-- Rings at concrete data; the hash of the hash ring is the sum of the bytes here.
use pyka.Common.{
  ℕ, ◌+◌, ◌*◌, ◌%◌, ◌<◌, ◌≡◌, refl, [], ◌∷◌, ◌⊎◌, List, ok, err, value_error, arith, ◌==◌,
}
use pyka.Common.Int.{pos}
use pyka.Python.Struct.{Bytes}
use pyka.Python.Struct
use pyka.Python.Text.{Piece, text, ordinal, format, decimal, utf8}
use pyka.Cluster.Ring.{Ring, make_ring, my_partitions, routing_table, address_of, range}
use pyka.Cluster.Ring
use pyka.Cluster.Ring.Owner.{IsRouting, broker_for-IsRouting, contains, my_partitions-owner}
use pyka.Cluster.HashRing.{HashRing, make_hash_ring, broker_for, sort, all_points}
use pyka.Cluster.HashRing
use pyka.Cluster.HashRing.Churn.{IsValid, make_hash_ring-IsValid, broker_for_grown}

abbrev host : List Piece
host = text (0x70 ∷ 0x2d ∷ []) ∷ ordinal ∷ []

abbrev three : Ring
three = record { brokers = 3; me = 1; address_template = host }

outside_cluster : make_ring (pos 3) (pos 3) host ≡ err value_error
unfolding make_ring
outside_cluster = refl

second_address : address_of three (pos 12) ≡ err value_error
unfolding address_of
second_address = refl

eleventh_host : format host 11 ≡ 0x70 ∷ 0x2d ∷ 0x31 ∷ 0x31 ∷ []
unfolding format
eleventh_host = refl

euro : utf8 (0x20ac ∷ []) ≡ 0xe2 ∷ 0x82 ∷ 0xac ∷ []
unfolding utf8
euro = refl

abbrev is_routed : IsRouting 3 (Ring.broker_for three)
is_routed = broker_for-IsRouting three (omega arith)

my_partitions-owner_example :
    (b : ℕ) × (b < 3)
    × ((me : ℕ)
        → (l : List ℕ) × (my_partitions (Ring.broker_for three) me (0x74 ∷ []) 6 ≡ ok l)
          × (contains 4 l ≡ (b == me)))
my_partitions-owner_example =
    my_partitions-owner 3 (Ring.broker_for three) is_routed (0x74 ∷ []) 6 4 (omega arith)

abbrev sum : Bytes → ℕ
sum [] = 0
sum (b ∷ bs) = b + sum bs

abbrev toy_hash : Bytes → Bytes
toy_hash bs = sum bs * 37 % 256 ∷ []

-- Two points for each of `n` brokers.
abbrev circle_of : ℕ → HashRing
circle_of n = record {
  ring = record { brokers = n; me = 0; address_template = host };
  vnodes = 2;
  points = sort (all_points toy_hash n 2);
}

made : make_hash_ring toy_hash (pos 2) (pos 0) host 2 ≡ ok (circle_of 2)
unfolding make_hash_ring
made = refl

circle_of_two-IsValid : IsValid toy_hash (circle_of 2)
circle_of_two-IsValid = make_hash_ring-IsValid toy_hash (pos 2) (pos 0) host 2 (circle_of 2) made

circle_of_three-IsValid : IsValid toy_hash (circle_of 3)
circle_of_three-IsValid = record {
  points_sorted = refl;
  some_broker = omega arith;
  some_vnode = omega arith;
}

old_owner : broker_for toy_hash (circle_of 2) (0x74 ∷ []) (pos 1) ≡ ok 0
unfolding broker_for sort all_points HashRing.insert Struct.from_bytes utf8 decimal
old_owner = refl

new_owner : broker_for toy_hash (circle_of 3) (0x74 ∷ []) (pos 1) ≡ ok 0
unfolding broker_for sort all_points HashRing.insert Struct.from_bytes utf8 decimal
new_owner = refl

broker_for_grown_example : ◌≡◌ {A = ℕ} 0 0 ⊎ ◌≡◌ {A = ℕ} 0 2
broker_for_grown_example =
    broker_for_grown toy_hash (circle_of 2) (circle_of 3) (0x74 ∷ []) 1 0 0 circle_of_two-IsValid
      circle_of_three-IsValid refl refl old_owner new_owner
