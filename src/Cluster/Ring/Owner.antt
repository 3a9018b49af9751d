-- ===== src/Cluster/Ring/Owner.antt =====
-- Every partition has one owner, and every broker names the same one.
use pyka.Common.{
  ℕ, zero, suc, ◌+◌, ◌%◌, ◌<◌, ◌≤◌, ◌≡◌, refl, ◌∙◌, ap, List, [], ◌∷◌, Bool, true, false, ◌&&◌,
  Result, ok, ◌==◌, ltb, leb, map, if◌then◌else◌, arith, if_true, lt→ltb,
}
use pyka.Common.Int.{ℤ, pos}
use pyka.Python.Text.{Str, format}
use pyka.Cluster.Ring.{
  Ring, range, owns, select, my_partitions, addresses, routing_table, address_of, make_ring,
}
use pyka.Cluster.Ring

-- What the rest of the system asks of a ring of `brokers`: each partition belongs to one of them.
abbrev pub IsRouting : ℕ → (Str → ℤ → Result ℕ) → Type 0
IsRouting brokers broker_for =
    (topic : Str) (p : ℕ) → (b : ℕ) × (broker_for topic (pos p) ≡ ok b) × (b < brokers)

pub broker_for-IsRouting : (r : Ring) → 1 ≤ r.brokers → IsRouting r.brokers (Ring.broker_for r)
unfolding Ring.broker_for
broker_for-IsRouting r h topic p = (p % r.brokers, refl, omega arith)

pub address_of-ok :
    (r : Ring) (b : ℕ) → b < r.brokers → address_of r (pos b) ≡ ok (format r.address_template b)
unfolding address_of
address_of-ok r b h = if_true _ _ (lt→ltb b r.brokers h)

-- A number stands in a list.
abbrev pub contains : ℕ → List ℕ → Bool
contains p [] = false
contains p (q ∷ qs) = if p == q then true else contains p qs

module _ (brokers : ℕ) (broker_for : Str → ℤ → Result ℕ)
    (routing : IsRouting brokers broker_for) where
  select-range :
      (me : ℕ) (topic : Str) (start count : ℕ)
      → (l : List ℕ) × (select broker_for me topic (range start count) ≡ ok l)
        × ((p : ℕ)
            → contains p l
              ≡ (if leb start p && ltb p (start + count) then (routing topic p).0 == me else false))
  unfolding select owns
  select-range me topic start zero = ([], refl, λ p. ground arith)
  select-range me topic start (suc count) =
      let (l, runs, has) = select-range me topic (start + 1) count in
      let (b, is_b, _) = routing topic start in
      (
        (if b == me then start ∷ l else l),
        rw (is_b, runs),
        λ p.
            let same : p ≡ start → (routing topic p).0 ≡ b = λ e. ap (λ i. (routing topic i).0) e in
            ground (arith, has p, same),
      )

  -- Where every partition is routed to a broker, each partition of a topic has one owner: the brokers
  -- that list it under their own partitions are those with the owner's number, and it is one of them.
  pub my_partitions-owner :
      (topic : Str) (partitions p : ℕ)
      → p < partitions
      → (b : ℕ) × (b < brokers)
        × ((me : ℕ)
            → (l : List ℕ) × (my_partitions broker_for me topic partitions ≡ ok l)
              × (contains p l ≡ (b == me)))
  unfolding my_partitions
  my_partitions-owner topic partitions p h =
      let (b, is_b, b_lt) = routing topic p in
      (
        b,
        b_lt,
        λ me.
            let (l, runs, has) = select-range me topic 0 partitions in
            (l, runs, has p ∙ ground (arith, h)),
      )

  addresses-ok :
      (r : Ring) (topic : Str) (ps : List ℕ)
      → r.brokers ≡ brokers
      → addresses broker_for r topic ps
        ≡ ok (map (λ p. (p, format r.address_template (routing topic p).0)) ps)
  unfolding addresses
  addresses-ok r topic [] h = refl
  addresses-ok r topic (p ∷ ps) h =
      let (b, is_b, b_lt) = routing topic p in
      rw (is_b, address_of-ok r b (rw h b_lt), addresses-ok r topic ps h)

  -- Where every partition is routed to a broker, the routing table of a topic gives each of its
  -- partitions the address of its owner, so that brokers with the same configuration answer the same,
  -- whichever of them is asked.
  pub routing_table-ok :
      (r : Ring) (topic : Str) (partitions : ℕ)
      → r.brokers ≡ brokers
      → routing_table broker_for r topic partitions
        ≡ ok (map (λ p. (p, format r.address_template (routing topic p).0)) (range 0 partitions))
  unfolding routing_table
  routing_table-ok r topic partitions h = addresses-ok r topic (range 0 partitions) h
