-- ===== src/Client/Producer/Batches.antt =====
-- How `send_batch` groups its records by broker.
use pyka.Common.{
  ℕ, ◌+◌, ◌<◌, ◌≤◌, ◌≡◌, ◌%◌, refl, sym, ap, ◌∙◌, List, [], ◌∷◌, ◌++◌, append-nil, append_assoc,
  Option, none, some, Result, ok, if_false, ltb-false, length, arith,
}
use pyka.Python.Dict.{lookup}
use pyka.Python.Struct.{Bytes}
use pyka.Python.Text.{Str}
use pyka.Python.Zlib.{crc32}
use pyka.Topic.Partitioner.{Partitioner}
use pyka.Topic.Partitioner
use pyka.Topic.Topics.{eq_str, eq_number}
use pyka.Client.Network.{Network}
use pyka.Client.Connection.{
  Connection, Routing, Method, Outcome, returned, and_then, python, choose, partition_for,
}
use pyka.Client.Producer.{Groups, request_for, found, address_in, add_request, pair_for, group}
use pyka.Client.Producer.Routed.{routing_hit, keyed}
use pyka.Client.Producer.Due.{
  requests_with, sent_to, due, due-nil, due-cons, requests_with-add_request,
}

-- The partition of a record in a topic of one partition or more; keys decide it where there is one.
partition_for-cases :
    (s : Partitioner) (key : Option Bytes) (count : ℕ)
    → 1 ≤ count
    → (p : ℕ) × (p < count)
      × ((k : Bytes) → key ≡ some k → p ≡ crc32 k 0 % count)
      × (s' : Partitioner) × (Partitioner.partition_for s key count ≡ (ok p, s'))
unfolding Partitioner.partition_for
partition_for-cases s none count h = (
  s.next % count,
  omega arith,
  λ k no. absurd (cc),
  record s { next = s.next + 1 },
  if_false _ _ (ltb-false count 1 h),
)
partition_for-cases s (some k) count h = (
  crc32 k 0 % count,
  omega arith,
  λ k' same. ap (λ (o : Option Bytes). crc32 (elim o [ none ↦ k | some b ↦ b ]) 0 % count) same,
  s,
  keyed s k count h,
)

-- A connection that knows the routing of a topic, which gives each of its partitions an address.
pub record Knows (c : Connection) (topic : Str) (known : Routing) (address : ℕ → Str) : Type 0 where
  pub cached : lookup eq_str c.routings topic ≡ some known
  pub some_partition : 1 ≤ length known
  pub addressed : (p : ℕ) → p < length known → lookup eq_number known p ≡ some (address p)

module _ {W : Type 0} (net : Network W) (topic : Str) (known : Routing) (address : ℕ → Str) where
  partition_for-known :
      (key : Option Bytes) (c : Connection) (w : W) (p : ℕ) (s : Partitioner)
      → lookup eq_str c.routings topic ≡ some known
      → Partitioner.partition_for c.partitioner key (length known) ≡ (ok p, s)
      → partition_for net topic key (c, w) ≡ (returned p, (record c { partitioner = s }, w))
  unfolding partition_for choose
  partition_for-known key c w p s hit chosen =
      ap (λ (x : Outcome Routing × (Connection × W)). and_then x (λ q. choose key (length q)))
        (routing_hit net topic known c w hit)
      ∙ ap (λ (x : Result ℕ × Partitioner). python x.0 (record c { partitioner = x.1 }, w)) chosen

  -- The grouping of records ends without a call of a broker, and what it adds for an address are the
  -- records of each key that are due there.
  group_from :
      (pairs : List (Option Bytes × Option Bytes)) (groups : Groups) (c : Connection) (w : W)
      → Knows c topic known address
      → (groups' : Groups) × (c' : Connection) × (group net topic known pairs groups (c, w)
          ≡ (returned groups', (c', w)))
        × ((k : Bytes) (a : Str)
            → requests_with k (sent_to a groups')
              ≡ requests_with k (sent_to a groups) ++ due topic address (length known) k a pairs)
  unfolding group address_in
  group_from [] groups c w h = (
    groups,
    c,
    refl,
    λ k a. sym (
        ap (λ l. requests_with k (sent_to a groups) ++ l) (due-nil topic address (length known) k a)
        ∙ append-nil _),
  )
  group_from (pair ∷ pairs) groups c w h =
      let (p, below, by_key, s, chosen) =
        partition_for-cases c.partitioner pair.0 (length known) h.some_partition in
      let c' : Connection = record c { partitioner = s } in
      let q = request_for (pair_for topic pair) p in
      let added = add_request groups (address p) q in
      let (groups', c'', runs, adds) = group_from pairs added c' w (record {
        cached = h.cached;
        some_partition = h.some_partition;
        addressed = h.addressed;
      }) in
      let goes_on : ℕ → Method W Groups = λ p s. and_then (python (address_in known p) s) (λ a.
        group net topic known pairs (add_request groups a (request_for (pair_for topic pair) p))) in
      (
        groups',
        c'',
        ap (λ (x : Outcome ℕ × (Connection × W)). and_then x goes_on)
              (partition_for-known pair.0 c w p s h.cached chosen)
            ∙ ap
                (λ a.
                  and_then (python (found a) (c', w))
                    (λ a. group net topic known pairs (add_request groups a q)))
                (h.addressed p below)
            ∙ runs,
        λ k a.
            adds k a
            ∙ ap (λ l. l ++ due topic address (length known) k a pairs)
                (requests_with-add_request topic address (length known) k a pair p groups by_key)
            ∙ append_assoc (requests_with k (sent_to a groups)) _ _
            ∙ ap (λ l. requests_with k (sent_to a groups) ++ l)
                (sym (due-cons topic address (length known) k a pair pairs)),
      )

  -- Where the routing of a topic is known, grouping a batch ends without a call of a broker, and of
  -- each key an address is sent the records in the order of the batch, each once, for the key's
  -- partition, if it is the address of that partition, and nothing otherwise.
  pub group-due :
      (pairs : List (Option Bytes × Option Bytes)) (c : Connection) (w : W)
      → Knows c topic known address
      → (groups : Groups) × (c' : Connection) × (group net topic known pairs [] (c, w)
          ≡ (returned groups, (c', w)))
        × ((k : Bytes) (a : Str)
            → requests_with k (sent_to a groups) ≡ due topic address (length known) k a pairs)
  unfolding lookup
  group-due pairs c w h = group_from pairs [] c w h
