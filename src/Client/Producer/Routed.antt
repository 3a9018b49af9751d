-- ===== src/Client/Producer/Routed.antt =====
-- The first round of `send`, against the routing of the broker that it asks.
use pyka.Common.{
  ℕ, ◌<◌, ◌≤◌, ◌≡◌, ◌%◌, sym, ap, ◌∙◌, List, [], ◌∷◌, false, Option, none, some, Result, ok,
  ltb-false, if_false, length, arith,
}
use pyka.Python.Dict.{lookup, store, lookup-store}
use pyka.Python.Struct.{Bytes}
use pyka.Python.Text.{Str}
use pyka.Python.Zlib.{crc32}
use pyka.Cluster.Ring.{range}
use pyka.Cluster.Ring.Owner.{IsRouting}
use pyka.Topic.Name.{validate_name}
use pyka.Topic.Partitioner.{Partitioner}
use pyka.Topic.Partitioner
use pyka.Topic.Topics.{OpenTopic, eq_str, eq_number, existing}
use pyka.Topic.Topics.Creation.{existing_hit, eq_str_refl}
use pyka.Topic.Topics.Writing.{route}
use pyka.Broker.Messages.{ProduceResponse, MetadataResponse}
use pyka.Broker.Store.{Store}
use pyka.Broker.Handler.{metadata}
use pyka.Client.Network.{Network, Answer, answered, answer_of}
use pyka.Client.Connection.{
  Connection, Routing, Method, Outcome, returned, and_then, python, stub, calling, routing_in,
  take_answer, fetch_from, fetch_routing, remember, cached_or, routing, choose, partition_for,
}
use pyka.Client.Connection.Agreement.{
  entries, owner_address, metadata_open, routing_in-open, lookup-entries, length-entries,
}
use pyka.Client.Producer.{Sending, request_for, found, address_in, attempt}

-- A record with a key goes to one partition, whatever the state.
pub keyed :
    (s : Partitioner) (k : Bytes) (count : ℕ)
    → 1 ≤ count
    → Partitioner.partition_for s (some k) count ≡ (ok (crc32 k 0 % count), s)
unfolding Partitioner.partition_for
keyed s k count h = if_false _ _ (ltb-false count 1 h)

module _ {W : Type 0} (net : Network W) where
  pub routing_hit :
      (topic : Str) (r : Routing) (c : Connection) (w : W)
      → lookup eq_str c.routings topic ≡ some r
      → routing net topic false (c, w) ≡ (returned r, (c, w))
  unfolding routing
  routing_hit topic r c w hit =
      ap
        (λ found.
          cached_or (λ s. and_then (fetch_routing net topic s) (remember topic)) false found (c, w))
        hit

  -- The connection after the first broker of the list has given a routing.
  abbrev informed : Str → Routing → Str → Connection → Connection
  informed topic r first c = record c {
    channels = stub first c.channels;
    routings = store eq_str c.routings topic r;
  }

  routing_fetched :
      (topic first : Str) (more : List Str) (response : MetadataResponse) (r : Routing)
      (c : Connection) (w : W)
      → lookup eq_str c.routings topic ≡ none
      → c.bootstrap ≡ first ∷ more
      → (net.metadata first (topic ∷ []) w).0 ≡ answered response
      → routing_in response.topics ≡ ok r
      → routing net topic false (c, w)
        ≡ (returned r, (informed topic r first c, (net.metadata first (topic ∷ []) w).1))
  unfolding routing fetch_routing fetch_from informed
  routing_fetched topic first more response r c w miss boot answer parsed =
      let s : Connection × W =
        (record c { channels = stub first c.channels }, (net.metadata first (topic ∷ []) w).1) in
      ap
        (λ found.
          cached_or (λ s. and_then (fetch_routing net topic s) (remember topic)) false found (c, w))
        miss
      ∙ ap (λ addresses. and_then (fetch_from net topic addresses (c, w)) (remember topic)) boot
      ∙ ap (λ a. and_then (take_answer (fetch_from net topic more) a s) (remember topic)) answer
      ∙ ap (λ x. and_then (python x s) (remember topic)) parsed

  choose_keyed :
      (key : Option Bytes) (k : Bytes) (count : ℕ) (c : Connection) (w : W)
      → key ≡ some k
      → 1 ≤ count
      → choose key count (c, w) ≡ (returned (crc32 k 0 % count), (c, w))
  unfolding choose
  choose_keyed key k count c w is_key some_partition =
      ap (λ (x : Result ℕ × Partitioner). python x.0 (record c { partitioner = x.1 }, w))
        (ap (λ key. Partitioner.partition_for c.partitioner key count) is_key
          ∙ keyed c.partitioner k count some_partition)

  -- Where the routing is known, or is read now, a record with a key is sent to its partition's address.
  attempt_known :
      (r : Sending) (k : Bytes) (known : Routing) (address : Str) (c c' : Connection) (w w' : W)
      → r.key ≡ some k
      → 1 ≤ length known
      → routing net r.topic false (c, w) ≡ (returned known, (c', w'))
      → lookup eq_str c'.routings r.topic ≡ some known
      → lookup eq_number known (crc32 k 0 % length known) ≡ some address
      → (attempt net r (c, w)).0
        ≡ returned (net.produce address (request_for r (crc32 k 0 % length known)) w').0
  unfolding attempt partition_for address_in
  attempt_known r k known address c c' w w' is_key some_partition reads hit goes =
      let to : ℕ → Str → Method W (Answer ProduceResponse) =
        λ p address. calling address (net.produce address (request_for r p)) in
      let by : ℕ → Routing → Method W (Answer ProduceResponse) =
        λ p known s. and_then (python (address_in known p) s) (to p) in
      let sent : ℕ → Method W (Answer ProduceResponse) =
        λ p s. and_then (routing net r.topic false s) (by p) in
      ap
        (λ (x : Outcome Routing × (Connection × W)).
          (and_then (and_then x (λ q. choose r.key (length q))) sent).0)
        reads
      ∙ ap (λ (x : Outcome ℕ × (Connection × W)). (and_then x sent).0)
          (choose_keyed r.key k (length known) c' w' is_key some_partition)
      ∙ ap
          (λ (x : Outcome Routing × (Connection × W)).
            (and_then x (by (crc32 k 0 % length known))).0)
          (routing_hit r.topic known c' w' hit)
      ∙ ap (λ a. (and_then (python (found a) (c', w')) (to (crc32 k 0 % length known))).0) goes

-- The partition that the broker chooses for the same key.
route_keyed :
    (s : Store) (o : OpenTopic) (name : Str) (k : Bytes) (now : ℕ)
    → validate_name name ≡ ok tt
    → lookup eq_str s.topics.opened name ≡ some o
    → 1 ≤ o.partitions
    → (route s.topics name (some k) now).0 ≡ ok (crc32 k 0 % o.partitions)
unfolding route
route_keyed s o name k now valid opened some_partition =
    rw (existing_hit s.topics name now o valid opened, route)
      (ap (λ x. x.0)
        (keyed (existing s.topics name now).1.partitioner k o.partitions some_partition))

-- A client that has not yet read the routing of a topic, and whose first broker has it open, sends a
-- record with a key to the address of the broker that the ring names as the owner of the record's
-- partition, and asks for that partition; it is the one which the broker itself chooses for the key.
-- The ring names a broker of the cluster for every partition, and the topic has one or more.
pub attempt-route :
    {W : Type 0} (net : Network W) (s : Store) (ring : IsRouting s.ring.brokers s.broker_for)
    (o : OpenTopic) (r : Sending) (k : Bytes) (first : Str) (more listed : List Str) (now : ℕ)
    (c : Connection) (w : W)
    → r.key ≡ some k
    → validate_name r.topic ≡ ok tt
    → lookup eq_str s.topics.opened r.topic ≡ some o
    → 1 ≤ o.partitions
    → lookup eq_str c.routings r.topic ≡ none
    → c.bootstrap ≡ first ∷ more
    → (net.metadata first (r.topic ∷ []) w).0 ≡ answer_of (metadata s (r.topic ∷ []) listed now).0
    → (p : ℕ) × ((route s.topics r.topic (some k) now).0 ≡ ok p)
      × ((attempt net r (c, w)).0
          ≡ returned
              (net.produce
                (owner_address s ring r.topic p)
                (request_for r p)
                (net.metadata first (r.topic ∷ []) w).1).0)
attempt-route net s ring o r k first more listed now c w is_key valid opened some_partition miss
      boot answer =
    let known = entries (owner_address s ring r.topic) (range 0 o.partitions) in
    let count : length known ≡ o.partitions =
      length-entries (owner_address s ring r.topic) 0 o.partitions in
    let p = crc32 k 0 % length known in
    let below : p < length known = omega (arith, count, some_partition) in
    (
      p,
      route_keyed s o r.topic k now valid opened some_partition
          ∙ ap (λ n. ok (crc32 k 0 % n)) (sym count),
      attempt_known net r k known (owner_address s ring r.topic p) c
          (informed net r.topic known first c) w (net.metadata first (r.topic ∷ []) w).1 is_key
          (omega (arith, count, some_partition))
          (routing_fetched net r.topic first more _ known c w miss boot
            (answer ∙ ap answer_of (metadata_open s ring r.topic o listed now valid opened))
            (routing_in-open s ring r.topic o.partitions))
          (lookup-store eq_str c.routings r.topic known (eq_str_refl r.topic))
          (lookup-entries (owner_address s ring r.topic) 0 o.partitions p (omega arith)
            (omega (arith, below, count))),
    )
