-- ===== src/Client/Connection/Agreement.antt =====
-- The routing that a client reads from a broker, against the ring of that broker.
use pyka.Common.{
  ℕ, zero, suc, ◌+◌, ◌<◌, ◌≤◌, ◌≡◌, refl, sym, ap, ◌∙◌, List, [], ◌∷◌, ◌++◌, map, true, Option,
  some, Result, ok, ◌==◌, if_true, if_false, Bool-cases, inl, inr, ==_iff, length, arith,
}
use pyka.Python.Dict.{lookup, store}
use pyka.Python.Text.{Str, format}
use pyka.Cluster.Ring.{range}
use pyka.Cluster.Ring.Owner.{IsRouting, address_of-ok}
use pyka.Topic.Name.{validate_name}
use pyka.Topic.Topics.{OpenTopic, Topics, eq_str, eq_number}
use pyka.Topic.Topics.Creation.{existing_hit, partitions_of_hit}
use pyka.Broker.Messages.{PartitionMetadata, TopicMetadata}
use pyka.Broker.Store.{Store}
use pyka.Broker.Handler.{
  Reply, done, describe_partitions, describe_topic, describe_topics, metadata, counted, followed_by,
  response_of,
}
use pyka.Client.Connection.{Routing, add_partitions, routing_in}

-- The entries of partitions that are numbered one after the other.
abbrev pub entries : (ℕ → Str) → List ℕ → Routing
entries address ps = map (λ p. (p, address p)) ps

module _ (address : ℕ → Str) where
  store-fresh :
      (start count p : ℕ)
      → start + count ≤ p
      → store eq_number (entries address (range start count)) p (address p)
        ≡ entries address (range start count) ++ ((p, address p) ∷ [])
  unfolding store
  store-fresh start zero p h = refl
  store-fresh start (suc count) p h =
      if_false {b = start == p} _ _ (ground (arith, h))
      ∙ ap (λ l. (start, address start) ∷ l) (store-fresh (start + 1) count p (omega arith))

  entries-snoc :
      (start count : ℕ)
      → entries address (range start count) ++ ((start + count, address (start + count)) ∷ [])
        ≡ entries address (range start (suc count))
  entries-snoc start zero = ap (λ p. (p, address p) ∷ []) (omega arith)
  entries-snoc start (suc count) =
      let next : start + 1 + count ≡ start + suc count = omega arith in
      ap (λ l. (start, address start) ∷ l)
        (ap (λ p. entries address (range (start + 1) count) ++ ((p, address p) ∷ [])) (sym next)
          ∙ entries-snoc (start + 1) count)

  pub lookup-entries :
      (start count p : ℕ)
      → start ≤ p
      → p < start + count
      → lookup eq_number (entries address (range start count)) p ≡ some (address p)
  unfolding lookup
  lookup-entries start zero p h k = absurd (omega arith)
  lookup-entries start (suc count) p h k = elim (Bool-cases (start == p)) [
    | inl same ↦ if_true _ _ same ∙ ap (λ q. some (address q)) ((==_iff start p).0 same)
    | inr other ↦
        if_false _ _ other ∙ lookup-entries (start + 1) count p (ground arith) (omega arith)
  ]

  pub length-entries : (start count : ℕ) → length (entries address (range start count)) ≡ count
  length-entries start zero = refl
  length-entries start (suc count) = ap suc (length-entries (start + 1) count)

  module _ (broker : ℕ → ℕ) where
    abbrev pub described : ℕ → PartitionMetadata
    described p = record { partition = p; broker = broker p; address = address p }

    add_partitions-range :
        (start count : ℕ)
        → add_partitions (entries address (range 0 start)) (map described (range start count))
          ≡ entries address (range 0 (start + count))
    unfolding add_partitions
    add_partitions-range start zero = ap (λ n. entries address (range 0 n)) (omega arith)
    add_partitions-range start (suc count) =
        let here : 0 + start ≡ start = omega arith in
        let stored =
          store-fresh 0 start start (omega arith)
          ∙ ap (λ p. entries address (range 0 start) ++ ((p, address p) ∷ [])) (sym here)
          ∙ entries-snoc 0 start in
        let one_more : suc start ≡ start + 1 = omega arith in
        let in_all : start + 1 + count ≡ start + suc count = omega arith in
        ap (λ r. add_partitions r (map described (range (start + 1) count))) stored
        ∙ ap
            (λ n.
              add_partitions (entries address (range 0 n))
                (map described (range (start + 1) count)))
            one_more
        ∙ add_partitions-range (start + 1) count
        ∙ ap (λ n. entries address (range 0 n)) in_all

module _ (s : Store) (ring : IsRouting s.ring.brokers s.broker_for) (name : Str) where
  abbrev pub owner : ℕ → ℕ
  owner p = (ring name p).0

  abbrev pub owner_address : ℕ → Str
  owner_address p = format s.ring.address_template (owner p)

  describe_partitions-ok :
      (ps : List ℕ) → describe_partitions s name ps ≡ ok (map (described owner_address owner) ps)
  unfolding describe_partitions
  describe_partitions-ok [] = refl
  describe_partitions-ok (p ∷ ps) =
      rw
        ((ring name p).1, address_of-ok s.ring (owner p) (ring name p).2, describe_partitions-ok ps)

  -- The answer of a broker that has the topic open.
  pub metadata_open :
      (o : OpenTopic) (listed : List Str) (now : ℕ)
      → validate_name name ≡ ok tt
      → lookup eq_str s.topics.opened name ≡ some o
      → (metadata s (name ∷ []) listed now).0
        ≡ done (record {
          topics =
              record {
                name = name;
                partitions = map (described owner_address owner) (range 0 o.partitions);
              }
              ∷ [];
          broker_count = s.ring.brokers;
          broker_id = s.ring.me;
        })
  unfolding metadata describe_topics describe_topic counted
  metadata_open o listed now valid opened =
      ap
        (λ (c : Result ℕ × Topics).
          let s' : Store = record s { topics = c.1 } in
          let first : Reply (Option TopicMetadata) × Store = (counted true s' name c.0, s') in
          (response_of (followed_by first (done [], s'))).0)
        (partitions_of_hit s.topics name o now (existing_hit s.topics name now o valid opened))
      ∙ rw (describe_partitions-ok (range 0 o.partitions))

  pub routing_in-open :
      (count : ℕ)
      → routing_in (
          record { name = name; partitions = map (described owner_address owner) (range 0 count) }
          ∷ [])
        ≡ ok (entries owner_address (range 0 count))
  unfolding routing_in
  routing_in-open count =
      let all : 0 + count ≡ count = omega arith in
      ap ok (
        add_partitions-range owner_address owner 0 count
        ∙ ap (λ n. entries owner_address (range 0 n)) all)
