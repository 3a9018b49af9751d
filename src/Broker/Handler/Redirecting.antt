-- ===== src/Broker/Handler/Redirecting.antt =====
-- What a broker answers about a partition that is not its own.
use pyka.Common.{
  true, sym, Bool-cases, inl, inr, err-ne-ok, ℕ, ◌<◌, ◌≡◌, refl, ap, ◌∙◌, false, some, Result, ok,
  err, partition_not_local, ◌==◌, ◌>>=◌,
}
use pyka.Common.Int.{ℤ, pos}
use pyka.Python.Dict.{lookup, lookup-All}
use pyka.Python.Text.{Str, format}
use pyka.Storage.Segment.{Iteration}
use pyka.Cluster.Ring.{address_of}
use pyka.Cluster.Ring.Owner.{IsRouting, address_of-ok}
use pyka.Topic.Name.{validate_name}
use pyka.Topic.Topics.{Topics, OpenTopic, eq_str, check_partition}
use pyka.Topic.Topics.Creation.{existing_hit, eq_str-eq}
use pyka.Topic.Topics.Completeness.{HasOwned, IsComplete}
use pyka.Topic.Topics.Routing.{IsOwned}
use pyka.Topic.Topics.Locality.{
  check_partition_local, check_partition_foreign, lookup-IsOwned, append_foreign, read_from_foreign,
}
use pyka.Broker.Messages.{ProduceRequest, ConsumeRequest}
use pyka.Broker.Store.{Store, owner_test, announce, append, read, bounded}
use pyka.Broker.Store
use pyka.Broker.Handler.{
  Abort, moved, aborted, uncaught_abort, point_to_owner, redirect, refuse, append_reply,
  handle_append, response_to, produce,
}
use pyka.Broker.Handler.Consume.{refuse_read, read_reply, read_batch}

module _ (s : Store) (ring : IsRouting s.ring.brokers s.broker_for) (name : Str) (p : ℕ) where
  -- The redirect to the broker that the ring names.
  abbrev pub to_owner : Abort
  to_owner = moved (pos p) (ring name p).0 (format s.ring.address_template (ring name p).0)

  point_to_owner-ok : point_to_owner s name (pos p) ≡ to_owner
  unfolding point_to_owner
  point_to_owner-ok = ap uncaught_abort (
      ap
        (λ b. b >>= λ owner.
          address_of s.ring (pos owner) >>= λ address. ok (moved (pos p) owner address))
        (ring name p).1
      ∙ ap (λ a. a >>= λ address. ok (moved (pos p) (ring name p).0 address))
          (address_of-ok s.ring (ring name p).0 (ring name p).2))

  owner_test-other :
      ((ring name p).0 == s.ring.me) ≡ false → owner_test s.broker_for s.ring.me name p ≡ false
  owner_test-other other = rw ((ring name p).1, owner_test) other

  module _ (o : OpenTopic) (owned : IsOwned (owner_test s.broker_for s.ring.me) s.topics)
      (valid : validate_name name ≡ ok tt) (opened : lookup eq_str s.topics.opened name ≡ some o)
      (inside : p < o.partitions) (other : ((ring name p).0 == s.ring.me) ≡ false) where
    not_here : check_partition o (pos p) ≡ err partition_not_local
    not_here = check_partition_foreign o p inside (
        lookup-IsOwned (owner_test s.broker_for s.ring.me) s.topics name o p owned opened
          (owner_test-other other))

    append_elsewhere :
        (request : ProduceRequest) (now : ℤ) (monotonic : ℕ)
        → request.topic ≡ name
        → Store.append s name request.key request.value request.timestamp
            (some (pos p))
            now
            monotonic
          ≡ (err partition_not_local, s)
    unfolding Store.append
    append_elsewhere request now monotonic same =
        ap (λ (x : Result (ℕ × ℤ) × Topics). announce s name x.0 x.1)
          (append_foreign s.topics name o request.key request.value request.timestamp p now
            monotonic valid opened not_here)

  redirect_chosen :
      (request : ProduceRequest) (monotonic : ℕ)
      → request.topic ≡ name
      → request.partition ≡ some (pos p)
      → redirect s request monotonic ≡ (to_owner, s)
  unfolding redirect
  redirect_chosen request monotonic same_topic same_partition =
      rw (same_partition, redirect)
        (ap (λ a. (a, s)) (ap (λ t. point_to_owner s t (pos p)) same_topic ∙ point_to_owner-ok))

-- A record that the client has routed to a partition of another broker is refused with that broker
-- and its address, and so is a read of that partition; in both cases nothing of the store changes.
-- The topic is open, every open log belongs to this broker, and the ring names a broker of the
-- cluster for every partition.
pub produce-to_owner :
    (s : Store) (ring : IsRouting s.ring.brokers s.broker_for) (o : OpenTopic) (p : ℕ)
    (request : ProduceRequest) (reading : ConsumeRequest) (offset now : ℤ) (limit monotonic : ℕ)
    → IsOwned (owner_test s.broker_for s.ring.me) s.topics
    → validate_name request.topic ≡ ok tt
    → lookup eq_str s.topics.opened request.topic ≡ some o
    → p < o.partitions
    → ((ring request.topic p).0 == s.ring.me) ≡ false
    → request.partition ≡ some (pos p)
    → reading.topic ≡ request.topic
    → reading.partition ≡ pos p
    → (produce s request now monotonic ≡ (aborted (to_owner s ring request.topic p), s))
      × (read_batch s reading offset limit monotonic
          ≡ (aborted (to_owner s ring request.topic p), s))
unfolding produce handle_append append_reply refuse read_batch read_reply refuse_read Store.read
produce-to_owner s ring o p request reading offset now limit monotonic owned valid opened inside
      other chosen same_topic same_partition =
    let appended =
      ap
        (λ q.
          Store.append s request.topic request.key request.value request.timestamp q now monotonic)
        chosen
      ∙ append_elsewhere s ring request.topic p o owned valid opened inside other request now
          monotonic refl in
    let not_read =
      read_from_foreign s.topics request.topic o offset p monotonic
        (existing_hit s.topics request.topic monotonic o valid opened)
        (not_here s ring request.topic p o owned valid opened inside other) in
    let is_read : Store.read s reading.topic offset reading.partition limit monotonic
        ≡ (err partition_not_local, s) =
      ap (λ t. Store.read s t offset reading.partition limit monotonic) same_topic
      ∙ ap (λ q. Store.read s request.topic offset q limit monotonic) same_partition
      ∙ ap
          (λ (x : Result Iteration × Topics).
            (x.0 >>= λ i. bounded limit i, record s { topics = x.1 }))
          not_read in
    (
      ap
            (λ (x : Result (ℕ × ℤ) × Store).
              let y = append_reply x request monotonic in (response_to request y.0, y.1))
            appended
          ∙ ap (λ (y : Abort × Store). (response_to request (aborted y.0), y.1))
              (redirect_chosen s ring request.topic p request monotonic refl chosen),
      ap (λ x. read_reply x reading) is_read
          ∙ ap (λ a. (aborted a, s))
              (ap (λ t. point_to_owner s t reading.partition) same_topic
                ∙ ap (λ q. point_to_owner s request.topic q) same_partition
                ∙ point_to_owner-ok s ring request.topic p),
    )

owner_test-me :
    (s : Store) (ring : IsRouting s.ring.brokers s.broker_for) (name : Str) (p : ℕ)
    → ((ring name p).0 == s.ring.me) ≡ true
    → owner_test s.broker_for s.ring.me name p ≡ true
owner_test-me s ring name p mine = rw ((ring name p).1, owner_test) mine

-- Where every open topic has the logs of all partitions that belong to this broker, a partition that
-- is refused as not stored here is another broker's, and the redirect names that broker: a client
-- that has chosen the partition itself is never sent back to where it came from. The ring names a
-- broker of the cluster for every partition.
pub point_to_owner-other :
    (s : Store) (ring : IsRouting s.ring.brokers s.broker_for) (name : Str) (o : OpenTopic) (p : ℕ)
    → IsComplete (owner_test s.broker_for s.ring.me) s.topics
    → lookup eq_str s.topics.opened name ≡ some o
    → p < o.partitions
    → check_partition o (pos p) ≡ err partition_not_local
    → (point_to_owner s name (pos p) ≡ to_owner s ring name p)
      × (((ring name p).0 == s.ring.me) ≡ false)
point_to_owner-other s ring name o p h opened inside refused = (
  point_to_owner-ok s ring name p,
  elim (Bool-cases ((ring name p).0 == s.ring.me)) [
    | inr other ↦ other
    | inl mine ↦
        let (entry, here) =
          lookup-All eq_str eq_str-eq (HasOwned (owner_test s.broker_for s.ring.me)) s.topics.opened
            name o h.local opened p inside (owner_test-me s ring name p mine) in
        absurd (err-ne-ok (sym refused ∙ check_partition_local o p entry inside here))
  ],
)
