-- ===== src/Client/Producer/Fresh.antt =====
-- Sending to a topic that no broker has yet.
use pyka.Common.{
  ℕ, suc, ◌≡◌, refl, ap, ◌∙◌, List, [], ◌∷◌, true, false, Option, none, Result, ok, err,
  unknown_topic, ◌>>=◌,
}
use pyka.Python.Dict.{lookup}
use pyka.Python.Text.{Str}
use pyka.Topic.Name.{validate_name}
use pyka.Topic.Topics.{Topics, OpenTopic, eq_str, existing, partitions_of}
use pyka.Broker.Messages.{TopicMetadata, MetadataResponse}
use pyka.Broker.Store.{Store}
use pyka.Broker.Handler.{
  Reply, done, aborted, metadata, describe_topics, describe_topic, counted, followed_by,
  response_of,
}
use pyka.Broker.Handler
use pyka.Client.Network.{Network, Answer, answer_of, Status, failed}
use pyka.Client.Network
use pyka.Client.Connection.{
  Connection, Routing, Method, Outcome, raises, Failure, and_then, stub, take_answer, fetch_from,
  fetch_routing, remember, cached_or, routing, choose, partition_for,
}
use pyka.Client.Connection
use pyka.Client.Producer.{Producer, Sending, attempt, send_loop, send}

existing_missing :
    (t : Topics) (name : Str) (now : ℕ)
    → validate_name name ≡ ok tt
    → lookup eq_str t.opened name ≡ none
    → lookup eq_str t.metas name ≡ none
    → existing t name now ≡ (err unknown_topic, t)
unfolding existing
existing_missing t name now valid closed missing =
    rw (valid, existing) (rw (closed, existing) (rw (missing, existing) refl))

metadata_missing :
    (s : Store) (name : Str) (listed : List Str) (now : ℕ)
    → validate_name name ≡ ok tt
    → lookup eq_str s.topics.opened name ≡ none
    → lookup eq_str s.topics.metas name ≡ none
    → metadata s (name ∷ []) listed now ≡ (aborted Handler.not_found, s)
unfolding metadata describe_topics describe_topic counted partitions_of
metadata_missing s name listed now valid closed missing =
    ap
      (λ (x : Result OpenTopic × Topics).
        let s' : Store = record s { topics = x.1 } in
        let count : Result ℕ = x.0 >>= λ o. ok o.partitions in
        let first : Reply (Option TopicMetadata) × Store = (counted true s' name count, s') in
        response_of (followed_by first (done [], s')))
      (existing_missing s.topics name now valid closed missing)

module _ {W A B : Type 0} where
  -- An exception of the first part is one of the whole.
  raises-first :
      (x : Outcome A × (Connection × W)) (rest : A → Method W B) (e : Failure) (s : Connection × W)
      → x ≡ (raises e, s)
      → and_then x rest ≡ (raises e, s)
  raises-first x rest e s h = ap (λ x. and_then x rest) h

routing_unknown :
    {W : Type 0} (net : Network W) (topic first : Str) (more : List Str) (c : Connection) (w : W)
    → lookup eq_str c.routings topic ≡ none
    → c.bootstrap ≡ first ∷ more
    → (net.metadata first (topic ∷ []) w).0 ≡ failed Network.not_found
    → routing net topic false (c, w) ≡ (
      raises Connection.unknown_topic,
      (record c { channels = stub first c.channels }, (net.metadata first (topic ∷ []) w).1),
    )
unfolding routing fetch_routing fetch_from
routing_unknown {W = W} net topic first more c w miss boot answer =
    let s : Connection × W =
      (record c { channels = stub first c.channels }, (net.metadata first (topic ∷ []) w).1) in
    ap
      (λ found.
        cached_or (λ s. and_then (fetch_routing net topic s) (remember topic)) false found (c, w))
      miss
    ∙ ap (λ addresses. and_then (fetch_from net topic addresses (c, w)) (remember topic)) boot
    ∙ ap (λ a. and_then (take_answer (fetch_from net topic more) a s) (remember topic)) answer

-- Where the first broker of the client has no such topic, `send` raises UnknownTopic after the one
-- question for its metadata: no broker is sent the record, and the broker that was asked does not
-- create the topic, its store is as it was. `store_of` is that broker's store in the world; the
-- network answers the question as `Metadata` does, and leaves in the store what `Metadata` leaves.
pub send_fresh :
    {W : Type 0} (net : Network W) (store_of : W → Store) (p : Producer) (r : Sending) (rounds : ℕ)
    (first : Str) (more listed : List Str) (now : ℕ) (c : Connection) (w : W)
    → validate_name r.topic ≡ ok tt
    → lookup eq_str (store_of w).topics.opened r.topic ≡ none
    → lookup eq_str (store_of w).topics.metas r.topic ≡ none
    → lookup eq_str c.routings r.topic ≡ none
    → c.bootstrap ≡ first ∷ more
    → (let (reply, s) = metadata (store_of w) (r.topic ∷ []) listed now in
        let (answer, w') = net.metadata first (r.topic ∷ []) w in
        (answer ≡ answer_of reply) × (store_of w' ≡ s))
    → let w' = (net.metadata first (r.topic ∷ []) w).1 in
      (send net p r (suc rounds) (c, w)
        ≡ (raises Connection.unknown_topic, (record c { channels = stub first c.channels }, w')))
      × (store_of w' ≡ store_of w)
unfolding send send_loop attempt partition_for
send_fresh net store_of p r rounds first more listed now c w valid closed missing miss boot served =
    let refused = metadata_missing (store_of w) r.topic listed now valid closed missing in
    let unknown =
      routing_unknown net r.topic first more c w miss boot
        (served.0 ∙ ap (λ (a : Reply MetadataResponse × Store). answer_of a.0) refused) in
    (
      raises-first _ _ _ _ (raises-first _ _ _ _ (raises-first _ _ _ _ unknown)),
      served.1 ∙ ap (λ (a : Reply MetadataResponse × Store). a.1) refused,
    )
