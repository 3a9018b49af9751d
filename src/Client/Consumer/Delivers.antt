-- ===== src/Client/Consumer/Delivers.antt =====
-- A consumer and the broker that it reads from.
use pyka.Common.{
  ℕ, ◌*◌, ◌<◌, ◌≡◌, refl, ap, ◌∙◌, List, [], ◌∷◌, map, false, some, length, ltb, if_false,
}
use pyka.Common.Int.{ℤ, pos, ◌≤ℤ◌}
use pyka.Python.Dict.{lookup}
use pyka.Python.Text.{Str}
use pyka.Storage.Record
use pyka.Storage.Segment.Runs.{wanted}
use pyka.Topic.Topics.{eq_str, eq_number}
use pyka.Broker.Messages.{Message}
use pyka.Broker.Store.{Store}
use pyka.Broker.Handler.Consume.{to_proto, remaining_of, Consumption, finished}
use pyka.Broker.Handler.Consume
use pyka.Broker.Handler.Portions.{portion}
use pyka.Broker.Handler.Draining.{Serves, KeepServing, consume_delivers}
use pyka.Client.Network.{Network, Replies, replies_of, broken_by}
use pyka.Client.Connection.{
  Connection, Routing, Method, Outcome, returned, and_then, routing, python, calling,
}
use pyka.Client.Producer.{address_in, found}
use pyka.Client.Producer.Routed.{routing_hit}
use pyka.Client.Consumer.{
  Record, Reading, record_of, request_for, open_stream, consume, yield_from, end_of, wait_first,
}

-- A record of a log as a consumer is to see it.
abbrev pub seen : Str → ℕ → Record.Record → Record
seen topic partition r = record {
  topic = topic;
  partition = partition;
  offset = r.offset;
  timestamp = r.timestamp;
  key = r.key;
  value = r.value;
}

map-seen :
    (topic : Str) (partition : ℕ) (rs : List Record.Record)
    → map (record_of topic partition) (map to_proto rs) ≡ map (seen topic partition) rs
map-seen topic partition [] = refl
map-seen topic partition (r ∷ rs) =
    ap (λ l. seen topic partition r ∷ l) (map-seen topic partition rs)

module _ {W : Type 0} (net : Network W) (r : Reading) (known : Routing) (address : Str) where
  wait_first-none :
      (rounds : ℕ) (s : Connection × W)
      → r.wait_for_topic ≡ 0
      → wait_first net r rounds s ≡ (returned tt, s)
  unfolding wait_first
  wait_first-none rounds s at_once = if_false _ _ (ap (ltb 0) at_once)

  -- Where the routing is cached, the call goes to the partition's address.
  open_stream_cached :
      (rounds : ℕ) (c : Connection) (w : W)
      → r.wait_for_topic ≡ 0
      → lookup eq_str c.routings r.topic ≡ some known
      → lookup eq_number known r.partition ≡ some address
      → open_stream net r rounds (c, w)
        ≡ calling address (net.consume address (request_for r)) (c, w)
  unfolding open_stream address_in
  open_stream_cached rounds c w at_once hit goes =
      let to : Str → Method W (Replies Message) =
        λ address. calling address (net.consume address (request_for r)) in
      let by : Routing → Method W (Replies Message) =
        λ known s. and_then (python (address_in known r.partition) s) to in
      ap
        (λ (x : Outcome (Unit {0}) × (Connection × W)).
          and_then x (λ _ s. and_then (routing net r.topic false s) by))
        (wait_first-none rounds (c, w) at_once)
      ∙ ap (λ (x : Outcome Routing × (Connection × W)). and_then x by)
          (routing_hit net r.topic known c w hit)
      ∙ ap (λ a. and_then (python (found a) (c, w)) to) goes

  -- A consumer that knows the address of its partition, and does not follow, yields the records that
  -- the partition holds from the offset on, in order, each once, or as many of them as its limit, and
  -- ends without an exception. The broker at that address has the partition open and answers as
  -- `Consume` does; the offset is not before the partition's first, the other connections leave the
  -- partition's records as they are, and there was one more round than the batches take.
  pub consume_served :
      (s : Store) (others : List (Store → Store)) (base : ℤ) (rs : List Record.Record)
      (now rounds : ℕ) (c : Connection) (w : W)
      → r.follow ≡ false
      → r.wait_for_topic ≡ 0
      → lookup eq_str c.routings r.topic ≡ some known
      → lookup eq_number known r.partition ≡ some address
      → (net.consume address (request_for r) w).0
        ≡ replies_of (Consume.consume others s (request_for r) now)
      → KeepServing r.topic (pos r.partition) base rs others
      → Serves s r.topic (pos r.partition) base rs
      → base ≤ℤ r.offset
      → length (wanted r.offset rs) < 500 * length others
      → ((consume net r rounds (c, w)).0
          ≡ map
              (seen r.topic r.partition)
              (portion (remaining_of (request_for r)) (wanted r.offset rs)))
        × ((consume net r rounds (c, w)).1.0 ≡ returned tt)
  unfolding consume request_for end_of
  consume_served s others base rs now rounds c w still at_once hit goes answer keep serves reached
        enough =
      let (ended, sent) =
        consume_delivers others s (request_for r) base rs now still keep serves reached enough in
      let opened = open_stream_cached rounds c w at_once hit goes in
      (
        ap (λ x. (yield_from net r x).0) opened
            ∙ ap (λ (q : Replies Message). map (record_of r.topic r.partition) q.yielded) answer
            ∙ ap (λ l. map (record_of r.topic r.partition) (map to_proto l)) sent
            ∙ map-seen r.topic r.partition _,
        ap (λ x. (yield_from net r x).1.0) opened
            ∙ ap
                (λ (q : Replies Message).
                  (end_of net r.topic q.broken
                    (calling address (net.consume address (request_for r)) (c, w)).1).0)
                answer
            ∙ ap
                (λ e.
                  (end_of net r.topic (broken_by e)
                    (calling address (net.consume address (request_for r)) (c, w)).1).0)
                ended,
      )
