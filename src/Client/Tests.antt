-- ===== src/Client/Tests.antt =====
-- A client of the cluster of Broker/HandlerTests: two brokers, of which the second is down.
use pyka.Common.{
  ℕ, zero, suc, ◌+◌, ◌<◌, ◌≡◌, refl, List, [], ◌∷◌, map, false, Option, none, some, ok,
  if◌then◌else◌, arith,
}
use pyka.Common.Int.{pos}
use pyka.Python.Dict.{lookup}
use pyka.Python.Struct.{Bytes}
use pyka.Python.Text.{Str}
use pyka.Python.Zlib.{crc32}
use pyka.Cluster.Ring
use pyka.Cluster.Ring.Owner.{IsRouting, broker_for-IsRouting}
use pyka.Topic.Topics.{eq_str, eq_number}
use pyka.Topic.Topics.Writing.{route}
use pyka.Topic.Name.{validate_name}
use pyka.Broker.Store.{Store}
use pyka.Broker.Handler
use pyka.Broker.Handler.Consume
use pyka.Broker.HandlerTests.{broker, broker-Serves, orders, topic, two}
use pyka.Client.Network.{Network, Answer, answer_of, failed, unavailable, replies_of}
use pyka.Client.Connection.{
  Connection, returned, raises, stub, Routing, delivery_failed, unknown_topic,
}
use pyka.Client.Connection.{await_topic}
use pyka.Client.Connection.Awaiting.{Awaited, await_topic-Awaited}
use pyka.Client.Connection.Steady.{IsSteady}
use pyka.Client.Connection.Agreement.{owner_address}
use pyka.Client.Producer.{Producer, Sending, Groups, request_for, send, attempt, group}
use pyka.Client.Producer.Routed.{attempt-route}
use pyka.Client.Producer.Due.{requests_with, sent_to, due}
use pyka.Client.Producer.Batches.{Knows, group-due}
use pyka.Client.Producer.Fresh.{send_fresh}
use pyka.Client.Consumer.{Reading, consume}
use pyka.Client.Consumer.Delivers.{seen, consume_served}
use pyka.Storage.ChainTests.{first}
use pyka.Storage.Segment.Runs.{wanted}
use pyka.Broker.Handler.Portions.{portion}

-- The store of the first broker, and the time.
abbrev World : Type 0
World = Store × ℕ

abbrev zeroth : Str
zeroth = 0x30 ∷ []

abbrev reached {ℓ} : {A : Type ℓ} → Str → Answer A → Answer A
reached address answer = if eq_str address zeroth then answer else failed unavailable

abbrev cluster : Network World
cluster = record {
  metadata = λ address topics w.
      let (reply, s) = Handler.metadata w.0 topics [] w.1 in
      (reached address (answer_of reply), ((if eq_str address zeroth then s else w.0), w.1 + 1));
  produce = λ address request w.
      let (reply, s) = Handler.produce w.0 request (pos w.1) w.1 in
      (reached address (answer_of reply), ((if eq_str address zeroth then s else w.0), w.1 + 1));
  produce_stream = λ address requests w. (
    record { yielded = (Handler.produce_stream w.0 requests (pos w.1) w.1).sent; broken = none },
    (w.0, w.1 + 1),
  );
  consume = λ address request w. (replies_of (Consume.consume ((λ s. s) ∷ []) w.0 request w.1), w);
  monotonic = λ w. w.1;
  sleep = λ d w. (w.0, w.1 + d);
}

cluster-IsSteady : IsSteady cluster
cluster-IsSteady = record {
  metadata = λ a topics w. omega arith;
  produce = λ a r w. omega arith;
  sleep = λ d w. omega arith;
}

abbrev fresh : Connection
fresh = record {
  bootstrap = zeroth ∷ [];
  channels = [];
  routings = [];
  partitioner = record { next = 0 };
}

abbrev patient : Producer
patient = record { delivery_timeout = 1000; retry_backoff = 250 }

abbrev sending : Str → Bytes → Sending
sending topic key = record { topic = topic; value = some []; key = some key; timestamp = none }

-- This key's partition belongs to the broker that is down.
given_up :
    (send cluster patient (sending orders (0x62 ∷ [])) 5 (fresh, (broker, 5))).0
    ≡ raises (delivery_failed ((orders, (some (0x62 ∷ []), some [])) ∷ []))
unfolding send Ring.broker_for Handler.metadata crc32
given_up = refl

abbrev ring : IsRouting 2 (Ring.broker_for two)
ring = broker_for-IsRouting two (omega arith)

attempt-route_example :
    (p : ℕ) × ((route broker.topics orders (some (0x64 ∷ [])) 5).0 ≡ ok p)
    × ((attempt cluster (sending orders (0x64 ∷ [])) (fresh, (broker, 5))).0
        ≡ returned
            (cluster.produce
              (owner_address broker ring orders p)
              (request_for (sending orders (0x64 ∷ [])) p)
              (cluster.metadata zeroth (orders ∷ []) (broker, 5)).1).0)
unfolding lookup validate_name
attempt-route_example =
    attempt-route cluster broker ring topic (sending orders (0x64 ∷ [])) (0x64 ∷ []) zeroth [] [] 5
      fresh (broker, 5) refl refl refl (omega arith) refl refl refl

abbrev others : Str
others = 0x61 ∷ []

send_fresh_example :
    let w' = (cluster.metadata zeroth (others ∷ []) (broker, 5)).1 in
    (send cluster patient (sending others (0x64 ∷ [])) 5 (fresh, (broker, 5))
      ≡ (raises unknown_topic, (record fresh { channels = stub zeroth [] }, w')))
    × (w'.0 ≡ broker)
unfolding lookup validate_name
send_fresh_example =
    send_fresh cluster (λ w. w.0) patient (sending others (0x64 ∷ [])) 4 zeroth [] [] 5 fresh
      (broker, 5) refl refl refl refl refl (refl, refl)

abbrev known : Routing
known = (0, zeroth) ∷ (1, 0x31 ∷ []) ∷ []

abbrev informed : Connection
informed = record fresh { routings = (orders, known) ∷ [] }

abbrev to_address : ℕ → Str
to_address zero = zeroth
to_address (suc n) = 0x31 ∷ []

known_addresses : (p : ℕ) → p < 2 → lookup eq_number known p ≡ some (to_address p)
unfolding lookup
known_addresses zero h = refl
known_addresses (suc zero) h = refl
known_addresses (suc (suc p)) h = absurd (omega arith)

informed-Knows : Knows informed orders known to_address
unfolding lookup
informed-Knows = record { cached = refl; some_partition = omega arith; addressed = known_addresses }

abbrev batch : List (Option Bytes × Option Bytes)
batch =
    (some (0x64 ∷ []), some [])
    ∷ (none, none)
    ∷ (some (0x62 ∷ []), none)
    ∷ (some (0x64 ∷ []), none)
    ∷ []

group-due_example :
    (groups : Groups) × (c' : Connection) × (group cluster orders known batch []
        (informed, (broker, 5))
      ≡ (returned groups, (c', (broker, 5))))
    × ((k : Bytes) (a : Str)
        → requests_with k (sent_to a groups) ≡ due orders to_address 2 k a batch)
group-due_example =
    group-due cluster orders known to_address batch informed (broker, 5) informed-Knows

abbrev from_start : Reading
from_start = record {
  topic = orders;
  partition = 0;
  offset = pos 0;
  follow = false;
  limit = 0;
  wait_for_topic = 0;
}

consume_served_example :
    ((consume cluster from_start 0 (informed, (broker, 5))).0
      ≡ map (seen orders 0) (portion none (wanted (pos 0) (first ∷ []))))
    × ((consume cluster from_start 0 (informed, (broker, 5))).1.0 ≡ returned tt)
unfolding lookup pyka.Client.Consumer.request_for
consume_served_example =
    consume_served cluster from_start known zeroth broker ((λ s. s) ∷ []) (pos 0) (first ∷ []) 5 0
      informed (broker, 5) refl refl refl refl refl ((λ s h. h), tt) broker-Serves (omega arith)
      (omega arith)

-- No broker has this topic.
await_topic-Awaited_example :
    Awaited cluster 1005 (await_topic cluster others 1000 5 (fresh, (broker, 5)))
await_topic-Awaited_example =
    await_topic-Awaited cluster cluster-IsSteady others 1000 4 fresh (broker, 5) (omega arith)
