-- ===== src/Broker/HandlerTests.antt =====
-- A broker of two, with one record in partition 0 of a topic, and the calls of its clients.
use pyka.Common.{
  ◌%◌, ◌≡◌, refl, [], ◌∷◌, true, false, Option, none, some, arith, zero, suc, false-ne-true, ◌==◌,
}
use pyka.Common.Int.{ℤ, pos}
use pyka.Python.Text.{Str, ordinal, format}
use pyka.Cluster.Ring.{Ring}
use pyka.Cluster.Ring
use pyka.Storage.ChainTests.{one_log, one_log-Holds, first}
use pyka.Topic.Policy.{sync_never}
use pyka.Topic.Name.{validate_name}
use pyka.Topic.Topics.{OpenTopic, Partition, check_partition}
use pyka.Python.Dict.{lookup}
use pyka.Broker.Tail.{new_tail}
use pyka.Broker.Messages.{ProduceRequest, ConsumeRequest}
use pyka.Broker.Store.{Store, owner_test}
use pyka.Broker.Store
use pyka.Broker.Handler.{moved, not_found, aborted, produce, metadata}
use pyka.Broker.Handler.Consume.{consume, read_batch, stopped}
use pyka.Broker.Handler.Redirecting.{produce-to_owner, point_to_owner-other}
use pyka.Topic.Topics.Completeness.{HasOwned, IsComplete}
use pyka.Broker.Handler.{point_to_owner}
use pyka.Topic.Topics.Routing.{IsOwned}
use pyka.Cluster.Ring.Owner.{IsRouting}
use pyka.Broker.Handler.Draining.{Serves, Delivered, consume_delivers}

abbrev pub orders : Str
orders = 0x6f ∷ 0x72 ∷ []

abbrev pub two : Ring
two = record { brokers = 2; me = 0; address_template = ordinal ∷ [] }

abbrev entry : Partition
entry = record { log = one_log; appends = 1; synced_at = 0 }

abbrev pub topic : OpenTopic
topic = record { partitions = 2; local = (0, entry) ∷ [] }

abbrev pub broker : Store
broker = record {
  ring = two;
  broker_for = Ring.broker_for two;
  topics = record {
    default_partitions = 2;
    sync_policy = sync_never;
    max_segment_bytes = 1000;
    owns = owner_test (Ring.broker_for two) 0;
    partitioner = record { next = 0 };
    opened = (orders, topic) ∷ [];
    metas = (orders, 2) ∷ [];
    files = λ name p. [];
  };
  tail = new_tail;
  ready = true;
  allow_orphans = false;
  orphans = [];
}

abbrev reading : ℤ → ConsumeRequest
reading partition = record {
  topic = orders;
  partition = partition;
  offset = pos 0;
  follow = false;
  max_records = 0;
}

pub broker-Serves : Serves broker orders (pos 0) (pos 0) (first ∷ [])
unfolding validate_name lookup check_partition
broker-Serves = record {
  valid = refl;
  topic = topic;
  opened = refl;
  number = 0;
  entry = entry;
  checked = refl;
  parts = [];
  last = first ∷ [];
  holds = one_log-Holds;
  all = refl;
}

-- Another connection makes the broker stop being ready in between.
consume_delivers_example :
    Delivered
      (consume ((λ s. record s { ready = false }) ∷ []) broker (reading (pos 0)) 0)
      (first ∷ [])
consume_delivers_example =
    consume_delivers ((λ s. record s { ready = false }) ∷ []) broker (reading (pos 0)) (pos 0)
      (first ∷ []) 0 refl
      (
        (λ s h. record {
          valid = h.valid;
          topic = h.topic;
          opened = h.opened;
          number = h.number;
          entry = h.entry;
          checked = h.checked;
          parts = h.parts;
          last = h.last;
          holds = h.holds;
          all = h.all;
        }),
        tt,
      )
      broker-Serves (omega arith) (omega arith)

-- Partition 1 is the other broker's.
other_broker :
    (consume ((λ s. s) ∷ []) broker (reading (pos 1)) 0).ending
    ≡ stopped (moved (pos 1) 1 (0x31 ∷ []))
unfolding consume Store.read Ring.broker_for
other_broker = refl

no_such_topic : (metadata broker ((0x61 ∷ []) ∷ []) [] 0).0 ≡ aborted not_found
unfolding metadata
no_such_topic = refl

abbrev keyless : Option ℤ → ProduceRequest
keyless partition = record {
  topic = orders;
  key = none;
  value = some [];
  timestamp = some (pos 7);
  partition = partition;
  correlation_id = none;
}

-- The second record without a key is refused here, and the redirect asks the partitioner a third
-- time: the answer is this broker itself.
abbrev after_one : Store
after_one = record broker { topics = record (broker.topics) { partitioner = record { next = 1 } } }

sent_to_itself :
    (produce after_one (keyless none) (pos 0) 0).0 ≡ aborted (moved (pos 0) 0 (0x30 ∷ []))
unfolding produce Ring.broker_for
sent_to_itself = refl

broker-IsOwned : IsOwned (owner_test (Ring.broker_for two) 0) (broker.topics)
unfolding Ring.broker_for
broker-IsOwned = record { same = refl; local = (((refl, omega arith), tt), tt) }

abbrev ring : IsRouting 2 (Ring.broker_for two)
unfolding Ring.broker_for
ring name p = (p % 2, refl, omega arith)

produce-to_owner_example :
    (produce broker (keyless (some (pos 1))) (pos 0) 0
      ≡ (aborted (moved (pos 1) 1 (0x31 ∷ [])), broker))
    × (read_batch broker (reading (pos 1)) (pos 0) 500 0
        ≡ (aborted (moved (pos 1) 1 (0x31 ∷ [])), broker))
unfolding Ring.broker_for validate_name lookup ring format
produce-to_owner_example =
    produce-to_owner broker ring topic 1 (keyless (some (pos 1))) (reading (pos 1)) (pos 0) (pos 0)
      500 0 broker-IsOwned refl refl (omega arith) refl refl refl refl

broker-IsComplete : IsComplete (owner_test (Ring.broker_for two) 0) (broker.topics)
unfolding Ring.broker_for lookup
broker-IsComplete = record { same = refl; local = (has_owned, tt) }
  where
    has_owned : HasOwned (owner_test (Ring.broker_for two) 0) orders topic
    has_owned zero below mine = (entry, refl)
    has_owned (suc zero) below mine = absurd (false-ne-true mine)
    has_owned (suc (suc p)) below mine = absurd (omega arith)

point_to_owner-other_example :
    (point_to_owner broker orders (pos 1) ≡ moved (pos 1) 1 (0x31 ∷ [])) × ((1 == 0) ≡ false)
unfolding Ring.broker_for lookup check_partition ring format
point_to_owner-other_example =
    point_to_owner-other broker ring orders topic 1 broker-IsComplete refl (omega arith) refl
