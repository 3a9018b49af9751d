-- ===== src/Broker/Tests.antt =====
-- A broker that owns the partitions with an even number, and consumers of it.
use pyka.Common.{ℕ, ◌%◌, ◌==◌, ◌≡◌, refl, [], ◌∷◌, Bool, true, false, none, some, ok}
use pyka.Common.Int
use pyka.Common.Int.{pos}
use pyka.Python.File
use pyka.Python.Struct
use pyka.Python.Text.{Str, ordinal}
use pyka.Cluster.Ring.{Ring}
use pyka.Cluster.Ring
use pyka.Python.Zlib
use pyka.Storage.Index
use pyka.Storage.Log
use pyka.Storage.Record
use pyka.Storage.Segment
use pyka.Topic.Policy.{sync_never}
use pyka.Topic.Topics.{Topics}
use pyka.Broker.Store.{Store, append, open_store}
use pyka.Broker.Store.Serving.{IsHome, open_store-IsHome}
use pyka.Broker.Tail.{Key, new_tail, subscribe, notify, is_set}
use pyka.Broker.Tail.Wakeup.{subscribed, notified, run, any_wakes, subscribe-woken}

abbrev first : Key
first = (0x61 ∷ [], pos 1)

abbrev other : Key
other = (0x61 ∷ [], pos 2)

append_seen : any_wakes first (subscribed other ∷ notified other ∷ notified first ∷ []) ≡ true
unfolding any_wakes
append_seen = refl

subscribe-woken_example :
    is_set
      (run (subscribed other ∷ notified other ∷ notified first ∷ []) (subscribe new_tail first).1)
      (subscribe new_tail first).0
    ≡ true
subscribe-woken_example =
    subscribe-woken new_tail first (subscribed other ∷ notified other ∷ notified first ∷ [])
      append_seen

-- An append to another partition does not set the event.
quiet : is_set (notify (subscribe new_tail first).1 other) (subscribe new_tail first).0 ≡ false
unfolding subscribe notify
quiet = refl

abbrev even : Str → ℕ → Bool
even name p = p % 2 == 0

abbrev orders : Str
orders = 0x6f ∷ 0x72 ∷ []

abbrev topics : Topics
topics = record {
  default_partitions = 3;
  sync_policy = sync_never;
  max_segment_bytes = 1000;
  owns = even;
  partitioner = record { next = 0 };
  opened = [];
  metas = (orders, 3) ∷ [];
  files = λ name p. [];
}

abbrev two : Ring
two = record { brokers = 2; me = 0; address_template = ordinal ∷ [] }

abbrev starting : Store
starting = record {
  ring = two;
  broker_for = Ring.broker_for two;
  topics = topics;
  tail = (subscribe new_tail (orders, pos 2)).1;
  ready = false;
  allow_orphans = false;
  orphans = [];
}

starting_ready : (open_store starting ((orders, 0 ∷ 2 ∷ []) ∷ []) 0).1.ready ≡ true
unfolding open_store Log.open_log Segment.open_segment Record.read_one File.read File.open_at
starting_ready = refl

open_store-IsHome_example :
    IsHome
      (open_store starting ((orders, 0 ∷ 2 ∷ []) ∷ []) 0).1.topics.owns
      ((orders, 0 ∷ 2 ∷ []) ∷ [])
open_store-IsHome_example =
    open_store-IsHome starting ((orders, 0 ∷ 2 ∷ []) ∷ []) 0 refl refl starting_ready

-- A directory of another broker's partition keeps the broker from being ready.
resized : (open_store starting ((orders, 0 ∷ 1 ∷ []) ∷ []) 0).1.ready ≡ false
unfolding open_store Log.open_log Segment.open_segment Record.read_one File.read File.open_at
resized = refl

stored :
    (append starting orders (some (1 ∷ [])) none none (some (pos 2)) (pos 5) 0).0 ≡ ok (2, pos 0)
unfolding append Log.open_log Segment.open_segment Record.read_one File.read File.open_at
    Segment.has_room_for Segment.append Record.encode Struct.pack_signed Struct.fits_signed
    Struct.pack_u32 Zlib.crc32 Struct.signed_bytes Record.size Index.maybe_append Index.clear
    Index.open_index Int.◌+ℤ◌ Int.◌-ℤ◌ Struct.to_bytes Index.add_entry Log.append
    Segment.index_record Segment.write_record
stored = refl
