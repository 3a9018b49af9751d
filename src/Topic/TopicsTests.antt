-- ===== src/Topic/TopicsTests.antt =====
-- Topics at concrete data: two brokers, of which this one owns the partitions with an even number.
use pyka.Common.{
  is_value_error, false, ℕ, ◌%◌, ◌≡◌, refl, [], ◌∷◌, Bool, true, none, some, ok, err, value_error,
  partition_not_local, unknown_topic, ◌==◌,
}
use pyka.Common.Int.{ℤ, pos, negsuc}
use pyka.Common.Int
use pyka.Python.Struct
use pyka.Python.Text.{Str}
use pyka.Storage.Record
use pyka.Storage.Index
use pyka.Python.File
use pyka.Python.Zlib
use pyka.Storage.Log
use pyka.Storage.Segment
use pyka.Topic.Policy.{sync_never}
use pyka.Topic.Name.{validate_name, IsSafe, validate_name-IsSafe}
use pyka.Topic.Topics.{Topics, create, existing, make_topics}
use pyka.Topic.Topics.Completeness.{IsComplete, append-IsComplete}
use pyka.Topic.Topics.Whole.{names}
use pyka.Topic.Topics.Routing.{IsOwned, append-IsOwned}
use pyka.Topic.Topics.Writing.{append}

abbrev even : Str → ℕ → Bool
even name p = p % 2 == 0

abbrev orders : Str
orders = 0x6f ∷ 0x72 ∷ []

abbrev new : Topics
new = record {
  default_partitions = 3;
  sync_policy = sync_never;
  max_segment_bytes = 1000;
  owns = even;
  partitioner = record { next = 0 };
  opened = [];
  metas = [];
  files = λ name p. [];
}

new_made : make_topics 3 sync_never 1000 even [] (λ name p. []) ≡ ok new
unfolding make_topics
new_made = refl

orders_allowed : validate_name orders ≡ ok tt
unfolding validate_name
orders_allowed = refl

traversal : validate_name (0x2e ∷ 0x2e ∷ []) ≡ err value_error
unfolding validate_name
traversal = refl

slash : validate_name (0x61 ∷ 0x2f ∷ []) ≡ err value_error
unfolding validate_name
slash = refl

validate_name-IsSafe_example : IsSafe orders
validate_name-IsSafe_example = validate_name-IsSafe orders orders_allowed

no_topic : (existing new orders 0).0 ≡ err unknown_topic
unfolding existing
no_topic = refl

orders_created : (create new orders (some 4) 0).0 ≡ ok 4
unfolding create Log.open_log Segment.open_segment Record.read_one File.read File.open_at
orders_created = refl

new-IsOwned : IsOwned even new
new-IsOwned = record { same = refl; local = tt }

append-IsOwned_example :
    let done = append new orders (some (1 ∷ [])) none none none (pos 5) 0 in
    IsOwned even done.1 × ((p : ℕ) (offset : ℤ) → done.0 ≡ ok (p, offset) → even orders p ≡ true)
append-IsOwned_example =
    append-IsOwned even new orders (some (1 ∷ [])) none none none (pos 5) 0 new-IsOwned

append-IsComplete_example :
    IsComplete even (append new orders (some (1 ∷ [])) none none none (pos 5) 0).1
append-IsComplete_example =
    append-IsComplete even new orders (some (1 ∷ [])) none none none (pos 5) 0
      (record { same = refl; local = tt })

to_second : (append new orders (some (1 ∷ [])) none none (some (pos 2)) (pos 5) 0).0 ≡ ok (2, pos 0)
unfolding append Log.open_log Segment.open_segment Record.read_one File.read File.open_at
    Segment.has_room_for Segment.append Record.encode Struct.pack_signed Struct.fits_signed
    Struct.pack_u32 Zlib.crc32 Struct.signed_bytes Record.size Index.maybe_append Index.clear
    Index.open_index Int.◌+ℤ◌ Int.◌-ℤ◌ Struct.to_bytes Index.add_entry Log.append
    Segment.index_record Segment.write_record
to_second = refl

to_first :
    (append new orders (some (1 ∷ [])) none none (some (pos 1)) (pos 5) 0).0
    ≡ err partition_not_local
unfolding append Log.open_log Segment.open_segment Record.read_one File.read File.open_at
to_first = refl

-- A file system has its own directories beside the topics.
listed_names :
    names (
      record { name = 0x62 ∷ []; is_dir = true; has_meta = true }
      ∷ record { name = 0x6c ∷ 0x2b ∷ []; is_dir = true; has_meta = true }
      ∷ record { name = 0x61 ∷ 0x7a ∷ []; is_dir = true; has_meta = true }
      ∷ record { name = 0x61 ∷ []; is_dir = true; has_meta = false }
      ∷ [])
    ≡ (0x61 ∷ 0x7a ∷ []) ∷ (0x62 ∷ []) ∷ []
unfolding names is_value_error
listed_names = refl
