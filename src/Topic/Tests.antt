-- ===== src/Topic/Tests.antt =====
-- The partitioner and the sync policies at concrete data.
use pyka.Common.{ℕ, ◌≡◌, ◌≢◌, refl, ok, err, none, some, true, false, arith, value_error}
use pyka.Topic.Partitioner.{Partitioner, partition_for}
use pyka.Topic.Partitioner.Balance.{partition_all, load, keyless, load-keyless, partition_for_again}
use pyka.Topic.Policy.{SyncPolicy, should_sync, sync_every_record, sync_never}

abbrev started : Partitioner
started = record { next = 5 }

no_partitions : (partition_for started none 0).0 ≡ err value_error
unfolding partition_for
no_partitions = refl

load-keyless_example : load 1 (partition_all started (keyless 3) 3).0 ≡ 1
load-keyless_example = load-keyless started 1 3 (omega arith)

second_turn : (partition_for (partition_for started none 3).1 none 3).0 ≡ ok 0
unfolding partition_for
second_turn = refl

first_turn : (partition_for started none 3).0 ≡ ok 2
unfolding partition_for
first_turn = refl

partition_for_again_example : ◌≢◌ {A = ℕ} 2 0
partition_for_again_example = partition_for_again started 3 2 0 (omega arith) first_turn second_turn

abbrev ten_or_second : SyncPolicy
ten_or_second = record { records = some 10; millis = some 1000 }

each_record : should_sync sync_every_record 1 0 ≡ true
unfolding should_sync
each_record = refl

no_record : should_sync sync_never 100 100000 ≡ false
unfolding should_sync
no_record = refl
