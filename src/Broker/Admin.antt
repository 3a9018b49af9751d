-- ===== src/Broker/Admin.antt =====
-- src/pyka/broker/admin.py: the control plane, as functions from the store to a response.
pub mod Described
pub mod Syncing
pub mod Keeping
use pyka.Common.{
  ℕ, zero, suc, ◌+◌, List, [], ◌∷◌, map, Bool, true, false, Option, none, some, Result, ok, err,
  Error, key_error, unknown_topic, is_value_error, ◌>>=◌, ◌==◌, if◌then◌else◌, length,
}
use pyka.Common.Int.{ℤ, pos, pos_part}
use pyka.Python.Dict.{lookup}
use pyka.Python.Text.{Str}
use pyka.Cluster.Ring.{range}
use pyka.Storage.Segment.{Segment, size_bytes, index_entries, sealed}
use pyka.Storage.Log.{Log, segments, next_offset, first_base}
use pyka.Storage.Log
use pyka.Topic.Topics.{Topics, Partition, eq_str, eq_number, create, get, partitions_of}
use pyka.Topic.Topics.Writing.{put_back}
use pyka.Broker.Store.{Store}

-- The body of a 200 or 201, or the status of an error. 500 is FastAPI's answer for an exception that
-- nobody caught, 422 its answer for a body that the schema refuses.
pub data Response {ℓ} (A : Type ℓ) : Type ℓ where
  body : A → Response A
  status : ℕ → Response A

pub record SegmentInfo : Type 0 where
  pub base_offset : ℤ
  pub next_offset : ℤ
  pub size_bytes : ℕ
  pub index_entries : ℕ
  pub sealed : Bool

pub record PartitionInfo : Type 0 where
  pub partition : ℤ
  pub base_offset : ℤ
  pub next_offset : ℤ
  pub size_bytes : ℕ
  pub segments : List SegmentInfo

pub record TopicInfo : Type 0 where
  pub name : Str
  pub partitions : ℕ

pub record BrokerInfo : Type 0 where
  pub broker_id : ℕ
  pub brokers : ℕ
  pub ready : Bool
  pub topics : ℕ

unfoldable pub segment_info : Segment → SegmentInfo
segment_info s = record {
  base_offset = s.base_offset;
  next_offset = s.next_offset;
  size_bytes = size_bytes s;
  index_entries = index_entries s;
  sealed = sealed s;
}

-- sum(s.size_bytes for s in segments)
abbrev pub total_size : List SegmentInfo → ℕ
total_size [] = 0
total_size (s ∷ ss) = s.size_bytes + total_size ss

-- `_partition_info`; `log.segments` is never empty, and begins with the first base
unfoldable pub partition_info : ℤ → Log → PartitionInfo
unfolding segment_info
partition_info partition l =
    let infos = map segment_info (segments l) in
    record {
      partition = partition;
      base_offset = first_base l;
      next_offset = next_offset l;
      size_bytes = total_size infos;
      segments = infos;
    }

-- the `except` clauses of `_to_thread`
unfoldable pub status_of : Error → ℕ
unfolding is_value_error
status_of unknown_topic = 404
status_of e = if is_value_error e then 400 else 500

-- `_to_thread`
abbrev pub to_thread {ℓ} : {A : Type ℓ} → Result A → Response A
to_thread (ok a) = body a
to_thread (err e) = status (status_of e)

-- the response code and the body of `readyz`
unfoldable pub readyz : Store → ℕ × Bool
readyz s = ((if s.ready then 200 else 503), s.ready)

-- `listed` is what Store.names finds on disk
unfoldable pub broker_info : Store → List Str → BrokerInfo
broker_info s listed = record {
  broker_id = s.ring.me;
  brokers = s.ring.brokers;
  ready = s.ready;
  topics = length listed;
}

-- a count below 1 does not pass the schema
abbrev pub is_refused : Option ℕ → Bool
is_refused none = false
is_refused (some n) = n == 0

abbrev pub created : Str → Result ℕ → Response TopicInfo
created name (ok count) = body (record { name = name; partitions = count })
created name (err e) = status (if is_value_error e then 400 else 500)

unfoldable pub create_topic : Store → Str → Option ℕ → ℕ → Response TopicInfo × Store
unfolding create is_value_error
create_topic s name partitions now =
    let (count, t) = create s.topics name partitions now in
    if is_refused partitions then (status 422, s) else (created name count, record s { topics = t })

unfoldable pub describe_topic : Store → Str → ℕ → Response TopicInfo × Store
unfolding partitions_of status_of
describe_topic s name now =
    let (count, t) = partitions_of s.topics name now in
    (
      to_thread (count >>= λ n. ok (record { name = name; partitions = n })),
      record s { topics = t },
    )

unfoldable pub describe_partition : Store → Str → ℤ → ℕ → Response PartitionInfo × Store
unfolding get partition_info status_of
describe_partition s name partition now =
    let (l, t) = get s.topics name partition now in
    (to_thread (l >>= λ l. ok (partition_info partition l)), record s { topics = t })

-- A call of a method on the log that `get` has returned: the object in the cache changes.
unfoldable pub change_log {ℓ} :
    {A : Type ℓ} → Topics → Str → ℕ → (Log → Result A × Log) → Result A × Topics
unfolding lookup put_back
change_log t name p method = elim (lookup eq_str t.opened name) [
  | none ↦ (err key_error, t)
  | some o ↦ elim (lookup eq_number o.local p) [
    | none ↦ (err key_error, t)
    | some entry ↦
        let (result, l) = method entry.log in
        (result, put_back t name o p (record entry { log = l }))
  ]
]

abbrev pub and_later : ℕ → Result Log → Topics → Result (List ℕ) × Topics → Result (List ℕ) × Topics
and_later p (err e) t later = (err e, t)
and_later p (ok _) t later = (later.0 >>= λ ps. ok (p ∷ ps), later.1)

-- `_all_logs`: the logs are the objects of the cache, named here by their partitions
unfoldable pub all_logs : Topics → Str → List ℕ → ℕ → Result (List ℕ) × Topics
unfolding get
all_logs t name [] now = (ok [], t)
all_logs t name (p ∷ ps) now =
    let (l, t') = get t name (pos p) now in
    let later = all_logs t' name ps now in and_later p l t' later

-- for log in logs: log.sync()
unfoldable pub sync_all : Topics → Str → List ℕ → Result (Unit {0}) × Topics
unfolding change_log Log.sync
sync_all t name [] = (ok tt, t)
sync_all t name (p ∷ ps) =
    let (result, t') = change_log t name p Log.sync in
    let rest = sync_all t' name ps in elim result [ err e ↦ (err e, t') | ok _ ↦ rest ]

unfoldable pub sync_these : Store → Str → Result (List ℕ) × Topics → Response (Unit {0}) × Store
unfolding sync_all status_of
sync_these s name (err e, t) = (status (status_of e), record s { topics = t })
sync_these s name (ok ps, t) =
    let (result, t') = sync_all t name ps in (to_thread result, record s { topics = t' })

unfoldable pub sync_counted : Store → Str → ℕ → Result ℕ × Topics → Response (Unit {0}) × Store
unfolding all_logs sync_these status_of
sync_counted s name now (err e, t) = (status (status_of e), record s { topics = t })
sync_counted s name now (ok n, t) = sync_these s name (all_logs t name (range 0 n) now)

unfoldable pub sync_topic : Store → Str → ℕ → Response (Unit {0}) × Store
unfolding partitions_of sync_counted
sync_topic s name now = sync_counted s name now (partitions_of s.topics name now)

unfoldable pub roll_partition : Store → Str → ℤ → ℕ → Response SegmentInfo × Store
unfolding get change_log Log.roll segment_info status_of
roll_partition s name partition now =
    let (l, t) = get s.topics name partition now in
    elim l [
      | err e ↦ (status (status_of e), record s { topics = t })
      | ok _ ↦
          let (result, t') = change_log t name (pos_part partition) Log.roll in
          (to_thread (result >>= λ segment. ok (segment_info segment)), record s { topics = t' })
    ]
