-- ===== src/Topic/Topics/Writing.antt =====
-- src/pyka/topic/topic.py, class Topic: routing, appending, syncing and closing.
use pyka.Common.{
  ℕ, ◌+◌, ◌-◌, List, [], ◌∷◌, Option, none, some, Result, ok, err, ◌>>=◌, if◌then◌else◌,
}
use pyka.Common.Int.{ℤ, pos}
use pyka.Python.Struct.{Bytes}
use pyka.Python.Dict.{store}
use pyka.Storage.Log
use pyka.Python.Text.{Str}
use pyka.Topic.Partitioner.{partition_for}
use pyka.Topic.Policy.{should_sync}
use pyka.Topic.Name.{validate_name}
use pyka.Topic.Topics.{
  Partition, OpenTopic, Topics, eq_str, eq_number, cached, existing, check_partition,
}

-- Which partition a key belongs to; the counter moves where there is no key.
unfoldable pub route : Topics → Str → Option Bytes → ℕ → Result ℕ × Topics
unfolding existing partition_for
route t name key now =
    let (topic, t') = existing t name now in
    elim topic [
      | err e ↦ (err e, t')
      | ok o ↦
          let (p, s) = partition_for t'.partitioner key o.partitions in
          (p, record t' { partitioner = s })
    ]

-- `append` of one partition: the record, the counter, and fsync where the policy wants it. `now` is
-- the wall clock, `monotonic` the other one.
unfoldable pub append_entry :
    Topics → Partition → Option Bytes → Option Bytes → Option ℤ → ℤ → ℕ → Result ℤ × Partition
unfolding should_sync Log.append Log.sync
append_entry t entry key value timestamp now monotonic =
    let (result, l) = Log.append entry.log key value timestamp now in
    elim result [
      | err e ↦ (err e, record entry { log = l })
      | ok offset ↦
          let (synced, l') = Log.sync l in
          let count = entry.appends + 1 in
          if should_sync t.sync_policy count (monotonic - entry.synced_at)
          then elim synced [
            | ok _ ↦ (ok offset, record { log = l'; appends = 0; synced_at = monotonic })
            | err e ↦ (err e, record entry { log = l'; appends = count })
          ]
          else (ok offset, record entry { log = l; appends = count })
    ]

-- the partition that is asked for, or the partitioner's
unfoldable pub chosen : Topics → OpenTopic → Option Bytes → Option ℤ → Result ℤ × Topics
unfolding partition_for
chosen t o key (some p) = (ok p, t)
chosen t o key none =
    let (p, s) = partition_for t.partitioner key o.partitions in
    (p >>= λ p. ok (pos p), record t { partitioner = s })

-- the entry of the dictionary is the object that `append_entry` changes
unfoldable pub put_back : Topics → Str → OpenTopic → ℕ → Partition → Topics
unfolding store
put_back t name o p entry =
    let o' : OpenTopic = record o { local = store eq_number o.local p entry } in
    record t { opened = store eq_str t.opened name o' }

-- `append` from the cached topic on
unfoldable pub append_open :
    Topics
    → Str
    → OpenTopic
    → Option Bytes
    → Option Bytes
    → Option ℤ
    → Option ℤ
    → ℤ
    → ℕ
    → Result (ℕ × ℤ) × Topics
unfolding chosen check_partition append_entry put_back
append_open t name o key value timestamp partition now monotonic =
    let (p, t') = chosen t o key partition in
    elim (p >>= λ p. check_partition o p) [
      | err e ↦ (err e, t')
      | ok (p, entry) ↦
          let (result, entry') = append_entry t' entry key value timestamp now monotonic in
          (result >>= λ offset. ok (p, offset), put_back t' name o p entry')
    ]

unfoldable pub append :
    Topics
    → Str
    → Option Bytes
    → Option Bytes
    → Option ℤ
    → Option ℤ
    → ℤ
    → ℕ
    → Result (ℕ × ℤ) × Topics
unfolding cached append_open validate_name
append t name key value timestamp partition now monotonic = elim (validate_name name) [
  | err e ↦ (err e, t)
  | ok _ ↦
      let (topic, t') = cached t name none monotonic in
      elim topic [
        | err e ↦ (err e, t')
        | ok o ↦ append_open t' name o key value timestamp partition now monotonic
      ]
]

-- for entry in entries: entry.log.close()
close_entries : List (ℕ × Partition) → List (ℕ × Partition)
close_entries [] = []
close_entries ((p, entry) ∷ es) = (p, record entry { log = Log.close entry.log }) ∷ close_entries es

close_all : List (Str × OpenTopic) → List (Str × OpenTopic)
unfolding close_entries
close_all [] = []
close_all ((name, o) ∷ os) = (name, record o { local = close_entries o.local }) ∷ close_all os

-- The closed logs, which the object forgets, and the object.
unfoldable pub close : Topics → List (Str × OpenTopic) × Topics
unfolding close_all
close t = (close_all t.opened, record t { opened = [] })
