-- ===== src/Topic/Topics.antt =====
-- src/pyka/topic/topic.py, class Topic: the topics of a data directory and their open logs.
pub mod Writing
pub mod Creation
pub mod Routing
pub mod Locality
pub mod Whole
pub mod Completeness
pub mod Storing
pub mod Adding
use pyka.Common.{
  ℕ, zero, suc, ◌+◌, ◌-◌, List, [], ◌∷◌, map, Bool, true, false, Option, none, some, Result, ok,
  err, Error, value_error, unknown_topic, partition_not_local, ◌>>=◌, ◌>>◌, ◌==◌, ltb, leb,
  if◌then◌else◌,
}
use pyka.Common.Int.{ℤ, pos, negsuc}
use pyka.Python.Struct.{Bytes}
use pyka.Python.Dict.{lookup, store}
use pyka.Storage.Log.{Log, LogFile, open_log}
use pyka.Storage.Log
use pyka.Storage.Segment.{Iteration}
use pyka.Python.Text.{Str}
use pyka.Cluster.Ring.{range}
use pyka.Topic.Partitioner.{Partitioner, partition_for}
use pyka.Topic.Policy.{SyncPolicy, should_sync}
use pyka.Topic.Name.{validate_name}

-- `_Partition`: a log, the appends since it was synced, and the time of that in milliseconds.
pub record Partition : Type 0 where
  pub log : Log
  pub appends : ℕ
  pub synced_at : ℕ

-- `_OpenTopic`: the number of partitions everywhere, and those stored here.
pub record OpenTopic : Type 0 where
  pub partitions : ℕ
  pub local : List (ℕ × Partition)

-- `metas` are the topic.json files. `files` are the files of a partition's directory as this object
-- found them: it opens a directory once.
pub record Topics : Type 0 where
  pub default_partitions : ℕ
  pub sync_policy : SyncPolicy
  pub max_segment_bytes : ℕ
  pub owns : Str → ℕ → Bool
  pub partitioner : Partitioner
  pub opened : List (Str × OpenTopic)
  pub metas : List (Str × ℕ)
  pub files : Str → ℕ → List LogFile

abbrev pub eq_str : Str → Str → Bool
eq_str [] [] = true
eq_str (c ∷ cs) (d ∷ ds) = if c == d then eq_str cs ds else false
eq_str _ _ = false

abbrev pub eq_number : ℕ → ℕ → Bool
eq_number a b = a == b

-- Topic(root, partitions, sync_policy, max_segment_bytes, owns) over what is on disk
unfoldable pub make_topics :
    ℕ
    → SyncPolicy
    → ℕ
    → (Str → ℕ → Bool)
    → List (Str × ℕ)
    → (Str → ℕ → List LogFile)
    → Result Topics
make_topics partitions policy max_bytes owns metas files =
    if ltb partitions 1
    then err value_error
    else ok (record {
      default_partitions = partitions;
      sync_policy = policy;
      max_segment_bytes = max_bytes;
      owns = owns;
      partitioner = record { next = 0 };
      opened = [];
      metas = metas;
      files = files;
    })

-- {p: _Partition(Log(...)) for p in ps if self._owns(name, p)}
unfoldable pub open_partitions : Topics → Str → ℕ → List ℕ → Result (List (ℕ × Partition))
open_partitions t name now [] = ok []
open_partitions t name now (p ∷ ps) =
    let rest = open_partitions t name now ps in
    if t.owns name p
    then (open_log t.max_segment_bytes (t.files name p) >>= λ l.
        rest >>= λ others. ok ((p, record { log = l; appends = 0; synced_at = now }) ∷ others))
    else rest

-- `partitions or self._default_partitions`
abbrev pub or_default : Topics → Option ℕ → ℕ
or_default t none = t.default_partitions
or_default t (some n) = if n == 0 then t.default_partitions else n

-- the count of topic.json, which is written where there is none
unfoldable pub ensure_meta : Topics → Str → Option ℕ → ℕ × Topics
unfolding lookup store
ensure_meta t name partitions = elim (lookup eq_str t.metas name) [
  | some count ↦ (count, t)
  | none ↦
      let count = or_default t partitions in
      (count, record t { metas = store eq_str t.metas name count })
]

unfoldable pub open_locked : Topics → Str → Option ℕ → ℕ → Result OpenTopic × Topics
unfolding ensure_meta open_partitions
open_locked t name partitions now =
    let (count, t') = ensure_meta t name partitions in
    elim (open_partitions t' name now (range 0 count)) [
      | err e ↦ (err e, t')
      | ok local ↦
          let topic : OpenTopic = record { partitions = count; local = local } in
          (ok topic, record t' { opened = store eq_str t'.opened name topic })
    ]

-- the cached topic, or the one that is opened now
unfoldable pub cached : Topics → Str → Option ℕ → ℕ → Result OpenTopic × Topics
unfolding open_locked
cached t name partitions now = elim (lookup eq_str t.opened name) [
  | some topic ↦ (ok topic, t)
  | none ↦ open_locked t name partitions now
]

unfoldable pub create : Topics → Str → Option ℕ → ℕ → Result ℕ × Topics
unfolding cached validate_name
create t name partitions now = elim (validate_name name) [
  | err e ↦ (err e, t)
  | ok _ ↦
      let (result, t') = cached t name partitions now in
      (result >>= λ topic. ok topic.partitions, t')
]

-- `_topic`: a topic that exists
unfoldable pub existing : Topics → Str → ℕ → Result OpenTopic × Topics
unfolding open_locked validate_name
existing t name now = elim (validate_name name) [
  | err e ↦ (err e, t)
  | ok _ ↦ elim (lookup eq_str t.opened name) [
    | some topic ↦ (ok topic, t)
    | none ↦ elim (lookup eq_str t.metas name) [
      | none ↦ (err unknown_topic, t)
      | some _ ↦ open_locked t name none now
    ]
  ]
]

-- `_check_partition`, with the entry of the partition
unfoldable pub check_partition : OpenTopic → ℤ → Result (ℕ × Partition)
check_partition topic (negsuc n) = err value_error
check_partition topic (pos p) =
    if ltb p topic.partitions
    then elim (lookup eq_number topic.local p) [
      | some entry ↦ ok (p, entry)
      | none ↦ err partition_not_local
    ]
    else err value_error

unfoldable pub get : Topics → Str → ℤ → ℕ → Result Log × Topics
unfolding existing check_partition
get t name partition now =
    let (topic, t') = existing t name now in
    (topic >>= λ o. check_partition o partition >>= λ e. ok e.1.log, t')

unfoldable pub read_from : Topics → Str → ℤ → ℤ → ℕ → Result Iteration × Topics
unfolding get
read_from t name offset partition now =
    let (l, t') = get t name partition now in (l >>= λ l. Log.read_from l offset, t')

unfoldable pub partitions_of : Topics → Str → ℕ → Result ℕ × Topics
unfolding existing
partitions_of t name now =
    let (topic, t') = existing t name now in (topic >>= λ o. ok o.partitions, t')

unfoldable pub exists : Topics → Str → Result Bool
unfolding lookup validate_name
exists t name =
    validate_name name >> ok (elim (lookup eq_str t.metas name) [ none ↦ false | some _ ↦ true ])

-- `foreign_partitions`, over the numbers that the names of the partition directories are, in order
unfoldable pub foreign_partitions : Topics → Str → List ℕ → List ℕ
foreign_partitions t name [] = []
foreign_partitions t name (p ∷ ps) =
    let rest = foreign_partitions t name ps in if t.owns name p then rest else p ∷ rest
