-- ===== src/Broker/Store.antt =====
-- src/pyka/broker/store.py: the topics, the events of consumers, and whether the broker is ready.
-- Each method's step in a worker thread, and what follows on the event loop, is one step here.
pub mod Serving
use pyka.Common.{
  ℕ, ◌+◌, List, [], ◌∷◌, Bool, true, false, not, Option, none, some, Result, ok, err, Error, ◌>>=◌,
  ◌==◌, ltb, leb, if◌then◌else◌, length, take,
}
use pyka.Common.Int.{ℤ, pos}
use pyka.Python.Struct.{Bytes}
use pyka.Python.Text.{Str}
use pyka.Storage.Record.{Record}
use pyka.Storage.Log.{LogFile}
use pyka.Cluster.Ring.{Ring}
use pyka.Topic.Policy.{SyncPolicy}
use pyka.Storage.Segment.{Iteration}
use pyka.Topic.Topics.{Topics, make_topics, create, foreign_partitions, read_from}
use pyka.Topic.Topics.Writing
use pyka.Broker.Tail.{Tail, new_tail, notify}
use pyka.Broker.Tail

-- `broker_for` is the method of the ring's class.
pub record Store : Type 0 where
  pub ring : Ring
  pub broker_for : Str → ℤ → Result ℕ
  pub topics : Topics
  pub tail : Tail
  pub ready : Bool
  pub allow_orphans : Bool
  pub orphans : List (Str × List ℕ)

-- ring.owns, on a partition of a topic, for which no ring raises
abbrev pub owner_test : (Str → ℤ → Result ℕ) → ℕ → Str → ℕ → Bool
owner_test broker_for me name p = elim (broker_for name (pos p)) [ ok b ↦ b == me | err e ↦ false ]

-- Store(root, partitions, sync_policy, max_segment_bytes, ring, allow_orphans)
unfoldable pub make_store :
    ℕ
    → SyncPolicy
    → ℕ
    → Ring
    → (Str → ℤ → Result ℕ)
    → Bool
    → List (Str × ℕ)
    → (Str → ℕ → List LogFile)
    → Result Store
unfolding make_topics
make_store partitions policy max_bytes ring broker_for allow_orphans metas files =
    make_topics partitions policy max_bytes (owner_test broker_for ring.me) metas files
    >>= λ topics. ok (record {
      ring = ring;
      broker_for = broker_for;
      topics = topics;
      tail = new_tail;
      ready = false;
      allow_orphans = allow_orphans;
      orphans = [];
    })

-- A directory of the root: the topic's name, and the numbers of its partition directories in order.
abbrev pub Directory : Type 0
Directory = Str × List ℕ

-- for name in names: self._topic.create(name)
unfoldable pub create_all : Topics → List Directory → ℕ → Result (Unit {0}) × Topics
unfolding create
create_all t [] now = (ok tt, t)
create_all t (d ∷ ds) now =
    let (result, t') = create t d.0 none now in
    let rest = create_all t' ds now in elim result [ ok _ ↦ rest | err e ↦ (err e, t') ]

-- one name of the loop of `_find_orphans`
abbrev pub orphans_of : Str → List ℕ → List Directory → List Directory
orphans_of name [] found = found
orphans_of name (p ∷ ps) found = (name, p ∷ ps) ∷ found

unfoldable pub find_orphans : Topics → List Directory → List Directory
unfolding foreign_partitions
find_orphans t [] = []
find_orphans t (d ∷ ds) = orphans_of d.0 (foreign_partitions t d.0 d.1) (find_orphans t ds)

abbrev pub is_nil : List Directory → Bool
is_nil [] = true
is_nil (d ∷ ds) = false

-- the end of `open`: ready where there are no orphans, or they are allowed
unfoldable pub judge : Store → Topics → List Directory → Store
judge s t found = record s {
  topics = t;
  orphans = found;
  ready = if not (is_nil found) then (if s.allow_orphans then true else s.ready) else true;
}

unfoldable pub open_store : Store → List Directory → ℕ → Result (Unit {0}) × Store
unfolding create_all find_orphans judge
open_store s names now =
    let (result, t) = create_all s.topics names now in
    elim result [
      | err e ↦ (err e, record s { topics = t })
      | ok _ ↦ (ok tt, judge s t (find_orphans t names))
    ]

-- `close` up to its await
unfoldable pub release : Store → Store
unfolding Tail.close
release s = record s { ready = false; tail = Tail.close s.tail }

-- the rest of `close`
unfoldable pub close_topics : Store → Store
unfolding Writing.close
close_topics s = record s { topics = (Writing.close s.topics).1 }

unfoldable pub close_store : Store → Store
unfolding release close_topics
close_store s = close_topics (release s)

-- self._tail.notify(name, partition), where the append returned
abbrev pub announce : Store → Str → Result (ℕ × ℤ) → Topics → Result (ℕ × ℤ) × Store
announce s name (ok (p, offset)) t =
    (ok (p, offset), record s { topics = t; tail = notify s.tail (name, pos p) })
announce s name (err e) t = (err e, record s { topics = t })

unfoldable pub append :
    Store → Str → Option Bytes → Option Bytes → Option ℤ → Option ℤ → ℤ → ℕ → Result (ℕ × ℤ) × Store
unfolding Writing.append notify
append s name key value timestamp partition now monotonic =
    let (result, t) = Writing.append s.topics name key value timestamp partition now monotonic in
    announce s name result t

-- list(records)
abbrev pub all_of : Iteration → Result (List Record)
all_of i = elim i.raised [ none ↦ ok i.records | some e ↦ err e ]

-- the loop that breaks once `limit` records are there; a limit of 0 or below means all
abbrev pub bounded : ℕ → Iteration → Result (List Record)
bounded limit i =
    if ltb limit 1
    then all_of i
    else if leb limit (length i.records)
    then ok (take limit i.records)
    else all_of i

unfoldable pub read : Store → Str → ℤ → ℤ → ℕ → ℕ → Result (List Record) × Store
unfolding read_from
read s name offset partition limit now =
    let (i, t) = read_from s.topics name offset partition now in
    (i >>= λ i. bounded limit i, record s { topics = t })
