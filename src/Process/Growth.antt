-- ===== src/Process/Growth.antt =====
-- Whatever the calls and the worker threads do, the records of a partition stay where they are.
use pyka.Common.{
  ℕ, sym, List, [], ◌∷◌, ◌++◌, append-nil, Bool, Option, none, some, Result, ok, err, if_elim,
}
use mathlib.Core.Path.{subst}
use pyka.Common.Int.{ℤ}
use pyka.Python.Text.{Str}
use pyka.Storage.Record.{Record}
use pyka.Topic.Topics.{read_from, get, partitions_of}
use pyka.Topic.Topics.Writing
use pyka.Topic.Topics.Storing.{Stored, untouched, added}
use pyka.Topic.Topics.Adding.{existing-Stored, append-Effect}
use pyka.Broker.Admin.Keeping.{
  create_topic-Keeping, describe_topic-Keeping, describe_partition-Keeping, sync_topic-Keeping,
  roll_partition-Keeping,
}
use pyka.Broker.Messages.{ProduceRequest, ConsumeRequest, TopicMetadata}
use pyka.Broker.Store.{Store, read}
use pyka.Broker.Handler.{
  Reply, done, aborted, produce, describe_topic, describe_topics, followed_by, metadata,
  response_of, any_asked, names_asked,
}
use pyka.Broker.Handler.Consume.{read_batch, read_reply, watched, limit_of}
use pyka.Broker.Handler.Written.{aside, written, produce-Produced}
use pyka.Process.Calls.{
  Call, producing, streaming, consuming, parked, asking, call_step, thread_step, HttpCall, creating,
  describing, inspecting, syncing, rolling, http_step,
}

module _ (name : Str) (p : ℕ) (base : ℤ) where
  abbrev Holding : List Record → Store → Type 0
  Holding rs s = Stored s.topics name p base rs

  followed_by-Holding :
      (rs : List Record) (first : Reply (Option TopicMetadata) × Store)
      (rest : Reply (List TopicMetadata) × Store)
      → Holding rs first.1
      → Holding rs rest.1
      → Holding rs (followed_by first rest).1
  followed_by-Holding rs (aborted a, t) rest h k = h
  followed_by-Holding rs (done none, t) rest h k = k
  followed_by-Holding rs (done (some topic), t) rest h k = k

  describe_topic-Holding :
      (rs : List Record) (asked : Bool) (s : Store) (topic : Str) (monotonic : ℕ)
      → Holding rs s
      → Holding rs (describe_topic asked s topic monotonic).1
  unfolding describe_topic partitions_of
  describe_topic-Holding rs asked s topic monotonic h =
      existing-Stored s.topics name topic monotonic p base rs h

  describe_topics-Holding :
      (rs : List Record) (asked : Bool) (s : Store) (names : List Str) (monotonic : ℕ)
      → Holding rs s
      → Holding rs (describe_topics asked s names monotonic).1
  unfolding describe_topics
  describe_topics-Holding rs asked s [] monotonic h = h
  describe_topics-Holding rs asked s (topic ∷ names) monotonic h =
      let h' = describe_topic-Holding rs asked s topic monotonic h in
      followed_by-Holding rs (describe_topic asked s topic monotonic) _ h' (
        describe_topics-Holding rs asked (describe_topic asked s topic monotonic).1 names monotonic
          h')

  response_of-Holding :
      (rs : List Record) (answer : Reply (List TopicMetadata) × Store)
      → Holding rs answer.1
      → Holding rs (response_of answer).1
  response_of-Holding rs (done ts, t) h = h
  response_of-Holding rs (aborted a, t) h = h

  read_reply-Holding :
      (rs : List Record) (answer : Result (List Record) × Store) (r : ConsumeRequest)
      → Holding rs answer.1
      → Holding rs (read_reply answer r).1
  unfolding read_reply
  read_reply-Holding rs (ok batch, t) r h = h
  read_reply-Holding rs (err e, t) r h = h

  read_batch-Holding :
      (rs : List Record) (s : Store) (r : ConsumeRequest) (offset : ℤ) (limit now : ℕ)
      → Holding rs s
      → Holding rs (read_batch s r offset limit now).1
  unfolding read_batch read read_from get
  read_batch-Holding rs s r offset limit now h =
      read_reply-Holding rs _ r (existing-Stored s.topics name r.topic now p base rs h)

  -- The partition has its records, and perhaps more behind them.
  pub record Grown (rs : List Record) (s : Store) : Type 0 where
    pub extra : List Record
    pub holding : Stored s.topics name p base (rs ++ extra)

  pub stays : (rs : List Record) (s : Store) → Holding rs s → Grown rs s
  stays rs s h = record { extra = []; holding = subst (λ q. Holding q s) (sym (append-nil rs)) h }

  produce-Grown :
      (rs : List Record) (s : Store) (r : ProduceRequest) (now : ℤ) (monotonic : ℕ)
      → Holding rs s
      → Grown rs (produce s r now monotonic).1
  produce-Grown rs s r now monotonic h =
      elim (produce-Produced s r now monotonic name p base rs h) [
        | aside h' apart ↦ stays rs _ h'
        | written x response answered at k v h' ↦ record { extra = x ∷ []; holding = h' }
      ]

  -- Every step of every call leaves the records of a partition where they are; new ones come behind.
  pub call_step-Grown :
      (rs : List Record) (s : Store) (c : Call) (now : ℤ) (monotonic : ℕ)
      → Stored s.topics name p base rs
      → Grown rs (call_step s c now monotonic).1
  unfolding call_step metadata
  call_step-Grown rs s (producing r) now monotonic h = produce-Grown rs s r now monotonic h
  call_step-Grown rs s (streaming []) now monotonic h = stays rs s h
  call_step-Grown rs s (streaming (r ∷ rest)) now monotonic h = produce-Grown rs s r now monotonic h
  call_step-Grown rs s (consuming r offset remaining) now monotonic h = stays rs _ (
      read_batch-Holding rs (watched s r) r offset (limit_of remaining) monotonic
        (if_elim (λ s. Holding rs s) r.follow h h))
  call_step-Grown rs s (parked r offset remaining) now monotonic h = stays rs s h
  call_step-Grown rs s (asking topics listed) now monotonic h = stays rs _ (
      response_of-Holding rs _
        (describe_topics-Holding rs (any_asked topics) s (names_asked topics listed) monotonic h))

  thread_append-Grown :
      (rs : List Record) (s : Store) (r : ProduceRequest) (now : ℤ) (monotonic : ℕ)
      → Holding rs s
      → Grown rs (record s {
        topics =
            (Writing.append s.topics r.topic r.key r.value r.timestamp r.partition now monotonic).1;
      })
  thread_append-Grown rs s r now monotonic h =
      elim (append-Effect s.topics name p base rs r.topic r.key r.value r.timestamp r.partition now
        monotonic h) [
          | untouched h' apart ↦ stays rs _ h'
          | added x same at k v h' ↦ record { extra = x ∷ []; holding = h' }
        ]

  pub thread_step-Grown :
      (rs : List Record) (s : Store) (c : Call) (now : ℤ) (monotonic : ℕ)
      → Stored s.topics name p base rs
      → Grown rs (thread_step s c now monotonic)
  unfolding thread_step read read_from get
  thread_step-Grown rs s (producing r) now monotonic h = thread_append-Grown rs s r now monotonic h
  thread_step-Grown rs s (streaming []) now monotonic h = stays rs s h
  thread_step-Grown rs s (streaming (r ∷ rest)) now monotonic h =
      thread_append-Grown rs s r now monotonic h
  thread_step-Grown rs s (consuming r offset remaining) now monotonic h =
      stays rs _ (existing-Stored s.topics name r.topic monotonic p base rs h)
  thread_step-Grown rs s (parked r offset remaining) now monotonic h = stays rs s h
  thread_step-Grown rs s (asking topics listed) now monotonic h = stays rs s h

  pub http_step-Holding :
      (rs : List Record) (s : Store) (c : HttpCall) (now : ℕ)
      → Stored s.topics name p base rs
      → Stored (http_step s c now).topics name p base rs
  unfolding http_step
  http_step-Holding rs s (creating topic partitions) now h =
      create_topic-Keeping name p base rs s topic partitions now h
  http_step-Holding rs s (describing topic) now h =
      describe_topic-Keeping name p base rs s topic now h
  http_step-Holding rs s (inspecting topic partition) now h =
      describe_partition-Keeping name p base rs s topic partition now h
  http_step-Holding rs s (syncing topic) now h = sync_topic-Keeping name p base rs s topic now h
  http_step-Holding rs s (rolling topic partition) now h =
      roll_partition-Keeping name p base rs s topic partition now h
