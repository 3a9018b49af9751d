-- ===== src/Broker/Handler.antt =====
-- src/pyka/broker/handler.py: what a broker answers to the calls of its clients.
pub mod Consume
pub mod Batches
pub mod Portions
pub mod Draining
pub mod Redirecting
pub mod Streaming
pub mod Written
use pyka.Common.{
  ℕ, zero, suc, ◌+◌, ◌-◌, List, [], ◌∷◌, Bool, true, false, Option, none, some, Result, ok, err,
  Error, unknown_topic, partition_not_local, offset_out_of_range, is_value_error, ◌>>=◌,
  if◌then◌else◌,
}
use pyka.Common.Int.{ℤ, pos}
use pyka.Python.Struct.{Bytes}
use pyka.Python.Text.{Str}
use pyka.Storage.Record.{Record}
use pyka.Cluster.Ring.{Ring, address_of, range}
use pyka.Topic.Topics.{partitions_of}
use pyka.Topic.Topics.Writing.{route}
use pyka.Broker.Messages.{
  ProduceRequest, ProduceResponse, ConsumeRequest, Message, PartitionMetadata, TopicMetadata,
  MetadataResponse,
}
use pyka.Broker.Store.{Store}
use pyka.Broker.Store

-- How a call is ended by `context.abort`. `moved` is FAILED_PRECONDITION with the partition, its
-- owner and the owner's address. `unknown` is what gRPC answers for an exception that nobody caught.
pub data Abort : Type 0 where
  invalid_argument : Abort
  not_found : Abort
  out_of_range : Abort
  moved : ℤ → ℕ → Str → Abort
  unknown : Error → Abort

pub data Reply {ℓ} (A : Type ℓ) : Type ℓ where
  done : A → Reply A
  aborted : Abort → Reply A

-- an exception on the way to a redirect is caught by nobody
abbrev pub uncaught_abort : Result Abort → Abort
uncaught_abort (ok a) = a
uncaught_abort (err e) = unknown e

-- `partition` of `topic` belongs to its owner
unfoldable pub point_to_owner : Store → Str → ℤ → Abort
unfolding address_of
point_to_owner s topic partition = uncaught_abort (
    s.broker_for topic partition >>= λ owner.
    address_of s.ring (pos owner) >>= λ address. ok (moved partition owner address))

-- the partition that the client did not choose is asked for again
unfoldable pub redirect : Store → ProduceRequest → ℕ → Abort × Store
unfolding route point_to_owner
redirect s request monotonic = elim request.partition [
  | some p ↦ (point_to_owner s request.topic p, s)
  | none ↦
      let (p, t) = route s.topics request.topic request.key monotonic in
      let s' = record s { topics = t } in
      (elim p [ ok p ↦ point_to_owner s' request.topic (pos p) | err e ↦ unknown e ], s')
]

-- the `except` clauses of `_append`
unfoldable pub refuse : Error → Store → ProduceRequest → ℕ → Abort × Store
unfolding redirect is_value_error
refuse partition_not_local s request monotonic = redirect s request monotonic
refuse e s request monotonic = ((if is_value_error e then invalid_argument else unknown e), s)

unfoldable pub append_reply : Result (ℕ × ℤ) × Store → ProduceRequest → ℕ → Reply (ℕ × ℤ) × Store
unfolding refuse
append_reply (ok landed, s) request monotonic = (done landed, s)
append_reply (err e, s) request monotonic =
    let (a, s') = refuse e s request monotonic in (aborted a, s')

-- `_append`
unfoldable pub handle_append : Store → ProduceRequest → ℤ → ℕ → Reply (ℕ × ℤ) × Store
unfolding append_reply Store.append
handle_append s request now monotonic =
    append_reply
      (Store.append s request.topic request.key request.value request.timestamp request.partition
        now monotonic)
      request monotonic

abbrev pub response_to : ProduceRequest → Reply (ℕ × ℤ) → Reply ProduceResponse
response_to request (done (p, offset)) =
    done (record { partition = p; offset = offset; correlation_id = request.correlation_id })
response_to request (aborted a) = aborted a

unfoldable pub produce : Store → ProduceRequest → ℤ → ℕ → Reply ProduceResponse × Store
unfolding handle_append
produce s request now monotonic =
    let (reply, s') = handle_append s request now monotonic in (response_to request reply, s')

-- The responses that were sent, how the call ended if it was aborted, and the store. The first
-- record that is refused ends it.
pub record Stream {ℓ} (A : Type ℓ) : Type ℓ where
  pub sent : List A
  pub abort : Option Abort
  pub store : Store

-- one answer, before those of the further requests
abbrev pub answer_first {ℓ} : {A : Type ℓ} → Reply A × Store → Stream A → Stream A
answer_first (done response, s) rest = record rest { sent = response ∷ rest.sent }
answer_first (aborted a, s) rest = record { sent = []; abort = some a; store = s }

unfoldable pub produce_stream : Store → List ProduceRequest → ℤ → ℕ → Stream ProduceResponse
unfolding produce
produce_stream s [] now monotonic = record { sent = []; abort = none; store = s }
produce_stream s (request ∷ requests) now monotonic =
    let first = produce s request now monotonic in
    let rest = produce_stream first.1 requests now monotonic in answer_first first rest

-- the partitions of one topic; ring.broker_for is asked twice
unfoldable pub describe_partitions : Store → Str → List ℕ → Result (List PartitionMetadata)
unfolding address_of
describe_partitions s name [] = ok []
describe_partitions s name (p ∷ ps) = do
  owner ← s.broker_for name (pos p)
  address ← address_of s.ring (pos owner)
  rest ← describe_partitions s name ps
  ok (record { partition = p; broker = owner; address = address } ∷ rest)

abbrev pub uncaught {ℓ} : {A : Type ℓ} → Result A → Reply A
uncaught (ok a) = done a
uncaught (err e) = aborted (unknown e)

abbrev pub also {ℓ} : {A : Type ℓ} → A → Reply (List A) → Reply (List A)
also a (done rest) = done (a ∷ rest)
also a (aborted b) = aborted b

-- one topic, whose number of partitions the store gave; `none` is a topic that is left out
unfoldable pub counted : Bool → Store → Str → Result ℕ → Reply (Option TopicMetadata)
unfolding describe_partitions is_value_error
counted asked s name (ok n) = uncaught (
    describe_partitions s name (range 0 n) >>= λ ps.
    ok (some (record { name = name; partitions = ps })))
counted asked s name (err unknown_topic) = if asked then aborted not_found else done none
counted asked s name (err e) = aborted (if is_value_error e then invalid_argument else unknown e)

unfoldable pub describe_topic : Bool → Store → Str → ℕ → Reply (Option TopicMetadata) × Store
unfolding partitions_of counted
describe_topic asked s name monotonic =
    let (count, t) = partitions_of s.topics name monotonic in
    let s' = record s { topics = t } in (counted asked s' name count, s')

-- an abort ends the call, a topic that was left out adds nothing
abbrev pub followed_by :
    Reply (Option TopicMetadata) × Store
    → Reply (List TopicMetadata) × Store
    → Reply (List TopicMetadata) × Store
followed_by (aborted a, s) rest = (aborted a, s)
followed_by (done none, s) rest = rest
followed_by (done (some topic), s) rest = (also topic rest.0, rest.1)

unfoldable pub describe_topics : Bool → Store → List Str → ℕ → Reply (List TopicMetadata) × Store
unfolding describe_topic
describe_topics asked s [] monotonic = (done [], s)
describe_topics asked s (name ∷ names) monotonic =
    let first = describe_topic asked s name monotonic in
    let rest = describe_topics asked first.1 names monotonic in followed_by first rest

abbrev pub names_asked : List Str → List Str → List Str
names_asked [] listed = listed
names_asked (name ∷ names) listed = name ∷ names

abbrev pub any_asked : List Str → Bool
any_asked [] = false
any_asked (name ∷ names) = true

abbrev pub response_of : Reply (List TopicMetadata) × Store → Reply MetadataResponse × Store
response_of (done ts, s) =
    (done (record { topics = ts; broker_count = s.ring.brokers; broker_id = s.ring.me }), s)
response_of (aborted a, s) = (aborted a, s)

-- Metadata(topics); `listed` is what Store.names finds on disk
unfoldable pub metadata : Store → List Str → List Str → ℕ → Reply MetadataResponse × Store
unfolding describe_topics
metadata s topics listed monotonic =
    response_of (describe_topics (any_asked topics) s (names_asked topics listed) monotonic)
