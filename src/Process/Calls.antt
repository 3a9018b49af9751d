-- ===== src/Process/Calls.antt =====
-- The calls that a broker answers while its process runs, one step of the event loop at a time.
use pyka.Common.{ℕ, List, [], ◌∷◌, Option, if◌then◌else◌}
use pyka.Common.Int.{ℤ}
use pyka.Python.Text.{Str}
use pyka.Storage.Record.{Record}
use pyka.Topic.Topics.Writing
use pyka.Broker.Messages.{ProduceRequest, ConsumeRequest}
use pyka.Broker.Store.{Store, read}
use pyka.Broker.Handler.{Reply, done, aborted, produce, metadata}
use pyka.Broker.Handler.Consume.{
  read_batch, remaining_of, limit_of, next_after, remaining_after, watched, next_step, Next, ends,
  again, waits,
}
use pyka.Broker.Admin.{create_topic, describe_topic, describe_partition, sync_topic, roll_partition}

-- A request of a gRPC client. For a stream it is what the client sends before it half-closes.
pub data Request : Type 0 where
  produces : ProduceRequest → Request
  streams : List ProduceRequest → Request
  consumes : ConsumeRequest → Request
  asks : List Str → List Str → Request

-- Where a call in flight stands. `parked` is a consumer in `waiter.wait()`.
pub data Call : Type 0 where
  producing : ProduceRequest → Call
  streaming : List ProduceRequest → Call
  consuming : ConsumeRequest → ℤ → Option ℕ → Call
  parked : ConsumeRequest → ℤ → Option ℕ → Call
  asking : List Str → List Str → Call

abbrev pub opened : Request → Call
opened (produces r) = producing r
opened (streams rs) = streaming rs
opened (consumes r) = consuming r r.offset (remaining_of r)
opened (asks topics listed) = asking topics listed

-- The call that is left, as a list of one or none.
abbrev pub after_answer {ℓ} : {A : Type ℓ} → Reply A → List ProduceRequest → List Call
after_answer (done response) rs = streaming rs ∷ []
after_answer (aborted a) rs = []

-- what a round of `Consume` does after its batch
abbrev pub after_round : Next → ConsumeRequest → ℤ → Option ℕ → List Call
after_round ends r offset left = []
after_round again r offset left = consuming r offset left ∷ []
after_round waits r offset left = parked r offset left ∷ []

abbrev pub after_read : Reply (List Record) → Store → ConsumeRequest → ℤ → Option ℕ → List Call
after_read (aborted a) s r offset remaining = []
after_read (done batch) s r offset remaining =
    let left = remaining_after remaining batch in
    after_round (next_step s r left (limit_of remaining) batch) r (next_after offset batch) left

-- One step of a call: the rest of it, if there is one, and the store. A parked consumer goes on when
-- its event is set or POLL_SECONDS have passed, which is at any time.
unfoldable pub call_step : Store → Call → ℤ → ℕ → List Call × Store
unfolding produce read_batch next_step metadata
call_step s (producing r) now monotonic = ([], (produce s r now monotonic).1)
call_step s (streaming []) now monotonic = ([], s)
call_step s (streaming (r ∷ rs)) now monotonic =
    let first = produce s r now monotonic in (after_answer first.0 rs, first.1)
call_step s (consuming r offset remaining) now monotonic =
    let reply = read_batch (watched s r) r offset (limit_of remaining) monotonic in
    (after_read reply.0 reply.1 r offset remaining, reply.1)
call_step s (parked r offset remaining) now monotonic =
    ((if s.tail.closed then [] else consuming r offset remaining ∷ []), s)
call_step s (asking topics listed) now monotonic = ([], (metadata s topics listed monotonic).1)

-- What a worker thread does for a call that was cancelled: its append or its read, without what
-- would have followed on the event loop.
unfoldable pub thread_step : Store → Call → ℤ → ℕ → Store
unfolding Writing.append read
thread_step s (producing r) now monotonic = record s {
  topics = (Writing.append s.topics r.topic r.key r.value r.timestamp r.partition now monotonic).1;
}
thread_step s (streaming []) now monotonic = s
thread_step s (streaming (r ∷ rs)) now monotonic = record s {
  topics = (Writing.append s.topics r.topic r.key r.value r.timestamp r.partition now monotonic).1;
}
thread_step s (consuming r offset remaining) now monotonic =
    (read s r.topic offset r.partition (limit_of remaining) monotonic).1
thread_step s (parked r offset remaining) now monotonic = s
thread_step s (asking topics listed) now monotonic = s

-- A request to the control plane that reaches the topics.
pub data HttpCall : Type 0 where
  creating : Str → Option ℕ → HttpCall
  describing : Str → HttpCall
  inspecting : Str → ℤ → HttpCall
  syncing : Str → HttpCall
  rolling : Str → ℤ → HttpCall

unfoldable pub http_step : Store → HttpCall → ℕ → Store
unfolding create_topic describe_topic describe_partition sync_topic roll_partition
http_step s (creating name partitions) now = (create_topic s name partitions now).1
http_step s (describing name) now = (describe_topic s name now).1
http_step s (inspecting name partition) now = (describe_partition s name partition now).1
http_step s (syncing name) now = (sync_topic s name now).1
http_step s (rolling name partition) now = (roll_partition s name partition now).1
