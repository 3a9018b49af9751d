-- ===== src/Broker/Handler/Consume.antt =====
-- src/pyka/broker/handler.py, `Consume` with `_read`: a stream of records, read a batch at a time.
use pyka.Common.{
  ℕ, ◌-◌, List, [], ◌∷◌, ◌++◌, Bool, false, Option, none, some, Result, ok, err, Error,
  unknown_topic, partition_not_local, offset_out_of_range, is_value_error, ◌==◌, if◌then◌else◌, leb,
  length, get_last?, map,
}
use pyka.Common.Int.{ℤ, pos, ◌+ℤ◌}
use pyka.Storage.Record.{Record}
use pyka.Broker.Messages.{ConsumeRequest, Message}
use pyka.Broker.Tail.{subscribe}
use pyka.Broker.Store.{Store}
use pyka.Broker.Store
use pyka.Broker.Handler.{
  Abort, invalid_argument, not_found, out_of_range, unknown, Reply, done, aborted, point_to_owner,
}

abbrev pub batch_size : ℕ
batch_size = 500

-- `_to_proto`
abbrev pub to_proto : Record → Message
to_proto r = record { offset = r.offset; timestamp = r.timestamp; key = r.key; value = r.value }

-- the `except` clauses of `_read`
unfoldable pub refuse_read : Store → ConsumeRequest → Error → Abort
unfolding point_to_owner is_value_error
refuse_read s request unknown_topic = not_found
refuse_read s request partition_not_local = point_to_owner s request.topic request.partition
refuse_read s request offset_out_of_range = out_of_range
refuse_read s request e = if is_value_error e then invalid_argument else unknown e

unfoldable pub read_reply :
    Result (List Record) × Store → ConsumeRequest → Reply (List Record) × Store
unfolding refuse_read
read_reply (ok batch, s) request = (done batch, s)
read_reply (err e, s) request = (aborted (refuse_read s request e), s)

-- `_read`
unfoldable pub read_batch : Store → ConsumeRequest → ℤ → ℕ → ℕ → Reply (List Record) × Store
unfolding read_reply Store.read
read_batch s request offset limit now =
    read_reply (Store.read s request.topic offset request.partition limit now) request

-- `remaining` at the start
abbrev pub remaining_of : ConsumeRequest → Option ℕ
remaining_of request =
    if request.follow
    then none
    else if request.max_records == 0
    then none
    else some request.max_records

-- BATCH if remaining is None else min(BATCH, remaining)
abbrev pub limit_of : Option ℕ → ℕ
limit_of none = batch_size
limit_of (some n) = if leb batch_size n then batch_size else n

-- offset = batch[-1].offset + 1, where there is a batch
abbrev pub next_after : ℤ → List Record → ℤ
next_after offset batch = elim (get_last? batch) [ none ↦ offset | some r ↦ r.offset +ℤ pos 1 ]

abbrev pub remaining_after : Option ℕ → List Record → Option ℕ
remaining_after none batch = none
remaining_after (some n) batch = some (n - length batch)

abbrev pub is_used_up : Option ℕ → Bool
is_used_up none = false
is_used_up (some n) = n == 0

-- How a stream ends; `running` is one that was still open when it was last looked at.
pub data Ending : Type 0 where
  finished : Ending
  stopped : Abort → Ending
  running : Ending

-- The records that were sent, how it ended, and the store at that time.
pub record Consumption : Type 0 where
  pub records : List Record
  pub ending : Ending
  pub store : Store

-- Before the read of a round: a consumer that follows subscribes first.
abbrev pub watched : Store → ConsumeRequest → Store
watched s request =
    if request.follow
    then record s { tail = (subscribe s.tail (request.topic, request.partition)).1 }
    else s

-- what a round does after its batch: it ends the stream, goes on at once, or waits for an append
pub data Next : Type 0 where
  ends : Next
  again : Next
  waits : Next

unfoldable pub next_step : Store → ConsumeRequest → Option ℕ → ℕ → List Record → Next
next_step s request remaining limit batch =
    if is_used_up remaining
    then ends
    else if length batch == limit
    then again
    else if request.follow
    then (if s.tail.closed then ends else waits)
    else ends

abbrev pub closed_while : Next → Store → Bool
closed_while ends s = false
closed_while again s = false
closed_while waits s = s.tail.closed

abbrev pub prepend : List Record → Consumption → Consumption
prepend batch c = record c { records = batch ++ c.records }

-- a read that failed ends the stream
abbrev pub after_reply :
    Reply (List Record) × Store → (List Record → Store → Consumption) → Consumption
after_reply (aborted a, t) goes_on = record { records = []; ending = stopped a; store = t }
after_reply (done batch, t) goes_on = goes_on batch t

-- the batch is sent, and the loop ends or has its other rounds
abbrev pub after_batch : Next → List Record → Store → Consumption → Consumption
after_batch ends batch t rest = record { records = batch; ending = finished; store = t }
after_batch again batch t rest = prepend batch rest
after_batch waits batch t rest = prepend batch rest

-- The loop. Each element of the list is one more round: what the other connections do to the store
-- from the end of the round before it, and while the consumer waits, to its own beginning. `before`
-- says what the round before it left the loop to do.
unfoldable pub consume_loop :
    List (Store → Store) → Next → Store → ConsumeRequest → ℤ → Option ℕ → ℕ → Consumption
unfolding read_batch subscribe next_step
consume_loop [] before s request offset remaining now = record {
  records = [];
  ending = running;
  store = s;
}
consume_loop (others ∷ rounds) before s request offset remaining now =
    let s' = others s in
    let limit = limit_of remaining in
    let round = after_reply (read_batch (watched s' request) request offset limit now) (λ batch t.
      let left = remaining_after remaining batch in
      let step = next_step t request left limit batch in
      after_batch step batch t
        (consume_loop rounds step t request (next_after offset batch) left now)) in
    if closed_while before s' then record { records = []; ending = finished; store = s' } else round

-- `Consume`
unfoldable pub consume : List (Store → Store) → Store → ConsumeRequest → ℕ → Consumption
unfolding consume_loop
consume rounds s request now =
    consume_loop rounds again s request request.offset (remaining_of request) now

-- What the stream carries.
abbrev pub messages : Consumption → List Message
messages c = map to_proto c.records
