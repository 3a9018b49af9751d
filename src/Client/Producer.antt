-- ===== src/Client/Producer.antt =====
-- src/pyka/client.py, class Producer: sending records to the brokers that own their partitions.
pub mod Delivery
pub mod Routed
pub mod Fresh
pub mod Due
pub mod Batches
use pyka.Common.{
  ℕ, zero, suc, ◌+◌, List, [], ◌∷◌, ◌++◌, map, Bool, false, true, Option, none, some, Result, ok,
  err, Error, key_error, leb, if◌then◌else◌,
}
use pyka.Common.Int.{ℤ, pos}
use pyka.Python.Dict.{lookup, store}
use pyka.Python.Struct.{Bytes}
use pyka.Python.Text.{Str}
use pyka.Topic.Topics.{eq_str, eq_number}
use pyka.Broker.Messages.{ProduceRequest, ProduceResponse}
use pyka.Client.Network.{
  Status, not_found, failed_precondition, unavailable, Answer, answered, failed, Network, Replies,
}
use pyka.Client.Connection.{
  Failure, unknown_topic, pyka_error, delivery_failed, rpc_error, Routing, Connection, Method,
  ◌>>=◌, returning, raising, python, stub, calling, routing, partition_for, doubled, Outcome,
  running,
}

-- Producer(delivery_timeout, retry_backoff), in milliseconds
pub record Producer : Type 0 where
  pub delivery_timeout : ℕ
  pub retry_backoff : ℕ

-- What is sent: the arguments of `send`.
pub record Sending : Type 0 where
  pub topic : Str
  pub value : Option Bytes
  pub key : Option Bytes
  pub timestamp : Option ℤ

unfoldable pub request_for : Sending → ℕ → ProduceRequest
request_for r partition = record {
  topic = r.topic;
  key = r.key;
  value = r.value;
  timestamp = r.timestamp;
  partition = some (pos partition);
  correlation_id = none;
}

-- routing[partition]
abbrev pub found : Option Str → Result Str
found none = err key_error
found (some address) = ok address

unfoldable pub address_in : Routing → ℕ → Result Str
unfolding lookup
address_in r partition = found (lookup eq_number r partition)

-- `_handle`
unfoldable pub handle : {W : Type 0} → Network W → Str → Status → Method W (Unit {0})
unfolding routing
handle net topic failed_precondition = routing net topic true >>= λ r. returning tt
handle net topic unavailable = returning tt
handle net topic not_found = raising unknown_topic
handle net topic status = raising pyka_error

-- the end of the `except` block: the deadline, or a pause and another round
abbrev pub retry : {W : Type 0} → Network W → Sending → ℕ → ℕ → Method W (ℕ × ℤ) → Method W (ℕ × ℤ)
retry net r deadline backoff again (c, w) =
    if leb deadline (net.monotonic w)
    then raising (delivery_failed ((r.topic, (r.key, r.value)) ∷ [])) (c, w)
    else again (c, net.sleep backoff w)

abbrev pub take_response :
    {W : Type 0}
    → Network W
    → Sending
    → ℕ
    → ℕ
    → Method W (ℕ × ℤ)
    → Answer ProduceResponse
    → Method W (ℕ × ℤ)
unfolding handle
take_response net r deadline backoff again (answered response) =
    returning (response.partition, response.offset)
take_response net r deadline backoff again (failed status) =
    handle net r.topic status >>= λ _. retry net r deadline backoff again

-- a round of the loop up to the answer: the partition, its broker, and the call
unfoldable pub attempt : {W : Type 0} → Network W → Sending → Method W (Answer ProduceResponse)
unfolding partition_for routing address_in stub request_for
attempt net r = do
  partition ← partition_for net r.topic r.key
  now_routing ← routing net r.topic false
  address ← python (address_in now_routing partition)
  calling address (net.produce address (request_for r partition))

-- The loop; the first number is that of the rounds.
unfoldable pub send_loop : {W : Type 0} → Network W → Sending → ℕ → ℕ → ℕ → Method W (ℕ × ℤ)
unfolding attempt handle
send_loop net r zero deadline backoff s = (running, s)
send_loop net r (suc rounds) deadline backoff s =
    (attempt net r
        >>= take_response net r deadline backoff
            (send_loop net r rounds deadline (doubled 4000 backoff)))
      s

unfoldable pub send : {W : Type 0} → Network W → Producer → Sending → ℕ → Method W (ℕ × ℤ)
unfolding send_loop
send net p r rounds (c, w) =
    send_loop net r rounds (net.monotonic w + p.delivery_timeout) p.retry_backoff (c, w)

-- The requests for each address, in the order of the addresses' first records.
abbrev pub Groups : Type 0
Groups = List (Str × List ProduceRequest)

abbrev pub requests_of : Option (List ProduceRequest) → List ProduceRequest
requests_of none = []
requests_of (some requests) = requests

-- grouped.setdefault(address, []).append(request)
unfoldable pub add_request : Groups → Str → ProduceRequest → Groups
unfolding lookup store
add_request groups address request =
    store eq_str groups address (requests_of (lookup eq_str groups address) ++ (request ∷ []))

-- a pair of key and value, as a record for `topic` without a timestamp
abbrev pub pair_for : Str → Option Bytes × Option Bytes → Sending
pair_for topic (key, value) = record { topic = topic; value = value; key = key; timestamp = none }

-- the loop over the records; `r` is the routing that was read before it
unfoldable pub group :
    {W : Type 0}
    → Network W
    → Str
    → Routing
    → List (Option Bytes × Option Bytes)
    → Groups
    → Method W Groups
unfolding partition_for address_in add_request request_for
group net topic r [] groups = returning groups
group net topic r (pair ∷ pairs) groups = do
  partition ← partition_for net topic pair.0
  address ← python (address_in r partition)
  group net topic r pairs (add_request groups address (request_for (pair_for topic pair) partition))

abbrev pub result_of : ProduceResponse → ℕ × ℤ
result_of response = (response.partition, response.offset)

-- an RpcError in the middle of a stream is not caught
abbrev pub take_replies :
    {W : Type 0}
    → List (ℕ × ℤ)
    → (List (ℕ × ℤ) → Method W (List (ℕ × ℤ)))
    → Option Status
    → List ProduceResponse
    → Method W (List (ℕ × ℤ))
take_replies results rest (some status) responses = raising (rpc_error status)
take_replies results rest none responses = rest (results ++ map result_of responses)

unfoldable pub stream_groups :
    {W : Type 0} → Network W → Groups → List (ℕ × ℤ) → Method W (List (ℕ × ℤ))
unfolding stub
stream_groups net [] results = returning results
stream_groups net ((address, requests) ∷ groups) results =
    calling address (net.produce_stream address requests) >>= λ replies.
    take_replies results (stream_groups net groups) replies.broken replies.yielded

unfoldable pub send_batch :
    {W : Type 0} → Network W → Str → List (Option Bytes × Option Bytes) → Method W (List (ℕ × ℤ))
unfolding routing group stream_groups
send_batch net topic pairs = do
  r ← routing net topic false
  groups ← group net topic r pairs []
  stream_groups net groups []
