-- ===== src/Client/Consumer.antt =====
-- src/pyka/client.py, class Consumer: the records of one partition.
pub mod Delivers
use pyka.Common.{
  ℕ, zero, suc, List, [], ◌∷◌, map, Bool, false, true, Option, none, some, Result, ok, err, Error,
  value_error, ltb, leb, if◌then◌else◌,
}
use pyka.Common.Int.{ℤ, pos}
use pyka.Python.Struct.{Bytes}
use pyka.Python.Text.{Str}
use pyka.Broker.Messages.{ConsumeRequest, Message}
use pyka.Client.Network.{Status, not_found, failed_precondition, cancelled, Network, Replies}
use pyka.Client.Connection.{
  Failure, unknown_topic, pyka_error, Outcome, returned, raises, running, Routing, Connection,
  Method, ◌>>=◌, returning, raising, python, stub, calling, routing, await_topic,
}
use pyka.Client.Producer.{address_in}

-- A record as a consumer sees it.
pub record Record : Type 0 where
  pub topic : Str
  pub partition : ℕ
  pub offset : ℤ
  pub timestamp : ℤ
  pub key : Option Bytes
  pub value : Option Bytes

unfoldable pub is_tombstone : Record → Bool
is_tombstone r = elim r.value [ none ↦ true | some v ↦ false ]

-- `_record`
abbrev pub record_of : Str → ℕ → Message → Record
record_of topic partition message = record {
  topic = topic;
  partition = partition;
  offset = message.offset;
  timestamp = message.timestamp;
  key = message.key;
  value = message.value;
}

-- The arguments of `consume`; `wait_for_topic` is in milliseconds.
pub record Reading : Type 0 where
  pub topic : Str
  pub partition : ℕ
  pub offset : ℤ
  pub follow : Bool
  pub limit : ℕ
  pub wait_for_topic : ℕ

unfoldable pub request_for : Reading → ConsumeRequest
request_for r = record {
  topic = r.topic;
  partition = pos r.partition;
  offset = r.offset;
  follow = r.follow;
  max_records = r.limit;
}

-- `except grpc.RpcError`: the routing is read again for the next call, and the error is raised
unfoldable pub end_of : {W : Type 0} → Network W → Str → Option Status → Method W (Unit {0})
unfolding routing
end_of net topic none = returning tt
end_of net topic (some not_found) = raising unknown_topic
end_of net topic (some failed_precondition) = routing net topic true >>= λ r. raising pyka_error
end_of net topic (some cancelled) = returning tt
end_of net topic (some status) = raising pyka_error

-- the generator: the records that it yields, and then how it ends
abbrev pub Yielding : Type 0 → Type 0
Yielding W = Connection × W → List Record × (Outcome (Unit {0}) × (Connection × W))

abbrev pub yield_from :
    {W : Type 0}
    → Network W
    → Reading
    → Outcome (Replies Message) × (Connection × W)
    → List Record × (Outcome (Unit {0}) × (Connection × W))
unfolding end_of
yield_from net r (returned replies, s) =
    (map (record_of r.topic r.partition) replies.yielded, end_of net r.topic replies.broken s)
yield_from net r (raises e, s) = ([], (raises e, s))
yield_from net r (running, s) = ([], (running, s))

-- `if wait_for_topic > 0`
unfoldable pub wait_first : {W : Type 0} → Network W → Reading → ℕ → Method W (Unit {0})
unfolding await_topic
wait_first net r rounds s =
    if ltb 0 r.wait_for_topic
    then (await_topic net r.topic r.wait_for_topic rounds >>= λ _. returning tt) s
    else returning tt s

-- `consume` up to the call; the number is that of the rounds of `await_topic`
unfoldable pub open_stream : {W : Type 0} → Network W → Reading → ℕ → Method W (Replies Message)
unfolding wait_first routing address_in stub request_for
open_stream net r rounds = do
  _ ← wait_first net r rounds
  now_routing ← routing net r.topic false
  address ← python (address_in now_routing r.partition)
  calling address (net.consume address (request_for r))

unfoldable pub consume : {W : Type 0} → Network W → Reading → ℕ → Yielding W
unfolding open_stream end_of
consume net r rounds s = yield_from net r (open_stream net r rounds s)

-- sorted(...), on the keys of a dictionary
abbrev insert : ℕ → List ℕ → List ℕ
insert p [] = p ∷ []
insert p (q ∷ qs) = let rest = insert p qs in if leb p q then p ∷ q ∷ qs else q ∷ rest

unfoldable pub sorted_keys : Routing → List ℕ
unfolding insert
sorted_keys [] = []
sorted_keys ((p, address) ∷ r) = insert p (sorted_keys r)

unfoldable pub partitions : {W : Type 0} → Network W → Str → Method W (List ℕ)
unfolding routing sorted_keys
partitions net topic = routing net topic false >>= λ r. returning (sorted_keys r)
