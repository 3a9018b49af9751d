-- ===== src/Client/Connection.antt =====
-- src/pyka/client.py, class _Connection: channels, the cached routing, and the partitioner.
pub mod Steady
pub mod Agreement
pub mod Awaiting
use pyka.Common.{
  ℕ, zero, suc, ◌+◌, ◌*◌, List, [], ◌∷◌, ◌++◌, Bool, true, false, Option, none, some, Result, ok,
  err, Error, value_error, index_error, leb, if◌then◌else◌, length,
}
use pyka.Python.Dict.{lookup, store}
use pyka.Python.Struct.{Bytes}
use pyka.Python.Text.{Str}
use pyka.Topic.Partitioner.{Partitioner}
use pyka.Topic.Partitioner
use pyka.Topic.Topics.{eq_str, eq_number}
use pyka.Broker.Messages.{PartitionMetadata, TopicMetadata, MetadataResponse}
use pyka.Client.Network.{Status, not_found, Answer, answered, failed, Network}

-- The exceptions that a caller sees. `delivery_failed` carries topic, key and value of what was not
-- delivered, `rpc_error` is a grpc.RpcError that nobody caught, `raised` an exception of Python.
pub data Failure : Type 0 where
  unknown_topic : Failure
  pyka_error : Failure
  delivery_failed : List (Str × (Option Bytes × Option Bytes)) → Failure
  rpc_error : Status → Failure
  raised : Error → Failure

-- What a call came to; `running` is one that was still going round its loop.
pub data Outcome {ℓ} (A : Type ℓ) : Type ℓ where
  returned : A → Outcome A
  raises : Failure → Outcome A
  running : Outcome A

-- partition -> broker address
abbrev pub Routing : Type 0
Routing = List (ℕ × Str)

-- `channels` are the addresses that have one.
pub record Connection : Type 0 where
  pub bootstrap : List Str
  pub channels : List Str
  pub routings : List (Str × Routing)
  pub partitioner : Partitioner

unfoldable pub make_connection : List Str → Result Connection
make_connection [] = err value_error
make_connection (a ∷ more) = ok (record {
  bootstrap = a ∷ more;
  channels = [];
  routings = [];
  partitioner = record { next = 0 };
})

-- A method: it changes the connection and the world.
abbrev pub Method : Type 0 → Type 0 → Type 0
Method W A = Connection × W → Outcome A × (Connection × W)

-- An exception, and a loop that still runs, keep what follows from happening.
abbrev pub and_then :
    {W A B : Type 0}
    → Outcome A × (Connection × W)
    → (A → Method W B)
    → Outcome B × (Connection × W)
and_then (returned a, s) rest = rest a s
and_then (raises e, s) rest = (raises e, s)
and_then (running, s) rest = (running, s)

infixl 5 ◌>>=◌
abbrev pub ◌>>=◌ : {W A B : Type 0} → Method W A → (A → Method W B) → Method W B
(method >>= rest) s = and_then (method s) rest

abbrev pub returning : {W A : Type 0} → A → Method W A
returning a s = (returned a, s)

abbrev pub raising : {W A : Type 0} → Failure → Method W A
raising e s = (raises e, s)

-- An exception of Python.
abbrev pub python : {W A : Type 0} → Result A → Method W A
python (ok a) = returning a
python (err e) = raising (raised e)

abbrev pub among : Str → List Str → Bool
among a [] = false
among a (b ∷ bs) = if eq_str b a then true else among a bs

-- the channels with one to the address
unfoldable pub stub : Str → List Str → List Str
stub address channels = if among address channels then channels else channels ++ (address ∷ [])

-- self._stub(address) and one call of it
abbrev pub calling : {W A : Type 0} → Str → (W → A × W) → Method W A
unfolding stub
calling address call (c, w) =
    let (reply, w') = call w in
    (returned reply, (record c { channels = stub address c.channels }, w'))

-- {p.partition: p.address for p in partitions}
unfoldable pub add_partitions : Routing → List PartitionMetadata → Routing
unfolding store
add_partitions r [] = r
add_partitions r (p ∷ ps) = add_partitions (store eq_number r p.partition p.address) ps

-- response.topics[0].partitions
unfoldable pub routing_in : List TopicMetadata → Result Routing
unfolding add_partitions
routing_in [] = err index_error
routing_in (t ∷ ts) = ok (add_partitions [] t.partitions)

-- What the loop does with the answer of one broker; `next` are its further rounds.
abbrev pub take_answer :
    {W : Type 0} → Method W Routing → Answer MetadataResponse → Method W Routing
unfolding routing_in
take_answer next (answered response) = python (routing_in response.topics)
take_answer next (failed not_found) = raising unknown_topic
take_answer next (failed status) = next

unfoldable pub fetch_from : {W : Type 0} → Network W → Str → List Str → Method W Routing
unfolding stub routing_in
fetch_from net topic [] = raising pyka_error
fetch_from net topic (address ∷ addresses) =
    calling address (net.metadata address (topic ∷ []))
    >>= take_answer (fetch_from net topic addresses)

-- `_fetch_routing`
unfoldable pub fetch_routing : {W : Type 0} → Network W → Str → Method W Routing
unfolding fetch_from
fetch_routing net topic (c, w) = fetch_from net topic c.bootstrap (c, w)

-- self._routing[topic] = r
abbrev pub remember : {W : Type 0} → Str → Routing → Method W Routing
unfolding store
remember topic r (c, w) = (returned r, (record c { routings = store eq_str c.routings topic r }, w))

abbrev pub cached_or : {W : Type 0} → Method W Routing → Bool → Option Routing → Method W Routing
cached_or fetch refresh none = fetch
cached_or fetch true (some r) = fetch
cached_or fetch false (some r) = returning r

unfoldable pub routing : {W : Type 0} → Network W → Str → Bool → Method W Routing
unfolding fetch_routing lookup store
routing net topic refresh (c, w) =
    cached_or (fetch_routing net topic >>= remember topic) refresh (lookup eq_str c.routings topic)
      (c, w)

-- `except UnknownTopic`: raise when the time is over, sleep and go round again before
abbrev pub wait_on_unknown :
    {W : Type 0}
    → Network W
    → ℕ
    → ℕ
    → Method W Routing
    → Outcome Routing × (Connection × W)
    → Outcome Routing × (Connection × W)
wait_on_unknown net deadline delay again (raises unknown_topic, (c, w)) =
    if leb deadline (net.monotonic w)
    then (raises unknown_topic, (c, w))
    else again (c, net.sleep delay w)
wait_on_unknown net deadline delay again outcome = outcome

abbrev pub doubled : ℕ → ℕ → ℕ
doubled most delay = if leb (delay * 2) most then delay * 2 else most

-- the loop of `await_topic`; the first number is that of the rounds
unfoldable pub await_loop : {W : Type 0} → Network W → Str → ℕ → ℕ → ℕ → Method W Routing
unfolding routing
await_loop net topic zero deadline delay s = (running, s)
await_loop net topic (suc rounds) deadline delay s =
    wait_on_unknown net deadline delay (await_loop net topic rounds deadline (doubled 2000 delay))
      (routing net topic true s)

unfoldable pub await_topic : {W : Type 0} → Network W → Str → ℕ → ℕ → Method W Routing
unfolding await_loop
await_topic net topic timeout rounds (c, w) =
    await_loop net topic rounds (net.monotonic w + timeout) 250 (c, w)

-- self._partitioner.partition_for(key, count)
unfoldable pub choose : {W : Type 0} → Option Bytes → ℕ → Method W ℕ
unfolding Partitioner.partition_for
choose key count (c, w) =
    let (p, partitioner) = Partitioner.partition_for c.partitioner key count in
    python p (record c { partitioner = partitioner }, w)

unfoldable pub partition_for : {W : Type 0} → Network W → Str → Option Bytes → Method W ℕ
unfolding routing choose
partition_for net topic key = routing net topic false >>= λ r. choose key (length r)

unfoldable pub close : Connection → Connection
close c = record c { channels = [] }
