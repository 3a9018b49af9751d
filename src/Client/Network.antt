-- ===== src/Client/Network.antt =====
-- What src/pyka/client.py calls and does not define: the brokers behind their addresses, the clock
-- and `sleep`. It is a parameter of the client; `W` is the state of the world.
use pyka.Common.{ℕ, List, Option, none, some}
use pyka.Python.Text.{Str}
use pyka.Broker.Messages.{
  ProduceRequest, ProduceResponse, ConsumeRequest, Message, MetadataResponse,
}
use pyka.Broker.Handler.{
  Abort, invalid_argument, out_of_range, moved, unknown, Reply, done, aborted,
}
use pyka.Broker.Handler.Consume.{Ending, finished, stopped, Consumption, messages}

-- `err.code()`: the codes that the client looks at, and the number of any other.
pub data Status : Type 0 where
  not_found : Status
  failed_precondition : Status
  unavailable : Status
  cancelled : Status
  other_code : ℕ → Status

-- A call returns a message or raises grpc.RpcError.
pub data Answer {ℓ} (A : Type ℓ) : Type ℓ where
  answered : A → Answer A
  failed : Status → Answer A

-- What a stream yields, and the RpcError that ends it, if one does.
pub record Replies {ℓ} (A : Type ℓ) : Type ℓ where
  pub yielded : List A
  pub broken : Option Status

-- Each call is given the address of the broker first. Times are in milliseconds.
pub record Network (W : Type 0) : Type 0 where
  pub metadata : Str → List Str → W → Answer MetadataResponse × W
  pub produce : Str → ProduceRequest → W → Answer ProduceResponse × W
  pub produce_stream : Str → List ProduceRequest → W → Replies ProduceResponse × W
  pub consume : Str → ConsumeRequest → W → Replies Message × W
  pub monotonic : W → ℕ
  pub sleep : ℕ → W → W

-- The codes with which gRPC carries how a call of a broker was ended.
abbrev pub code_of : Abort → Status
code_of invalid_argument = other_code 3
code_of Abort.not_found = Status.not_found
code_of out_of_range = other_code 11
code_of (moved partition owner address) = failed_precondition
code_of (unknown e) = other_code 2

abbrev pub answer_of {ℓ} : {A : Type ℓ} → Reply A → Answer A
answer_of (done a) = answered a
answer_of (aborted abort) = failed (code_of abort)

-- The error that ends a stream, as the client sees it; a stream that is still open has none.
abbrev pub broken_by : Ending → Option Status
broken_by finished = none
broken_by (stopped abort) = some (code_of abort)
broken_by Ending.running = none

abbrev pub replies_of : Consumption → Replies Message
replies_of c = record { yielded = messages c; broken = broken_by c.ending }
