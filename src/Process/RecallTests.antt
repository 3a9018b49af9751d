-- ===== src/Process/RecallTests.antt =====
-- A broker that acknowledges a record, is sent another one and is told to stop.
use pyka.Common.{◌≡◌, ◌≢◌, refl, [], ◌∷◌, false, none, some, arith}
use pyka.Common.Int.{pos}
use pyka.Common.Int
use pyka.Python.Dict.{lookup}
use pyka.Python.File
use pyka.Python.Struct
use pyka.Python.Zlib
use pyka.Storage.Record
use pyka.Storage.Index
use pyka.Storage.Segment
use pyka.Storage.Log
use pyka.Storage.ChainTests.{one_log-Holds, first}
use pyka.Topic.Name.{validate_name}
use pyka.Topic.Topics.Storing.{Stored}
use pyka.Broker.Messages.{ProduceRequest, ProduceResponse}
use pyka.Broker.HandlerTests.{broker, orders, topic}
use pyka.Broker.Handler.{produce, done}
use pyka.Broker.Server.{listening}
use pyka.Process.Calls.{producing, produces, call_step}
use pyka.Process.Steps.{Process, Main, waiting, up, turned, shut_down, Step}
use pyka.Process.Recall.{Runs, here, then, IsRecalled, produced-IsRecalled}
use pyka.Process.Tests.{table}

abbrev request : ProduceRequest
request = record {
  topic = orders;
  key = none;
  value = some (7 ∷ []);
  timestamp = none;
  partition = some (pos 0);
  correlation_id = none;
}

abbrev response : ProduceResponse
response = record { partition = 0; offset = pos 1; correlation_id = none }

abbrev before : Process table
before = record {
  main = waiting;
  server = record { health = []; phase = listening };
  admin = up;
  should_exit = false;
  store = broker;
  calls = producing request ∷ [];
  http = [];
  threads = [];
  cut = false;
}

before-Stored : Stored broker.topics orders 0 (pos 0) (first ∷ [])
unfolding validate_name lookup
before-Stored = record {
  valid = refl;
  topic = topic;
  opened = refl;
  entry = _;
  inside = omega arith;
  here = refl;
  carries = record { parts = []; last = first ∷ []; holds = one_log-Holds; all = refl };
}

answered : (produce broker request (pos 5) 0).0 ≡ done response
unfolding produce Log.open_log Log.roll Segment.open_segment Record.read_one File.read File.open_at
    Segment.has_room_for Segment.append Record.encode Struct.pack_signed Struct.fits_signed
    Struct.pack_u32 Zlib.crc32 Struct.signed_bytes Record.size Index.maybe_append Index.clear
    Index.open_index Int.◌+ℤ◌ Int.◌-ℤ◌ Struct.to_bytes Index.add_entry Log.append
    Segment.index_record Segment.write_record Segment.close Segment.sync Index.close Index.sync
answered = refl

abbrev stored : Process table
stored = turned table before [] (producing request) [] (pos 5) 0

abbrev again : Process table
again =
    turned table (record stored { calls = producing request ∷ stored.calls }) [] (producing request)
      [] (pos 6) 0

waiting-ne-finished : waiting ≢ Main.finished
waiting-ne-finished h = cc

draining-ne-finished : Main.draining ≢ Main.finished
draining-ne-finished h = cc

stored-Runs : Runs table stored (shut_down table again)
unfolding turned call_step shut_down
stored-Runs =
    then
      (then (then here (Step.arrives refl (produces request)) waiting-ne-finished)
        (Step.turns [] (producing request) [] (pos 6) 0 refl) waiting-ne-finished)
      (Step.signalled refl) draining-ne-finished

produced-IsRecalled_example : IsRecalled (shut_down table again).store request response 9 0
produced-IsRecalled_example =
    produced-IsRecalled table before (shut_down table again) [] [] request (pos 5) 0 9 0 response
      (pos 0) (first ∷ []) before-Stored answered stored-Runs
