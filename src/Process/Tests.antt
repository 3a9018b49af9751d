-- ===== src/Process/Tests.antt =====
-- A process from its start to its end, with a consumer that follows and a producer's stream.
use pyka.Common.{
  ℕ, ◌≡◌, ◌≢◌, refl, [], ◌∷◌, true, false, none, some, List, Option, inl, inr, Bool-cases,
}
use pyka.Common.Int.{ℤ, pos}
use pyka.Python.Dict.{lookup, store, lookup-store, lookup-store_other}
use pyka.Python.Text.{Str}
use pyka.Python.File
use pyka.Storage.Record
use pyka.Python.Bisect
use pyka.Storage.Index
use pyka.Broker.Tail
use pyka.Storage.Segment
use pyka.Storage.Log
use pyka.Topic.Topics.{eq_str}
use pyka.Topic.Topics.Creation.{eq_str_refl, eq_str-eq}
use pyka.Topic.Topics.{create}
use pyka.Cluster.Ring
use pyka.Broker.Messages.{ConsumeRequest}
use pyka.Broker.Store.{Store}
use pyka.Broker.HandlerTests.{broker, orders}
use pyka.Broker.Admin.{readyz}
use pyka.Broker.Server.{HealthService, Status, serving, overall, Shows, status_of}
use pyka.Process.Calls.{Call, opened, consumes, streams, parked, call_step}
use pyka.Process.Steps.{
  Process, begin, started, opening, recovered, judged, shut_down, stops, stop_returns, gathered,
  closed, turned, up, ended, AdminMove, waiting, Step, Reach, here, then,
}
use pyka.Process.Probes.{advertised-IsReady, probes_agree}
use pyka.Process.Shutdown.Quiet.{IsQuiet, LeavesStore, Reach-IsQuiet, over-LeavesStore}
use pyka.Process.Shutdown.Released.{Unparked, shut-released}
use pyka.Process.Shutdown.Finishing.{Ends, draining-Ends}

pub differs : (a b : Str) → a ≢ b → eq_str a b ≡ false
differs a b h = elim (Bool-cases (eq_str a b)) [
  | inl same ↦ absurd (h (eq_str-eq a b same))
  | inr other ↦ other
]

-- a health service that keeps a dictionary, and says SERVING at first
abbrev pub table : HealthService
table = record {
  State = List (Str × Status);
  initial = (overall, serving) ∷ [];
  set = store eq_str;
  check = lookup eq_str;
  check-set = λ h name st. lookup-store eq_str h name st (eq_str_refl name);
  check-set_other = λ h name name' st ne.
      lookup-store_other eq_str eq_str-eq h name name' st (differs name name' ne);
}

abbrev unopened : Store
unopened = record broker { ready = false; topics = record broker.topics { opened = [] } }

abbrev p0 : Process table
p0 = begin table unopened

abbrev listening : Process table
listening = record (started table p0) { admin = up }

abbrev names : List (Str × List ℕ)
names = (orders, 0 ∷ []) ∷ []

abbrev recovering : Process table
recovering = opening table listening names

abbrev recovered_one : Process table
recovered_one = recovered table recovering (orders, 0 ∷ []) [] names 0

abbrev served : Process table
served = judged table recovered_one names

served-Reach : Reach table unopened served
unfolding begin started opening recovered create judged Log.open_log Segment.open_segment
    Record.read_one File.read File.open_at Ring.broker_for
served-Reach =
    then
      (then
        (then (then (then here (Step.starts refl)) (Step.admin_moves up AdminMove.binds))
          (Step.opens refl refl names))
        (Step.recovers (orders, 0 ∷ []) [] names 0 refl))
      (Step.judges names refl)

served_advertised : table.check served.server.health overall ≡ some serving
unfolding begin started opening recovered create judged Log.open_log Segment.open_segment
    Record.read_one File.read File.open_at Ring.broker_for
served_advertised = refl

advertised-IsReady_example : (served.main ≡ waiting) × (readyz served.store ≡ (200, true))
unfolding begin started opening recovered create judged Log.open_log Segment.open_segment
    Record.read_one File.read File.open_at Ring.broker_for
advertised-IsReady_example =
    advertised-IsReady table {s = unopened} {p = served} refl served-Reach refl (inl refl)

probes_agree_example : Shows table served.server (status_of (readyz served.store).1)
unfolding begin started opening recovered create judged Log.open_log Segment.open_segment
    Record.read_one File.read File.open_at Ring.broker_for
probes_agree_example =
    probes_agree table {s = unopened} {p = served} refl served-Reach refl (λ h. cc)

-- A consumer that follows, from the end of an empty partition.
abbrev following : ConsumeRequest
following = record {
  topic = orders;
  partition = pos 0;
  offset = pos 0;
  follow = true;
  max_records = 0;
}

abbrev called : Process table
called = record served { calls = opened (consumes following) ∷ [] }

abbrev parked_one : Process table
parked_one = turned table called [] (opened (consumes following)) [] (pos 0) 0

abbrev asked : Process table
asked = record parked_one { calls = opened (streams []) ∷ parked_one.calls }

abbrev shutting : Process table
shutting = shut_down table asked

parked_calls : parked_one.calls ≡ parked following (pos 0) none ∷ []
unfolding begin started opening recovered create judged turned call_step Log.open_log
    Segment.open_segment Record.read_one File.read File.open_at Ring.broker_for Log.read_from
    Bisect.bisect_right Segment.read_from Index.lookup Index.clear Segment.iter_loop Tail.subscribe
parked_calls = refl

shutting-Reach : Reach table unopened shutting
unfolding begin started opening recovered create judged turned shut_down Log.open_log
    Segment.open_segment Record.read_one File.read File.open_at Ring.broker_for
shutting-Reach =
    then
      (then
        (then (then served-Reach (Step.arrives refl (consumes following)))
          (Step.turns [] (opened (consumes following)) [] (pos 0) 0 refl))
        (Step.arrives refl (streams [])))
      (Step.signalled refl)

shut-released_example :
    ((c : Call) → Unparked (call_step shutting.store c (pos 0) 0).0)
    × ((r : ConsumeRequest) (offset : ℤ) (remaining : Option ℕ)
        → (call_step shutting.store (parked r offset remaining) (pos 0) 0).0 ≡ [])
unfolding shut_down
shut-released_example =
    shut-released table {s = unopened} {p = shutting} refl shutting-Reach refl (pos 0) 0

draining-Ends_example : Ends table shutting
unfolding begin started opening recovered create judged turned call_step shut_down Log.open_log
    Segment.open_segment Record.read_one File.read File.open_at Ring.broker_for Log.read_from
    Bisect.bisect_right Segment.read_from Index.lookup Index.clear Segment.iter_loop Tail.subscribe
draining-Ends_example =
    draining-Ends table {s = unopened} {p = shutting} refl shutting-Reach refl refl
      (refl, (refl, tt))

abbrev drained : Process table
drained = stop_returns table (stops table (shut_down table served)) []

abbrev over : Process table
over = gathered table (record drained { admin = ended none })

over-Reach : Reach table unopened over
unfolding begin started opening recovered create judged shut_down stops stop_returns gathered
over-Reach =
    then
      (then
        (then (then (then served-Reach (Step.signalled refl)) (Step.refuses refl refl))
          (Step.drains refl refl))
        (Step.admin_moves (ended none) AdminMove.leaves))
      (Step.gathers refl refl refl)

over-IsQuiet : IsQuiet table over
unfolding gathered
over-IsQuiet = Reach-IsQuiet table {s = unopened} {p = over} refl over-Reach refl

over-LeavesStore_example : LeavesStore table over (closed table over)
unfolding begin started opening recovered create judged shut_down stops stop_returns gathered
over-LeavesStore_example =
    over-LeavesStore table {s = unopened} {p = over} {q = closed table over} refl over-Reach refl
      refl (Step.closes refl)
