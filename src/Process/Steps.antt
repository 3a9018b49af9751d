-- ===== src/Process/Steps.antt =====
-- src/pyka/cli/broker.py, `serve`: the process of a broker, between two awaits a step.
-- uvicorn's server and the event loop are not the repository's code. Of the first the model has
-- whether it has bound its port and how it ended; the second runs any step that is possible.
use pyka.Common.{
  ℕ, List, [], ◌∷◌, ◌++◌, Bool, true, false, Option, none, some, Result, ok, err, Error,
  runtime_error, value_error, ◌≡◌, ◌≢◌,
}
use pyka.Common.Int.{ℤ}
use pyka.Topic.Topics.{create}
use pyka.Broker.Tail
use pyka.Broker.Store.{Store, Directory, find_orphans, judge, release, close_topics}
use pyka.Broker.Server.{
  HealthService, BrokerServer, listening, stopping, stopped, new_server, set_serving, start,
  begin_stop,
}
use pyka.Process.Calls.{Request, Call, opened, call_step, thread_step, HttpCall, http_step}

-- Where `serve` stands: at its beginning, in the loop that waits for uvicorn, in `store.open` with
-- the topics it has still to create and all of them, in `stop.wait()`, in the `gather`, in the await
-- of `store.close`, at its end, or left by an exception.
pub data Main : Type 0 where
  starting : Main
  binding : Main
  recovering : List Directory → List Directory → Main
  waiting : Main
  draining : Main
  closing : Main
  finished : Main
  failed : Error → Main

-- `admin_task`: uvicorn has not bound its port yet, it has, or it has ended, perhaps by an exception.
pub data Admin : Type 0 where
  pending : Admin
  up : Admin
  ended : Option Error → Admin

-- admin_task.result(), or the exception for a server that ended by itself
abbrev pub startup_error : Option Error → Error
startup_error none = runtime_error
startup_error (some e) = e

-- where `store.open` goes on after a topic; an exception leaves `serve`
abbrev pub after_create : List Directory → List Directory → Result ℕ → Main
after_create ds names (ok count) = recovering ds names
after_create ds names (err e) = failed e

-- How uvicorn's server moves. It ends by itself once it was told to, and has no request left.
pub data AdminMove : Admin → Bool → List HttpCall → Admin → Type 0 where
  binds : {told : Bool} {http : List HttpCall} → AdminMove pending told http up
  gives_up :
      {told : Bool} {http : List HttpCall} (r : Option Error)
      → AdminMove pending told http (ended r)
  breaks_off :
      {told : Bool} {http : List HttpCall} (e : Error) → AdminMove up told http (ended (some e))
  leaves : AdminMove up true [] (ended none)

module _ (H : HealthService) where
  -- `calls` and `http` are the calls in flight. `threads` are those whose call was cancelled while a
  -- worker thread may be at work for it, and `cut` is whether a call was ever cancelled.
  pub record Process : Type 0 where
    pub main : Main
    pub server : BrokerServer H
    pub admin : Admin
    pub should_exit : Bool
    pub store : Store
    pub calls : List Call
    pub http : List HttpCall
    pub threads : List Call
    pub cut : Bool

  -- the objects of `serve` before `grpc_server.start()`; the store is `_store_from_env`'s
  unfoldable pub begin : Store → Process
  unfolding new_server
  begin store = record {
    main = starting;
    server = new_server H;
    admin = pending;
    should_exit = false;
    store = store;
    calls = [];
    http = [];
    threads = [];
    cut = false;
  }

  -- await grpc_server.start()
  unfoldable pub started : Process → Process
  unfolding start
  started p = record p { main = binding; server = start H p.server }

  -- names = ... at the head of `store.open`
  unfoldable pub opening : Process → List Directory → Process
  opening p names = record p { main = recovering names names }

  -- one topic of `store.open`
  unfoldable pub recovered : Process → Directory → List Directory → List Directory → ℕ → Process
  unfolding create
  recovered p d ds names now =
      let (result, t) = create p.store.topics d.0 none now in
      record p { main = after_create ds names result; store = record p.store { topics = t } }

  -- the end of `store.open`, and set_serving(store.ready)
  unfoldable pub judged : Process → List Directory → Process
  unfolding judge find_orphans set_serving
  judged p names =
      let s = judge p.store p.store.topics (find_orphans p.store.topics names) in
      record p { main = waiting; server = set_serving H p.server s.ready; store = s }

  -- from the signal to the `gather`
  unfoldable pub shut_down : Process → Process
  unfolding set_serving Tail.close
  shut_down p = record p {
    main = draining;
    server = set_serving H p.server false;
    should_exit = true;
    store = record p.store { tail = Tail.close p.store.tail };
  }

  -- grpc_server.stop, which the `gather` starts
  unfoldable pub stops : Process → Process
  unfolding begin_stop
  stops p = record p { server = begin_stop H p.server }

  -- `_server.stop(grace)` returns: no call is in flight, or the grace has run out and those that are
  -- get cancelled
  unfoldable pub stop_returns : Process → List Call → Process
  stop_returns p threads = record p {
    server = record p.server { phase = stopped };
    calls = [];
    threads = threads;
  }

  -- the `gather` is done, and `store.close` runs up to its await
  unfoldable pub gathered : Process → Process
  unfolding release
  gathered p = record p { main = closing; store = release p.store }

  -- the logs are closed
  unfoldable pub closed : Process → Process
  unfolding close_topics
  closed p = record p { main = finished; store = close_topics p.store }

  -- one step of a call in flight
  unfoldable pub turned : Process → List Call → Call → List Call → ℤ → ℕ → Process
  unfolding call_step
  turned p before c after now monotonic =
      let (left, s) = call_step p.store c now monotonic in
      record p { store = s; calls = before ++ left ++ after }

  -- A step. `creates` to `closes` are those of `serve`, which has only one that is possible; the
  -- others come from the clients, the worker threads, uvicorn and the end of the grace.
  pub data Step (p : Process) : Process → Type 0 where
    starts : p.main ≡ starting → Step p (started p)
    opens : p.main ≡ binding → p.admin ≡ up → (names : List Directory) → Step p (opening p names)
    fails :
        p.main ≡ binding
        → (r : Option Error) → p.admin ≡ ended r
        → Step p (record p { main = failed (startup_error r) })
    recovers :
        (d : Directory) (ds names : List Directory) (now : ℕ)
        → p.main ≡ recovering (d ∷ ds) names
        → Step p (recovered p d ds names now)
    judges : (names : List Directory) → p.main ≡ recovering [] names → Step p (judged p names)
    signalled : p.main ≡ waiting → Step p (shut_down p)
    refuses : p.main ≡ draining → p.server.phase ≡ listening → Step p (stops p)
    drains : p.server.phase ≡ stopping → p.calls ≡ [] → Step p (stop_returns p p.threads)
    expires :
        p.server.phase ≡ stopping
        → Step p (record (stop_returns p (p.calls ++ p.threads)) { cut = true })
    gathers :
        p.main ≡ draining → p.server.phase ≡ stopped → p.admin ≡ ended none → Step p (gathered p)
    -- `float` of a PYKA_GRACE that is no number, before the `gather`
    misreads :
        p.main ≡ draining
        → p.server.phase ≡ listening
        → Step p (record p { main = failed value_error })
    -- `gather` raises as soon as one of its two does
    raises :
        p.main ≡ draining
        → (e : Error) → p.admin ≡ ended (some e)
        → Step p (record p { main = failed e })
    closes : p.main ≡ closing → Step p (closed p)
    arrives :
        p.server.phase ≡ listening
        → (r : Request) → Step p (record p { calls = opened r ∷ p.calls })
    turns :
        (before : List Call) (c : Call) (after : List Call) (now : ℤ) (monotonic : ℕ)
        → p.calls ≡ before ++ c ∷ after
        → Step p (turned p before c after now monotonic)
    cancels :
        (before : List Call) (c : Call) (after : List Call)
        → p.calls ≡ before ++ c ∷ after
        → Step p (record p { calls = before ++ after; threads = c ∷ p.threads; cut = true })
    -- What a thread does after the logs are closed is not modelled.
    lands :
        (before : List Call) (c : Call) (after : List Call) (now : ℤ) (monotonic : ℕ)
        → p.threads ≡ before ++ c ∷ after
        → p.main ≢ finished
        → Step p
            (record p { store = thread_step p.store c now monotonic; threads = before ++ after })
    admin_moves :
        (a : Admin) → AdminMove p.admin p.should_exit p.http a → Step p (record p { admin = a })
    http_arrives : p.admin ≡ up → (c : HttpCall) → Step p (record p { http = c ∷ p.http })
    http_turns :
        (before : List HttpCall) (c : HttpCall) (after : List HttpCall) (now : ℕ)
        → p.http ≡ before ++ c ∷ after
        → Step p (record p { store = http_step p.store c now; http = before ++ after })

  pub data Reach (s : Store) : Process → Type 0 where
    here : Reach s (begin s)
    then : {p q : Process} → Reach s p → Step p q → Reach s q
