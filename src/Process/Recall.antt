-- ===== src/Process/Recall.antt =====
-- What was written is read back, whatever the process does in between.
use pyka.Common.{
  ℕ, ◌≡◌, refl, sym, ap, ◌∙◌, List, [], ◌∷◌, ◌++◌, append_assoc, none, ok, length, take, ◌≢◌, arith,
  suc,
}
use mathlib.Core.Path.{subst}
use pyka.Common.Int.{ℤ, pos, ◌+ℤ◌, ◌≤ℤ◌, +ℤ_parts}
use pyka.Python.Text.{Str}
use pyka.Storage.Record.{Record}
use pyka.Storage.Segment.Runs.{
  IsRun, IsRun-take, IsRun-drop, wanted, wanted-append, wanted_past, wanted_before,
}
use pyka.Storage.Log.Growth.{Carries-IsRun}
use pyka.Topic.Topics.Locality.{check_partition_local}
use pyka.Topic.Topics.Storing.{Stored}
use pyka.Broker.Messages.{ProduceRequest, ProduceResponse}
use pyka.Broker.Store.{Store, read, judge, release}
use pyka.Broker.Handler.{Reply, done, produce}
use pyka.Broker.Handler.Draining.{Serves, read-Serves}
use pyka.Broker.Handler.Written.{done-injective, Produced, aside, written, produce-Produced}
use pyka.Process.Calls.{Call, producing, call_step}
use pyka.Broker.Admin.Keeping.{create-Keeping}
use pyka.Broker.Server.{HealthService}
use pyka.Process.Growth.{Grown, stays, call_step-Grown, thread_step-Grown, http_step-Holding}
use pyka.Process.Steps.{
  finished, Process, Step, recovered, judged, shut_down, stops, stop_returns, gathered, closed,
  turned, started, opening,
}

-- A partition with all that is wanted from `offset` on, where `offset` is one past `rs`.
wanted_from :
    (base offset : ℤ) (rs : List Record) (r : Record) (extra : List Record)
    → IsRun base (rs ++ r ∷ extra)
    → offset ≡ base +ℤ pos (length rs)
    → wanted offset (rs ++ r ∷ extra) ≡ r ∷ extra
wanted_from base offset rs r extra run at =
    let end = base +ℤ pos (length rs) in
    ap (λ o. wanted o (rs ++ r ∷ extra)) at
    ∙ wanted-append end rs (r ∷ extra)
    ∙ ap (λ ws. ws ++ wanted end (r ∷ extra))
        (wanted_past base end rs (IsRun-take base rs (r ∷ extra) run) (omega arith))
    ∙ wanted_before end end (r ∷ extra) (IsRun-drop base rs (r ∷ extra) run) (omega arith)

Stored-Serves :
    (s : Store) (name : Str) (p : ℕ) (base : ℤ) (rs : List Record)
    → Stored s.topics name p base rs
    → Serves s name (pos p) base rs
Stored-Serves s name p base rs h = record {
  valid = h.valid;
  topic = h.topic;
  opened = h.opened;
  number = p;
  entry = h.entry;
  checked = check_partition_local h.topic p h.entry h.inside h.here;
  parts = h.carries.parts;
  last = h.carries.last;
  holds = h.carries.holds;
  all = h.carries.all;
}

-- A read from the place of a record returns it first.
read-there :
    (s : Store) (name : Str) (p : ℕ) (base offset : ℤ) (rs : List Record) (r : Record)
    (extra : List Record) (limit now : ℕ)
    → Stored s.topics name p base (rs ++ r ∷ extra)
    → offset ≡ base +ℤ pos (length rs)
    → read s name offset (pos p) (suc limit) now ≡ (ok (r ∷ take limit extra), s)
read-there s name p base offset rs r extra limit now h at =
    let run = Carries-IsRun h.entry.log base (rs ++ r ∷ extra) h.carries in
    let reached : base ≤ℤ offset =
      subst (λ o. base ≤ℤ o) (sym at) (omega (arith, +ℤ_parts base (pos (length rs)))) in
    read-Serves s name (pos p) base offset (rs ++ r ∷ extra) (suc limit) now
      (Stored-Serves s name p base (rs ++ r ∷ extra) h) reached (omega arith)
    ∙ ap (λ ws. (ok (take (suc limit) ws), s)) (wanted_from base offset rs r extra run at)

module _ (name : Str) (n : ℕ) (base : ℤ) where
  further :
      (rs : List Record) (s s' : Store) (g : Grown name n base rs s)
      → Grown name n base (rs ++ g.extra) s'
      → Grown name n base rs s'
  further rs s s' g g' = record {
    extra = g.extra ++ g'.extra;
    holding =
        subst (λ q. Stored s'.topics name n base q) (append_assoc rs g.extra g'.extra) g'.holding;
  }

  module _ (H : HealthService) where
    -- Every step but the closing of the logs.
    Step-Grown :
        {p q : Process H} (rs : List Record)
        → Step H p q
        → q.main ≢ finished
        → Stored p.store.topics name n base rs
        → Grown name n base rs q.store
    unfolding started opening recovered judged judge shut_down stops stop_returns gathered release
        closed turned
    Step-Grown {p} rs (Step.starts e) running h = stays name n base rs p.store h
    Step-Grown {p} rs (Step.opens e a names) running h = stays name n base rs p.store h
    Step-Grown {p} rs (Step.fails e r a) running h = stays name n base rs p.store h
    Step-Grown {p} rs (Step.recovers d ds names now e) running h =
        stays name n base rs _ (create-Keeping name n base rs p.store.topics d.0 none now h)
    Step-Grown {p} rs (Step.judges names e) running h = stays name n base rs _ h
    Step-Grown {p} rs (Step.signalled e) running h = stays name n base rs _ h
    Step-Grown {p} rs (Step.refuses e s) running h = stays name n base rs p.store h
    Step-Grown {p} rs (Step.drains s none_left) running h = stays name n base rs p.store h
    Step-Grown {p} rs (Step.expires s) running h = stays name n base rs p.store h
    Step-Grown {p} rs (Step.gathers e s a) running h = stays name n base rs _ h
    Step-Grown {p} rs (Step.misreads e l) running h = stays name n base rs p.store h
    Step-Grown {p} rs (Step.raises e x a) running h = stays name n base rs p.store h
    Step-Grown {p} rs (Step.closes e) running h = absurd (running refl)
    Step-Grown {p} rs (Step.arrives s r) running h = stays name n base rs p.store h
    Step-Grown {p} rs (Step.turns before c after now monotonic e) running h =
        call_step-Grown name n base rs p.store c now monotonic h
    Step-Grown {p} rs (Step.cancels before c after e) running h = stays name n base rs p.store h
    Step-Grown {p} rs (Step.lands before c after now monotonic e not_over) running h =
        thread_step-Grown name n base rs p.store c now monotonic h
    Step-Grown {p} rs (Step.admin_moves a move) running h = stays name n base rs p.store h
    Step-Grown {p} rs (Step.http_arrives a c) running h = stays name n base rs p.store h
    Step-Grown {p} rs (Step.http_turns before c after now e) running h =
        stays name n base rs _ (http_step-Holding name n base rs p.store c now h)

-- Some steps of the process, in any order, while the logs are open.
pub data Runs (H : HealthService) (p : Process H) : Process H → Type 0 where
  here : Runs H p p
  then : {q r : Process H} → Runs H p q → Step H q r → r.main ≢ finished → Runs H p r

Runs-Grown :
    (H : HealthService) {p q : Process H} (name : Str) (n : ℕ) (base : ℤ) (rs : List Record)
    → Runs H p q
    → Stored p.store.topics name n base rs
    → Grown name n base rs q.store
Runs-Grown H {p} name n base rs here h = stays name n base rs p.store h
Runs-Grown H name n base rs (then {q} {r} way step running) h =
    let g = Runs-Grown H name n base rs way h in
    further name n base rs q.store r.store g
      (Step-Grown name n base H (rs ++ g.extra) step running g.holding)

-- A record that a read finds first: where it stands, its key and its value are those it was written
-- with.
pub record IsRecalled (s : Store) (request : ProduceRequest) (response : ProduceResponse)
    (limit now : ℕ) : Type 0 where
  pub first : Record
  pub rest : List Record
  pub found :
      read s request.topic response.offset (pos response.partition) (suc limit) now
      ≡ (ok (first ∷ rest), s)
  pub key : first.key ≡ request.key
  pub value : first.value ≡ request.value

Produced-IsRecalled :
    (H : HealthService) (s : Store) (q : Process H) (request : ProduceRequest) (now : ℤ)
    (monotonic limit now' : ℕ) (response : ProduceResponse) (base : ℤ) (rs : List Record)
    (answer : Reply ProduceResponse)
    → answer ≡ done response
    → Produced request.topic response.partition base rs request answer s
    → ((rs : List Record)
        → Stored s.topics request.topic response.partition base rs
        → Grown request.topic response.partition base rs q.store)
    → IsRecalled q.store request response limit now'
Produced-IsRecalled H s q request now monotonic limit now' response base rs answer is_done
      (aside h apart) grows =
    absurd (apart response refl refl is_done)
Produced-IsRecalled H s q request now monotonic limit now' response base rs answer is_done
      (written r response' answered at k v h) grows =
    let g = grows (rs ++ (r ∷ [])) h in
    let same = done-injective (sym answered ∙ is_done) in
    record {
      first = r;
      rest = take limit g.extra;
      found =
          read-there q.store request.topic response.partition base response.offset rs r g.extra
            limit now'
            (subst (λ z. Stored q.store.topics request.topic response.partition base z)
              (append_assoc rs (r ∷ []) g.extra) g.holding)
            (ap (λ (z : ProduceResponse). z.offset) (sym same) ∙ at);
      key = k;
      value = v;
    }

-- A record that a broker has acknowledged is read back. Where the partition is open, and a step of a
-- Produce call has answered with its partition and an offset, then whatever the process does next, in
-- any order, with other calls of clients, cancelled ones, requests to the control plane, a shutdown
-- up to the closing of the logs: a read of that partition from that offset returns first a record
-- with the key and the value of the request, and does not change the store.
pub produced-IsRecalled :
    (H : HealthService) (p q : Process H) (before after : List Call) (request : ProduceRequest)
    (now : ℤ) (monotonic limit now' : ℕ) (response : ProduceResponse) (base : ℤ) (rs : List Record)
    → Stored p.store.topics request.topic response.partition base rs
    → (produce p.store request now monotonic).0 ≡ done response
    → Runs H (turned H p before (producing request) after now monotonic) q
    → IsRecalled q.store request response limit now'
unfolding turned call_step
produced-IsRecalled H p q before after request now monotonic limit now' response base rs h answered
      runs =
    Produced-IsRecalled H (produce p.store request now monotonic).1 q request now monotonic limit
      now' response base rs _ answered
      (produce-Produced p.store request now monotonic request.topic response.partition base rs h)
      (λ rs h. Runs-Grown H request.topic response.partition base rs runs h)
