-- ===== src/Process/Invariant/Serve.antt =====
-- The steps of `serve` itself keep the invariant.
use pyka.Common.{
  ℕ, ◌≡◌, refl, sym, ap, ◌∙◌, List, [], ◌∷◌, Bool, false, none, Result, ok, err, Error,
  false-ne-true,
}
use mathlib.Core.Path.{subst}
use pyka.Broker.Tail
use pyka.Topic.Topics.{create}
use pyka.Broker.Store.{Store, Directory, find_orphans, judge, release, close_topics}
use pyka.Broker.Server.{
  HealthService, BrokerServer, unstarted, listening, stopping, stopped, set_serving, start,
  begin_stop, Shows, set_serving-Shows, set_serving-phase, not_serving,
}
use pyka.Process.Calls.{Call}
use pyka.Process.Steps.{
  Main, starting, binding, recovering, waiting, draining, closing, finished, failed, ended, Process,
  begin, started, opening, recovered, judged, shut_down, stops, stop_returns, gathered,
  after_create, closed,
}
use pyka.Process.Invariant.Defs.{
  is_shut, has_begun, is_over, is_unready, HealthIs, Inv, listening-ne-stopped,
}

stopping-ne-stopped : stopping ≡ stopped → ⊥
stopping-ne-stopped h = cc

unstarted-ne-stopping : unstarted ≡ stopping → ⊥
unstarted-ne-stopping h = cc

module _ (H : HealthService) where
  pub Inv-begin : (s : Store) → s.ready ≡ false → Inv H (begin H s)
  unfolding begin
  Inv-begin s unready = record {
    health = refl;
    unready = λ _. unready;
    released = λ e. cc;
    over = λ e. cc;
    drained = λ e. refl;
    uncut = λ e. refl;
    begun = λ e. cc;
    told = λ e. cc;
    idle = λ e. refl;
  }

  pub Inv-started : {p : Process H} → p.main ≡ starting → Inv H p → Inv H (started H p)
  unfolding started start
  Inv-started {p} e h = record {
    health = set_serving-Shows H (record p.server { phase = listening }) false;
    unready = λ _. h.unready (rw e refl);
    released = λ e. cc;
    over = λ e. cc;
    drained = λ s. absurd (listening-ne-stopped s);
    uncut = h.uncut;
    begun = λ _. refl;
    told = λ e. cc;
    idle = h.idle;
  }

  pub Inv-opening :
      {p : Process H} (names : List Directory)
      → p.main ≡ binding
      → Inv H p
      → Inv H (opening H p names)
  unfolding opening
  Inv-opening {p} names e h = record {
    health = subst (HealthIs H p.server p.store.ready) e h.health;
    unready = λ _. h.unready (rw e refl);
    released = λ e. cc;
    over = λ e. cc;
    drained = h.drained;
    uncut = h.uncut;
    begun = λ _. h.begun (ap has_begun e);
    told = λ e. cc;
    idle = h.idle;
  }

  -- `serve` is left by an exception, after the probes were told not to send anything.
  pub Inv-failed :
      {p : Process H} (e : Error)
      → Shows H p.server not_serving
      → Inv H p
      → Inv H (record p { main = failed e })
  Inv-failed e shown h = record {
    health = shown;
    unready = λ e. cc;
    released = λ e. cc;
    over = λ e. cc;
    drained = h.drained;
    uncut = h.uncut;
    begun = λ e. cc;
    told = λ e. cc;
    idle = h.idle;
  }

  pub Inv-recovered :
      {p : Process H} (d : Directory) (ds names : List Directory) (now : ℕ)
      → p.main ≡ recovering (d ∷ ds) names
      → Inv H p
      → Inv H (recovered H p d ds names now)
  unfolding recovered
  Inv-recovered {p} d ds names now e h =
      let r = (create p.store.topics d.0 none now).0 in
      record {
        health =
            after_create-HealthIs p.server p.store.ready ds names r
              (subst (HealthIs H p.server p.store.ready) e h.health);
        unready = λ _. h.unready (rw e refl);
        released = λ s. absurd (false-ne-true (sym (after_create-is_shut ds names r) ∙ s));
        over = λ s. absurd (false-ne-true (sym (after_create-is_over ds names r) ∙ s));
        drained = h.drained;
        uncut = h.uncut;
        begun = λ _. h.begun (ap has_begun e);
        told = λ s. absurd (false-ne-true (sym (after_create-is_shut ds names r) ∙ s));
        idle = h.idle;
      }
    where
      after_create-HealthIs :
          (s : BrokerServer H) (ready : Bool) (ds names : List Directory) (r : Result ℕ)
          → Shows H s not_serving
          → HealthIs H s ready (after_create ds names r)
      after_create-HealthIs s ready ds names (ok count) shown = shown
      after_create-HealthIs s ready ds names (err e) shown = shown

      after_create-is_shut :
          (ds names : List Directory) (r : Result ℕ) → is_shut (after_create ds names r) ≡ false
      after_create-is_shut ds names (ok count) = refl
      after_create-is_shut ds names (err e) = refl

      after_create-is_over :
          (ds names : List Directory) (r : Result ℕ) → is_over (after_create ds names r) ≡ false
      after_create-is_over ds names (ok count) = refl
      after_create-is_over ds names (err e) = refl

  pub Inv-judged :
      {p : Process H} (names : List Directory)
      → p.main ≡ recovering [] names
      → Inv H p
      → Inv H (judged H p names)
  unfolding judged set_serving
  Inv-judged {p} names e h = record {
    health = set_serving-Shows H p.server _;
    unready = λ e. cc;
    released = λ e. cc;
    over = λ e. cc;
    drained = λ e. h.drained (
        sym (
          set_serving-phase H p.server
            (judge p.store p.store.topics (find_orphans p.store.topics names)).ready)
        ∙ e);
    uncut = h.uncut;
    begun = λ _. h.begun (ap has_begun e);
    told = λ e. cc;
    idle = h.idle;
  }

  pub Inv-shut_down : {p : Process H} → p.main ≡ waiting → Inv H p → Inv H (shut_down H p)
  unfolding shut_down set_serving Tail.close
  Inv-shut_down {p} e h = record {
    health = set_serving-Shows H p.server false;
    unready = λ e. cc;
    released = λ _. refl;
    over = λ e. cc;
    drained = λ e. h.drained (sym (set_serving-phase H p.server false) ∙ e);
    uncut = h.uncut;
    begun = λ _. h.begun (ap has_begun e);
    told = λ _. refl;
    idle = h.idle;
  }

  pub Inv-stops : {p : Process H} → p.main ≡ draining → Inv H p → Inv H (stops H p)
  unfolding stops begin_stop
  Inv-stops {p} e h = record {
    health = subst (HealthIs H _ p.store.ready) (sym e) (set_serving-Shows H p.server false);
    unready = h.unready;
    released = h.released;
    over = λ o. absurd (false-ne-true (ap is_over (sym e) ∙ o));
    drained = λ s. absurd (stopping-ne-stopped s);
    uncut = h.uncut;
    begun = λ _. refl;
    told = h.told;
    idle = h.idle;
  }

  pub Inv-gathered :
      {p : Process H}
      → p.main ≡ draining
      → p.server.phase ≡ stopped
      → p.admin ≡ ended none
      → Inv H p
      → Inv H (gathered H p)
  unfolding gathered release Tail.close
  Inv-gathered {p} e s a h = record {
    health = subst (HealthIs H p.server p.store.ready) e h.health;
    unready = λ _. refl;
    released = λ _. refl;
    over = λ _. (s, a);
    drained = h.drained;
    uncut = h.uncut;
    begun = λ _. h.begun (ap has_begun e);
    told = λ _. h.told (ap is_shut e);
    idle = h.idle;
  }

  pub Inv-closed : {p : Process H} → p.main ≡ closing → Inv H p → Inv H (closed H p)
  unfolding closed close_topics
  Inv-closed {p} e h = record {
    health = subst (HealthIs H p.server p.store.ready) e h.health;
    unready = λ _. h.unready (ap is_unready e);
    released = λ _. h.released (ap is_shut e);
    over = λ _. h.over (ap is_over e);
    drained = h.drained;
    uncut = h.uncut;
    begun = λ _. h.begun (ap has_begun e);
    told = λ _. h.told (ap is_shut e);
    idle = h.idle;
  }

  stopped-HealthIs :
      (s : BrokerServer H) (ready : Bool) (m : Main)
      → s.phase ≡ stopping
      → HealthIs H s ready m
      → HealthIs H (record s { phase = stopped }) ready m
  stopped-HealthIs s ready starting e h = absurd (unstarted-ne-stopping (sym h ∙ e))
  stopped-HealthIs s ready waiting e h = h
  stopped-HealthIs s ready binding e h = h
  stopped-HealthIs s ready (recovering ds names) e h = h
  stopped-HealthIs s ready draining e h = h
  stopped-HealthIs s ready closing e h = h
  stopped-HealthIs s ready finished e h = h
  stopped-HealthIs s ready (failed x) e h = h

  -- `cut` is what it was, or true
  pub Inv-stop_returns :
      {p : Process H} (threads : List Call) (cut : Bool)
      → p.server.phase ≡ stopping
      → (cut ≡ false → threads ≡ [])
      → Inv H p
      → Inv H (record (stop_returns H p threads) { cut = cut })
  unfolding stop_returns
  Inv-stop_returns {p} threads cut e uncut h = record {
    health = stopped-HealthIs p.server p.store.ready p.main e h.health;
    unready = h.unready;
    released = h.released;
    over = λ o. (refl, (h.over o).1);
    drained = λ _. refl;
    uncut = uncut;
    begun = λ _. refl;
    told = h.told;
    idle = h.idle;
  }
