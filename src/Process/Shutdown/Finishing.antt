-- ===== src/Process/Shutdown/Finishing.antt =====
-- The shutdown comes to its end without cutting a call off.
use pyka.Common.{◌≡◌, refl, sym, ap, ◌∙◌, List, [], ◌∷◌, Bool, true, false, none, some, All}
use mathlib.Core.Path.{subst}
use pyka.Broker.Store.{Store}
use pyka.Broker.Server.{HealthService, Phase, unstarted, listening, stopping, stopped, begin_stop}
use pyka.Process.Calls.{HttpCall, http_step}
use pyka.Process.Steps.{
  draining, finished, Admin, pending, up, ended, AdminMove, Process, Reach, Step, stops,
  stop_returns, gathered, closed,
}
use pyka.Process.Invariant.{is_shut, has_begun, is_started, Inv, Reach-Inv}
use pyka.Process.Shutdown.Draining.{is_reading, Leads, here, then, Leads-trans, finish_calls}

-- uvicorn's server broke off with an exception
abbrev pub is_broken : Admin → Bool
is_broken (ended (some e)) = true
is_broken _ = false

unstarted-ne-started : is_started unstarted ≡ true → ⊥
unstarted-ne-started h = cc

module _ (H : HealthService) where
  finish_http :
      (cs : List HttpCall) (p : Process H)
      → p.http ≡ cs
      → (s : Store) × (Leads H p (record p { store = s; http = [] }))
  finish_http [] p e = (p.store, subst (λ l. Leads H p (record p { http = l })) e here)
  finish_http (c ∷ cs) p e =
      let s = http_step p.store c 0 in
      let (t, way) = finish_http cs (record p { store = s; http = cs }) refl in
      (t, then (Step.http_turns [] c cs 0 e) refl way)

  leave_up :
      (p : Process H)
      → p.admin ≡ up
      → p.should_exit ≡ true
      → p.http ≡ []
      → Leads H p (record p { admin = ended none })
  leave_up p e told none_left =
      then (Step.admin_moves (ended none) (rw (e, told, none_left) AdminMove.leaves)) refl here

  finish_admin :
      (a : Admin) (p : Process H)
      → is_broken a ≡ false
      → p.admin ≡ a
      → p.should_exit ≡ true
      → p.http ≡ []
      → Leads H p (record p { admin = ended none })
  finish_admin (ended none) p h e told none_left =
      subst (λ a. Leads H p (record p { admin = a })) e here
  finish_admin (ended (some x)) p h e told none_left = cc
  finish_admin up p h e told none_left = leave_up p e told none_left
  finish_admin pending p h e told none_left =
      then (Step.admin_moves up (rw e AdminMove.binds)) refl
        (leave_up (record p { admin = up }) refl told none_left)

  -- The gRPC server is stopped, and the rest of `p` but the store is as it was.
  pub record Stood (p : Process H) : Type 0 where
    pub last : Process H
    pub way : Leads H p last
    pub main : last.main ≡ draining
    pub phase : last.server.phase ≡ stopped
    pub admin : last.admin ≡ p.admin
    pub told : last.should_exit ≡ true
    pub cut : last.cut ≡ p.cut

  stand_stopping :
      (p : Process H)
      → p.main ≡ draining
      → p.server.phase ≡ stopping
      → p.should_exit ≡ true
      → p.store.tail.closed ≡ true
      → All (λ c. is_reading c ≡ false) p.calls
      → Stood p
  unfolding stop_returns
  stand_stopping p m phase told tail quick =
      let d = finish_calls H p.calls p quick tail refl in
      record {
        last = stop_returns H (record p { store = d.store; calls = [] }) p.threads;
        way = Leads-trans H d.way (then (Step.drains phase refl) refl here);
        main = m;
        phase = refl;
        admin = refl;
        told = told;
        cut = refl;
      }

  stand :
      (f : Phase) (p : Process H)
      → p.server.phase ≡ f
      → Inv H p
      → p.main ≡ draining
      → All (λ c. is_reading c ≡ false) p.calls
      → Stood p
  unfolding stops begin_stop
  stand unstarted p e h m quick =
      absurd (unstarted-ne-started (ap is_started (sym e) ∙ h.begun (ap has_begun m)))
  stand listening p e h m quick =
      let d =
        stand_stopping (stops H p) m refl (h.told (ap is_shut m)) (h.released (ap is_shut m))
          quick in
      record {
        last = d.last;
        way = then (Step.refuses m e) refl d.way;
        main = d.main;
        phase = d.phase;
        admin = d.admin;
        told = d.told;
        cut = d.cut;
      }
  stand stopping p e h m quick =
      stand_stopping p m e (h.told (ap is_shut m)) (h.released (ap is_shut m)) quick
  stand stopped p e h m quick = record {
    last = p;
    way = here;
    main = m;
    phase = e;
    admin = refl;
    told = h.told (ap is_shut m);
    cut = refl;
  }

  -- The process can come to its end by steps of which none cancels a call.
  pub record Ends (p : Process H) : Type 0 where
    pub last : Process H
    pub way : Leads H p last
    pub main : last.main ≡ finished
    pub cut : last.cut ≡ p.cut

  Stood-Ends : {p : Process H} → Stood p → is_broken p.admin ≡ false → Ends p
  unfolding gathered closed
  Stood-Ends {p} d whole =
      let (s, way) = finish_http d.last.http d.last refl in
      let q : Process H = record d.last { store = s; http = [] } in
      let leaving = finish_admin q.admin q (ap is_broken d.admin ∙ whole) refl d.told refl in
      let q' : Process H = record q { admin = ended none } in
      record {
        last = closed H (gathered H q');
        way = Leads-trans H d.way (
            Leads-trans H way (
              Leads-trans H leaving (
                then (Step.gathers d.main d.phase refl) refl (then (Step.closes refl) refl here))));
        main = refl;
        cut = d.cut;
      }

  -- From every state that the process can reach while it drains its calls, also one in which clients
  -- have cancelled calls before, its end can be reached by steps of which none cancels a call: no
  -- client does, and the grace does not run out. The condition is that uvicorn has not broken off
  -- with an exception, and that no consumer is in the middle of reading. Consumers that wait for an
  -- append are no obstacle.
  pub draining-Ends :
      {s : Store} {p : Process H}
      → s.ready ≡ false
      → Reach H s p
      → p.main ≡ draining
      → is_broken p.admin ≡ false
      → All (λ c. is_reading c ≡ false) p.calls
      → Ends p
  draining-Ends {s} {p} unready r m whole quick =
      Stood-Ends (stand p.server.phase p refl (Reach-Inv H unready r) m quick) whole
