-- ===== src/Process/Invariant/Traffic.antt =====
-- Calls, worker threads and uvicorn keep the invariant.
use pyka.Common.{◌≡◌, refl, sym, ◌∙◌, List, [], Bool, false, none}
use mathlib.Core.Path.{subst}
use pyka.Broker.Store.{Store}
use pyka.Broker.Server.{HealthService, stopped}
use pyka.Process.Calls.{Call, HttpCall}
use pyka.Process.Kept.{Keeps}
use pyka.Process.Steps.{Admin, ended, AdminMove, Process}
use pyka.Process.Invariant.Defs.{has_http, HealthIs, Inv}

module _ (H : HealthService) where
  -- other calls in flight, other threads
  pub Inv-calls :
      {p : Process H} (calls threads : List Call) (cut : Bool)
      → (p.server.phase ≡ stopped → calls ≡ [])
      → (cut ≡ false → threads ≡ [])
      → Inv H p
      → Inv H (record p { calls = calls; threads = threads; cut = cut })
  Inv-calls calls threads cut drained uncut h = record {
    health = h.health;
    unready = h.unready;
    released = h.released;
    over = h.over;
    drained = drained;
    uncut = uncut;
    begun = h.begun;
    told = h.told;
    idle = h.idle;
  }

  -- a store that is as ready, with a tail as closed
  pub Inv-store :
      {p : Process H} (s : Store) → Keeps p.store s → Inv H p → Inv H (record p { store = s })
  Inv-store {p} s k h = record {
    health = subst (λ r. HealthIs H p.server r p.main) (sym k.ready) h.health;
    unready = λ e. k.ready ∙ h.unready e;
    released = λ e. k.closed ∙ h.released e;
    over = h.over;
    drained = h.drained;
    uncut = h.uncut;
    begun = h.begun;
    told = h.told;
    idle = h.idle;
  }

  pub Inv-http :
      {p : Process H} (http : List HttpCall)
      → (has_http p.admin ≡ false → http ≡ [])
      → Inv H p
      → Inv H (record p { http = http })
  Inv-http http idle h = record {
    health = h.health;
    unready = h.unready;
    released = h.released;
    over = h.over;
    drained = h.drained;
    uncut = h.uncut;
    begun = h.begun;
    told = h.told;
    idle = idle;
  }

  pub Inv-admin :
      {p : Process H} (a : Admin)
      → (p.admin ≡ ended none → a ≡ ended none)
      → (has_http a ≡ false → p.http ≡ [])
      → Inv H p
      → Inv H (record p { admin = a })
  Inv-admin a stays idle h = record {
    health = h.health;
    unready = h.unready;
    released = h.released;
    over = λ o. ((h.over o).0, stays (h.over o).1);
    drained = h.drained;
    uncut = h.uncut;
    begun = h.begun;
    told = h.told;
    idle = idle;
  }

  pub AdminMove-ended :
      {a b : Admin} {told : Bool} {http : List HttpCall}
      → AdminMove a told http b
      → a ≡ ended none
      → b ≡ ended none
  AdminMove-ended AdminMove.binds e = cc
  AdminMove-ended (AdminMove.gives_up r) e = cc
  AdminMove-ended (AdminMove.breaks_off x) e = cc
  AdminMove-ended AdminMove.leaves e = refl

  pub AdminMove-idle :
      {a b : Admin} {told : Bool} {http : List HttpCall}
      → AdminMove a told http b
      → (has_http a ≡ false → http ≡ [])
      → has_http b ≡ false
      → http ≡ []
  AdminMove-idle AdminMove.binds idle e = cc
  AdminMove-idle (AdminMove.gives_up r) idle e = idle refl
  AdminMove-idle (AdminMove.breaks_off x) idle e = cc
  AdminMove-idle AdminMove.leaves idle e = refl
