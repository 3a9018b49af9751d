-- ===== src/Process/Invariant/Defs.antt =====
-- What the probes say where `serve` stands, and what is in flight there.
use pyka.Common.{◌≡◌, [], Bool, true, false, none, some}
use pyka.Broker.Server.{
  HealthService, BrokerServer, Phase, unstarted, listening, stopped, Shows, status_of, not_serving,
}
use pyka.Process.Steps.{
  Main, starting, binding, recovering, waiting, draining, closing, finished, failed, Admin, pending,
  up, ended, Process,
}

-- The signal has come.
abbrev pub is_shut : Main → Bool
is_shut draining = true
is_shut closing = true
is_shut finished = true
is_shut _ = false

-- The gather is done.
abbrev pub is_over : Main → Bool
is_over closing = true
is_over finished = true
is_over _ = false

-- The server has been started, and no exception has left `serve`.
abbrev pub has_begun : Main → Bool
has_begun starting = false
has_begun (failed e) = false
has_begun _ = true

abbrev pub is_started : Phase → Bool
is_started unstarted = false
is_started _ = true

-- The store is not open: not yet, or no longer.
abbrev pub is_unready : Main → Bool
is_unready starting = true
is_unready binding = true
is_unready (recovering ds names) = true
is_unready closing = true
is_unready finished = true
is_unready _ = false

-- uvicorn takes requests, or has broken off with some in flight
abbrev pub has_http : Admin → Bool
has_http pending = false
has_http up = true
has_http (ended none) = false
has_http (ended (some e)) = true

pub listening-ne-stopped : listening ≡ stopped → ⊥
listening-ne-stopped h = cc

module _ (H : HealthService) where
  -- What the health service shows where `serve` stands.
  abbrev pub HealthIs : BrokerServer H → Bool → Main → Type 0
  HealthIs s ready starting = s.phase ≡ unstarted
  HealthIs s ready waiting = Shows H s (status_of ready)
  HealthIs s ready _ = Shows H s not_serving

  pub record Inv (p : Process H) : Type 0 where
    pub health : HealthIs p.server p.store.ready p.main
    pub unready : is_unready p.main ≡ true → p.store.ready ≡ false
    pub released : is_shut p.main ≡ true → p.store.tail.closed ≡ true
    pub over : is_over p.main ≡ true → (p.server.phase ≡ stopped) × (p.admin ≡ ended none)
    pub drained : p.server.phase ≡ stopped → p.calls ≡ []
    pub uncut : p.cut ≡ false → p.threads ≡ []
    pub begun : has_begun p.main ≡ true → is_started p.server.phase ≡ true
    pub told : is_shut p.main ≡ true → p.should_exit ≡ true
    pub idle : has_http p.admin ≡ false → p.http ≡ []
