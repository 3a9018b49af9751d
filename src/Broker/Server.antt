-- ===== src/Broker/Server.antt =====
-- src/pyka/broker/server.py, class BrokerServer: the gRPC server, and what it says of its health.
-- The health service of grpc_health and the server of grpc.aio are not the repository's code. The
-- first is the parameter below; of the second the model has whether it listens.
use pyka.Common.{[], ◌∷◌, Bool, true, false, Option, some, ◌≡◌, ◌≢◌, ◌∙◌, refl}
use pyka.Python.Text.{Str}

pub data Status : Type 0 where
  serving : Status
  not_serving : Status

-- `HealthServicer`: its state, `set`, and the answer of `Check`, which is `none` for a name that was
-- never set. A name has the status that was set last.
pub record HealthService : Type 1 where
  pub State : Type 0
  pub initial : State
  pub set : State → Str → Status → State
  pub check : State → Str → Option Status
  pub check-set : (h : State) (name : Str) (st : Status) → check (set h name st) name ≡ some st
  pub check-set_other :
      (h : State) (name name' : Str) (st : Status)
      → name ≢ name'
      → check (set h name st) name' ≡ check h name'

-- The server before `start`, while it takes calls, while `stop` waits for those in flight, and
-- afterwards.
pub data Phase : Type 0 where
  unstarted : Phase
  listening : Phase
  stopping : Phase
  stopped : Phase

-- "pyka.v1.Broker"
abbrev pub service_name : Str
service_name =
    0x70 ∷ 0x79 ∷ 0x6b ∷ 0x61 ∷ 0x2e ∷ 0x76 ∷ 0x31 ∷ 0x2e ∷ 0x42 ∷ 0x72 ∷ 0x6f ∷ 0x6b ∷ 0x65 ∷ 0x72
    ∷ []

-- the key of the server as a whole
abbrev pub overall : Str
overall = []

abbrev pub status_of : Bool → Status
status_of true = serving
status_of false = not_serving

module _ (H : HealthService) where
  pub record BrokerServer : Type 0 where
    pub health : H.State
    pub phase : Phase

  -- BrokerServer(store), of which the store is kept beside it
  unfoldable pub new_server : BrokerServer
  new_server = record { health = H.initial; phase = unstarted }

  unfoldable pub set_serving : BrokerServer → Bool → BrokerServer
  set_serving s ready = record s {
    health = H.set (H.set s.health overall (status_of ready)) service_name (status_of ready);
  }

  unfoldable pub start : BrokerServer → BrokerServer
  unfolding set_serving
  start s = set_serving (record s { phase = listening }) false

  -- `stop` up to the return of `_server.stop(grace)`, which refuses calls at once
  unfoldable pub begin_stop : BrokerServer → BrokerServer
  unfolding set_serving
  begin_stop s = record (set_serving s false) { phase = stopping }

  -- What a probe of either name is told.
  abbrev pub Shows : BrokerServer → Status → Type 0
  Shows s st = (H.check s.health overall ≡ some st) × (H.check s.health service_name ≡ some st)

  name-ne : service_name ≢ overall
  name-ne h = cc

  -- Both names have the status that was set.
  pub set_serving-Shows :
      (s : BrokerServer) (ready : Bool) → Shows (set_serving s ready) (status_of ready)
  unfolding set_serving
  set_serving-Shows s ready = (
    H.check-set_other _ service_name overall (status_of ready) name-ne
        ∙ H.check-set s.health overall (status_of ready),
    H.check-set _ service_name (status_of ready),
  )

  pub set_serving-phase : (s : BrokerServer) (ready : Bool) → (set_serving s ready).phase ≡ s.phase
  unfolding set_serving
  set_serving-phase s ready = refl
