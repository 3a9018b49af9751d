-- ===== src/Client/Producer/Delivery.antt =====
-- What `send` comes to, over a network whose clock does not go back.
use pyka.Common.{ℕ, ◌≤◌, ◌<◌, ◌≡◌, [], ◌∷◌}
use pyka.Common.Int.{ℤ}
use pyka.Python.Text.{Str}
use pyka.Broker.Messages.{ProduceResponse}
use pyka.Client.Network.{Network, Answer, answered}
use pyka.Client.Connection.{
  Connection, Method, Outcome, returned, raises, running, unknown_topic, pyka_error,
  delivery_failed, rpc_error, raised,
}
use pyka.Client.Connection.Steady.{IsSteady}
use pyka.Client.Producer.{Producer, Sending, request_for}

module _ {W : Type 0} (net : Network W) (r : Sending) where
  -- The answer of a broker to this record, sent to it for some partition.
  pub record IsAnswer (answer : Answer ProduceResponse) : Type 0 where
    pub address : Str
    pub number : ℕ
    pub world : W
    pub same : answer ≡ (net.produce address (request_for r number) world).0

  -- What `send` may come to: a broker's answer, DeliveryFailed with this record once the deadline is
  -- reached, or another exception.
  abbrev pub Settled : ℕ → Outcome (ℕ × ℤ) × (Connection × W) → Type 0
  Settled deadline (returned landed, s) =
      (response : ProduceResponse) × IsAnswer (answered response)
      × (landed ≡ (response.partition, response.offset))
  Settled deadline (raises (delivery_failed records), (c, w)) =
      (records ≡ (r.topic, (r.key, r.value)) ∷ []) × (deadline ≤ net.monotonic w)
  Settled deadline (raises unknown_topic, s) = Unit
  Settled deadline (raises pyka_error, s) = Unit
  Settled deadline (raises (rpc_error status), s) = Unit
  Settled deadline (raises (raised e), s) = Unit
  Settled deadline (running, s) = ⊥

  module _ (steady : IsSteady net) where
    module _ (deadline backoff : ℕ) (again : Method W (ℕ × ℤ)) where
      -- The further rounds settle, if they begin after a pause that began before the deadline.
      abbrev SettlesLater : ℕ → Type 0
      SettlesLater began =
          (c : Connection) (w : W)
          → began ≤ net.monotonic w
          → net.monotonic w < deadline
          → Settled deadline (again (c, net.sleep backoff w))
