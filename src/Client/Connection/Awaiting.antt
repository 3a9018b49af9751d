-- ===== src/Client/Connection/Awaiting.antt =====
-- The loop of `await_topic`, over a network whose clock does not go back.
use mathlib.Core.Path.{subst}
use pyka.Common.{
  true, ℕ, zero, suc, ◌+◌, ◌*◌, ◌≤◌, ◌<◌, sym, Bool-cases, inl, inr, if_true, if_false, leb, leb→le,
  leb→gt, arith,
}
use pyka.Python.Text.{Str}
use pyka.Client.Network.{Network}
use pyka.Client.Connection.{
  Connection, Routing, Method, Outcome, returned, raises, running, unknown_topic, pyka_error,
  delivery_failed, rpc_error, raised, wait_on_unknown, doubled, routing, await_loop, await_topic,
}
use pyka.Client.Connection.Steady.{IsSteady, Anything, Came, routing-Ensures}

module _ {W : Type 0} (net : Network W) where
  -- What `await_topic` may come to: UnknownTopic is raised once the deadline is reached.
  abbrev pub Awaited : ℕ → Outcome Routing × (Connection × W) → Type 0
  Awaited deadline (returned r, s) = Unit
  Awaited deadline (raises unknown_topic, (c, w)) = deadline ≤ net.monotonic w
  Awaited deadline (raises pyka_error, s) = Unit
  Awaited deadline (raises (delivery_failed records), s) = ⊥
  Awaited deadline (raises (rpc_error status), s) = Unit
  Awaited deadline (raises (raised e), s) = Unit
  Awaited deadline (running, s) = ⊥

  -- The answer of a round, where the further rounds come to it after a pause that began in time.
  waited-Awaited :
      (deadline delay : ℕ) (again : Method W Routing) (began : W)
      → ((c : Connection) (w : W)
          → net.monotonic began ≤ net.monotonic w
          → net.monotonic w < deadline
          → Awaited deadline (again (c, net.sleep delay w)))
      → (x : Outcome Routing × (Connection × W)) → Came net Anything began x
      → Awaited deadline (wait_on_unknown net deadline delay again x)
  waited-Awaited deadline delay again began later (returned r, s) h = tt
  waited-Awaited deadline delay again began later (raises unknown_topic, (c, w)) h =
      elim (Bool-cases (leb deadline (net.monotonic w))) [
        | inl over ↦ subst (Awaited deadline) (sym (if_true _ _ over)) (leb→le _ _ over)
        | inr before ↦
            subst (Awaited deadline) (sym (if_false _ _ before)) (later c w h.0 (leb→gt _ _ before))
      ]
  waited-Awaited deadline delay again began later (raises pyka_error, s) h = tt
  waited-Awaited deadline delay again began later (raises (delivery_failed records), s) h =
      absurd h.1
  waited-Awaited deadline delay again began later (raises (rpc_error status), s) h = tt
  waited-Awaited deadline delay again began later (raises (raised e), s) h = tt
  waited-Awaited deadline delay again began later (running, s) h = absurd h.1

  await_loop-Awaited :
      (steady : IsSteady net) (topic : Str) (rounds deadline delay : ℕ) (s : Connection × W)
      → 250 ≤ delay
      → deadline ≤ net.monotonic s.1 + 250 * rounds
      → Awaited deadline (await_loop net topic (suc rounds) deadline delay s)
  unfolding await_loop
  await_loop-Awaited steady topic zero deadline delay s h enough =
      waited-Awaited deadline delay (await_loop net topic zero deadline (doubled 2000 delay)) s.1
        (λ c w began before. absurd (omega (arith, began, before, enough)))
        (routing net topic true s) (routing-Ensures net steady topic true s)
  await_loop-Awaited steady topic (suc rounds) deadline delay s h enough =
      waited-Awaited deadline delay
        (await_loop net topic (suc rounds) deadline (doubled 2000 delay)) s.1
        (λ c w began before.
          await_loop-Awaited steady topic rounds deadline (doubled 2000 delay)
            (c, net.sleep delay w) (ground (arith, h))
            (omega (arith, began, h, enough, steady.sleep delay w)))
        (routing net topic true s) (routing-Ensures net steady topic true s)

  -- On a clock that does not go back, waiting for a topic ends after so many rounds, of 250
  -- milliseconds or more, as make up the timeout: it returns a routing, or raises UnknownTopic and not
  -- before the timeout is over, or raises an exception that is neither that nor DeliveryFailed.
  pub await_topic-Awaited :
      (steady : IsSteady net) (topic : Str) (timeout rounds : ℕ) (c : Connection) (w : W)
      → timeout ≤ 250 * rounds
      → Awaited (net.monotonic w + timeout) (await_topic net topic timeout (suc rounds) (c, w))
  unfolding await_topic
  await_topic-Awaited steady topic timeout rounds c w enough =
      await_loop-Awaited steady topic rounds (net.monotonic w + timeout) 250 (c, w) (omega arith)
        (omega (arith, enough))
