-- ===== src/Client/Connection/Steady.antt =====
-- A network whose clock does not go back, and what methods over it can come to.
use pyka.Common.{
  ℕ, ◌+◌, ◌≤◌, List, [], ◌∷◌, Bool, true, false, Option, none, some, Result, ok, err, arith, length,
}
use pyka.Python.Dict.{lookup}
use pyka.Python.Struct.{Bytes}
use pyka.Python.Text.{Str}
use pyka.Topic.Partitioner
use pyka.Topic.Topics.{eq_str}
use pyka.Broker.Messages.{ProduceRequest, MetadataResponse}
use pyka.Client.Network.{
  Network, Answer, answered, failed, not_found, failed_precondition, unavailable, cancelled,
  other_code,
}
use pyka.Client.Connection.{
  Connection, Routing, Method, Outcome, returned, raises, running, unknown_topic, pyka_error,
  delivery_failed, rpc_error, raised, and_then, ◌>>=◌, python, calling, routing_in, take_answer,
  fetch_from, fetch_routing, remember, cached_or, routing, choose, partition_for,
}

-- The documented behaviour of time.monotonic and time.sleep: a call takes no negative time, and a
-- pause takes what was asked for, or more.
pub record IsSteady {W : Type 0} (net : Network W) : Type 0 where
  pub metadata :
      (a : Str) (topics : List Str) (w : W)
      → net.monotonic w ≤ net.monotonic (net.metadata a topics w).1
  pub produce :
      (a : Str) (r : ProduceRequest) (w : W) → net.monotonic w ≤ net.monotonic (net.produce a r w).1
  pub sleep : (d : ℕ) (w : W) → net.monotonic w + d ≤ net.monotonic (net.sleep d w)

-- A result with the property, or an exception other than DeliveryFailed.
abbrev pub IsPlain : {A : Type 0} → (A → Type 0) → Outcome A → Type 0
IsPlain P (returned a) = P a
IsPlain P (raises (delivery_failed records)) = ⊥
IsPlain P (raises unknown_topic) = Unit
IsPlain P (raises pyka_error) = Unit
IsPlain P (raises (rpc_error status)) = Unit
IsPlain P (raises (raised e)) = Unit
IsPlain P running = ⊥

abbrev pub Anything : {A : Type 0} → A → Type 0
Anything a = Unit

module _ {W : Type 0} (net : Network W) where
  -- What a method that began in the world `w` came to, no earlier than it began.
  abbrev pub Came : {A : Type 0} → (A → Type 0) → W → Outcome A × (Connection × W) → Type 0
  Came P w (outcome, (c, w')) = (net.monotonic w ≤ net.monotonic w') × IsPlain P outcome

  -- A method that comes to this from every state.
  abbrev pub Ensures : {A : Type 0} → (A → Type 0) → Method W A → Type 0
  Ensures P method = (s : Connection × W) → Came P s.1 (method s)

  and_then-Came :
      {A B : Type 0} (P : A → Type 0) (Q : B → Type 0) (w : W) (x : Outcome A × (Connection × W))
      (rest : A → Method W B)
      → Came P w x
      → ((a : A) → P a → Ensures Q (rest a))
      → Came Q w (and_then x rest)
  and_then-Came P Q w (returned a, s) rest h k =
      let after = k a h.1 s in (omega (arith, h.0, after.0), after.1)
  and_then-Came P Q w (raises unknown_topic, s) rest h k = (h.0, tt)
  and_then-Came P Q w (raises pyka_error, s) rest h k = (h.0, tt)
  and_then-Came P Q w (raises (delivery_failed records), s) rest h k = absurd h.1
  and_then-Came P Q w (raises (rpc_error status), s) rest h k = (h.0, tt)
  and_then-Came P Q w (raises (raised e), s) rest h k = (h.0, tt)
  and_then-Came P Q w (running, s) rest h k = absurd h.1

  pub bind-Ensures :
      {A B : Type 0} (P : A → Type 0) (Q : B → Type 0) (method : Method W A) (rest : A → Method W B)
      → Ensures P method
      → ((a : A) → P a → Ensures Q (rest a))
      → Ensures Q (method >>= rest)
  bind-Ensures P Q method rest h k s = and_then-Came P Q s.1 (method s) rest (h s) k

  pub python-Ensures : {A : Type 0} (r : Result A) → Ensures Anything (python r)
  python-Ensures (ok a) s = (omega arith, tt)
  python-Ensures (err e) s = (omega arith, tt)

  module _ (steady : IsSteady net) where
    fetch_from-Ensures :
        (topic : Str) (addresses : List Str) → Ensures Anything (fetch_from net topic addresses)
    unfolding fetch_from
    fetch_from-Ensures topic [] = λ s. (omega arith, tt)
    fetch_from-Ensures topic (address ∷ addresses) =
        let next = fetch_from-Ensures topic addresses in
        bind-Ensures Anything Anything (calling address (net.metadata address (topic ∷ [])))
          (take_answer (fetch_from net topic addresses))
          (λ s. (steady.metadata address (topic ∷ []) s.1, tt))
          (λ answer _. after_answer (fetch_from net topic addresses) next answer)
      where
        after_answer :
            (next : Method W Routing)
            → Ensures Anything next
            → (answer : Answer MetadataResponse) → Ensures Anything (take_answer next answer)
        after_answer next h (answered response) = python-Ensures (routing_in response.topics)
        after_answer next h (failed not_found) = λ s. (omega arith, tt)
        after_answer next h (failed failed_precondition) = h
        after_answer next h (failed unavailable) = h
        after_answer next h (failed cancelled) = h
        after_answer next h (failed (other_code n)) = h

    pub routing-Ensures :
        (topic : Str) (refresh : Bool) → Ensures Anything (routing net topic refresh)
    unfolding routing fetch_routing
    routing-Ensures topic refresh (c, w) = by_cache refresh (lookup eq_str c.routings topic) (c, w)
      where
        fetched : Ensures Anything (fetch_routing net topic >>= remember topic)
        fetched =
            bind-Ensures Anything Anything (fetch_routing net topic) (remember topic)
              (λ s. fetch_from-Ensures topic s.0.bootstrap s) (λ r _ s. (omega arith, tt))

        by_cache :
            (refresh : Bool) (found : Option Routing)
            → Ensures Anything
                (cached_or (fetch_routing net topic >>= remember topic) refresh found)
        by_cache refresh none = fetched
        by_cache true (some r) = fetched
        by_cache false (some r) = λ s. (omega arith, tt)

    pub partition_for-Ensures :
        (topic : Str) (key : Option Bytes) → Ensures Anything (partition_for net topic key)
    unfolding partition_for choose
    partition_for-Ensures topic key =
        bind-Ensures Anything Anything (routing net topic false) (λ r. choose key (length r))
          (routing-Ensures topic false)
          (λ r _ s. python-Ensures (Partitioner.partition_for s.0.partitioner key (length r)).0 (
            record s.0 {
              partitioner = (Partitioner.partition_for s.0.partitioner key (length r)).1;
            },
            s.1,
          ))
