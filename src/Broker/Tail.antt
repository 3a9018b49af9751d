-- ===== src/Broker/Tail.antt =====
-- src/pyka/broker/tail.py: the events that consumers wait for. An event is a number; the loop runs
-- one method at a time.
pub mod Wakeup
use pyka.Common.{ℕ, ◌+◌, List, [], ◌∷◌, Bool, true, false, Option, none, some, ◌==◌, if◌then◌else◌}
use pyka.Common.Int.{ℤ, eq_ℤ}
use pyka.Python.Dict.{lookup}
use pyka.Python.Text.{Str}
use pyka.Topic.Topics.{eq_str}

-- (topic, partition)
abbrev pub Key : Type 0
Key = Str × ℤ

abbrev pub eq_key : Key → Key → Bool
eq_key (name, p) (name', p') = if eq_str name name' then eq_ℤ p p' else false

-- `fired` are the events that are set, `fresh` is the number of the next event.
pub record Tail : Type 0 where
  pub events : List (Key × ℕ)
  pub fired : List ℕ
  pub fresh : ℕ
  pub closed : Bool

abbrev pub new_tail : Tail
new_tail = record { events = []; fired = []; fresh = 0; closed = false }

-- self._events.setdefault(key, asyncio.Event())
unfoldable pub subscribe : Tail → Key → ℕ × Tail
unfolding lookup
subscribe t k = elim (lookup eq_key t.events k) [
  | some w ↦ (w, t)
  | none ↦ (t.fresh, record t { events = (k, t.fresh) ∷ t.events; fresh = t.fresh + 1 })
]

-- the entries under other keys: self._events.pop(key)
unfoldable pub without : List (Key × ℕ) → Key → List (Key × ℕ)
without [] k = []
without (e ∷ es) k = let rest = without es k in if eq_key e.0 k then rest else e ∷ rest

unfoldable pub notify : Tail → Key → Tail
unfolding lookup without
notify t k = elim (lookup eq_key t.events k) [
  | none ↦ t
  | some w ↦ record t { events = without t.events k; fired = w ∷ t.fired }
]

abbrev pub values : List (Key × ℕ) → List ℕ → List ℕ
values [] fired = fired
values (e ∷ es) fired = e.1 ∷ values es fired

unfoldable pub close : Tail → Tail
close t = record t { events = []; fired = values t.events t.fired; closed = true }

-- event.is_set()
abbrev pub contains : ℕ → List ℕ → Bool
contains w [] = false
contains w (v ∷ vs) = if w == v then true else contains w vs

abbrev pub is_set : Tail → ℕ → Bool
is_set t w = contains w t.fired
