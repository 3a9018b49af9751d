-- ===== src/Broker/Tail/Wakeup.antt =====
-- No wake-up is lost: who subscribed before an append is woken by it.
use pyka.Common.{
  ℕ, ◌+◌, ◌≡◌, refl, sym, ap, ◌∙◌, List, [], ◌∷◌, Bool, true, false, none, some, Option-cases, ◌==◌,
  ==_refl, if◌then◌else◌, if_true, if_false, Bool-cases, inl, inr, false-ne-true,
}
use mathlib.Core.Option.{some-injective}
use mathlib.Core.Path.{subst, ap₂}
use pyka.Common.Int.{eq_ℤ_iff, eq_ℤ_refl}
use pyka.Python.Dict.{lookup}
use pyka.Topic.Topics.{eq_str}
use pyka.Topic.Topics.Creation.{eq_str_refl, eq_str-eq}
use pyka.Broker.Tail.{
  Key, eq_key, Tail, subscribe, without, notify, values, close, contains, is_set,
}

-- What can happen between two looks of a consumer.
pub data Event : Type 0 where
  subscribed : Key → Event
  notified : Key → Event
  closing : Event

unfoldable pub step : Event → Tail → Tail
step (subscribed k) t = (subscribe t k).1
step (notified k) t = notify t k
step closing t = close t

unfoldable pub run : List Event → Tail → Tail
unfolding step
run [] t = t
run (e ∷ es) t = run es (step e t)

-- An event wakes the waiters of `k`.
unfoldable pub wakes : Key → Event → Bool
wakes k (subscribed k') = false
wakes k (notified k') = eq_key k k'
wakes k closing = true

unfoldable pub any_wakes : Key → List Event → Bool
unfolding wakes
any_wakes k [] = false
any_wakes k (e ∷ es) = if wakes k e then true else any_wakes k es

eq_key_refl : (k : Key) → eq_key k k ≡ true
eq_key_refl (name, p) = if_true _ _ (eq_str_refl name) ∙ eq_ℤ_refl p

eq_key-eq : (k k' : Key) → eq_key k k' ≡ true → k ≡ k'
eq_key-eq (name, p) (name', p') h = elim (Bool-cases (eq_str name name')) [
  | inl same ↦
      ap₂ (λ n q. (n, q)) (eq_str-eq name name' same)
        ((eq_ℤ_iff p p').0 (sym (if_true _ _ same) ∙ h))
  | inr other ↦ absurd (false-ne-true (sym (if_false _ _ other) ∙ h))
]

subscribe_hit :
    (t : Tail) (k : Key) (w : ℕ) → lookup eq_key t.events k ≡ some w → subscribe t k ≡ (w, t)
unfolding subscribe
subscribe_hit t k w h = rw (h, subscribe) refl

subscribe_miss :
    (t : Tail) (k : Key)
    → lookup eq_key t.events k ≡ none
    → subscribe t k ≡ (t.fresh, record t { events = (k, t.fresh) ∷ t.events; fresh = t.fresh + 1 })
unfolding subscribe
subscribe_miss t k h = rw (h, subscribe) refl

notify_hit :
    (t : Tail) (k : Key) (w : ℕ)
    → lookup eq_key t.events k ≡ some w
    → notify t k ≡ record t { events = without t.events k; fired = w ∷ t.fired }
unfolding notify
notify_hit t k w h = rw (h, notify) refl

notify_miss : (t : Tail) (k : Key) → lookup eq_key t.events k ≡ none → notify t k ≡ t
unfolding notify
notify_miss t k h = rw (h, notify) refl

lookup-cons_other :
    (es : List (Key × ℕ)) (e : Key × ℕ) (k : Key)
    → eq_key e.0 k ≡ false
    → lookup eq_key (e ∷ es) k ≡ lookup eq_key es k
unfolding lookup
lookup-cons_other es e k h = if_false _ _ h

lookup-cons_same :
    (es : List (Key × ℕ)) (e : Key × ℕ) (k : Key)
    → eq_key e.0 k ≡ true
    → lookup eq_key (e ∷ es) k ≡ some e.1
unfolding lookup
lookup-cons_same es e k h = if_true _ _ h

-- taking out another key
lookup-without :
    (es : List (Key × ℕ)) (k k' : Key) (w : ℕ)
    → eq_key k k' ≡ false
    → lookup eq_key es k ≡ some w
    → lookup eq_key (without es k') k ≡ some w
unfolding without lookup
lookup-without [] k k' w h found = found
lookup-without (e ∷ es) k k' w h found = elim (Bool-cases (eq_key e.0 k')) [
  | inl same ↦
      let differs : eq_key e.0 k ≡ false = elim (Bool-cases (eq_key e.0 k)) [
        | inr differs ↦ differs
        | inl is_k ↦
            let alike : eq_key k k' ≡ true =
              subst (λ z. eq_key k z ≡ true) (sym (eq_key-eq e.0 k is_k) ∙ eq_key-eq e.0 k' same)
                (eq_key_refl k) in
            absurd (false-ne-true (sym h ∙ alike))
      ] in
      rw same (lookup-without es k k' w h (sym (if_false _ _ differs) ∙ found))
  | inr other ↦ rw other (elim (Bool-cases (eq_key e.0 k)) [
    | inl here ↦ if_true _ _ here ∙ sym (if_true _ _ here) ∙ found
    | inr later ↦ if_false _ _ later ∙ lookup-without es k k' w h (sym (if_false _ _ later) ∙ found)
  ])
]

contains-cons : (w v : ℕ) (vs : List ℕ) → contains w vs ≡ true → contains w (v ∷ vs) ≡ true
contains-cons w v vs h = elim (Bool-cases (w == v)) [
  | inl same ↦ if_true _ _ same
  | inr other ↦ if_false _ _ other ∙ h
]

contains-head : (w : ℕ) (vs : List ℕ) → contains w (w ∷ vs) ≡ true
contains-head w vs = if_true _ _ (==_refl w)

values-cons :
    (es : List (Key × ℕ)) (fired : List ℕ) (w : ℕ)
    → contains w fired ≡ true
    → contains w (values es fired) ≡ true
values-cons [] fired w h = h
values-cons (e ∷ es) fired w h = contains-cons w e.1 (values es fired) (values-cons es fired w h)

contains-values :
    (es : List (Key × ℕ)) (fired : List ℕ) (k : Key) (w : ℕ)
    → lookup eq_key es k ≡ some w
    → contains w (values es fired) ≡ true
unfolding lookup
contains-values [] fired k w found = cc
contains-values (e ∷ es) fired k w found = elim (Bool-cases (eq_key e.0 k)) [
  | inl here ↦
      let is_w : e.1 ≡ w = some-injective e.1 w (sym (if_true _ _ here) ∙ found) in
      subst (λ v. contains w (v ∷ values es fired) ≡ true) (sym is_w)
        (contains-head w (values es fired))
  | inr later ↦
      contains-cons w e.1 (values es fired)
        (contains-values es fired k w (sym (if_false _ _ later) ∙ found))
]

-- an event that is set stays set
step-is_set : (e : Event) (t : Tail) (w : ℕ) → is_set t w ≡ true → is_set (step e t) w ≡ true
unfolding step close
step-is_set (subscribed k) t w h = elim (Option-cases (lookup eq_key t.events k)) [
  | inl miss ↦ ap (λ (c : ℕ × Tail). is_set c.1 w) (subscribe_miss t k miss) ∙ h
  | inr (v, hit) ↦ ap (λ (c : ℕ × Tail). is_set c.1 w) (subscribe_hit t k v hit) ∙ h
]
step-is_set (notified k) t w h = elim (Option-cases (lookup eq_key t.events k)) [
  | inl miss ↦ rw (notify_miss t k miss) h
  | inr (v, hit) ↦ rw (notify_hit t k v hit) (contains-cons w v t.fired h)
]
step-is_set closing t w h = values-cons t.events t.fired w h

-- a registered waiter is woken by an event of its partition
step-woken :
    (e : Event) (t : Tail) (k : Key) (w : ℕ)
    → lookup eq_key t.events k ≡ some w
    → wakes k e ≡ true
    → is_set (step e t) w ≡ true
unfolding step close wakes
step-woken (subscribed k') t k w found h = absurd (false-ne-true h)
step-woken (notified k') t k w found h =
    let hit : lookup eq_key t.events k' ≡ some w =
      subst (λ z. lookup eq_key t.events z ≡ some w) (eq_key-eq k k' h) found in
    rw (notify_hit t k' w hit) (contains-head w t.fired)
step-woken closing t k w found h = contains-values t.events t.fired k w found

-- and stays registered through any other
step-kept :
    (e : Event) (t : Tail) (k : Key) (w : ℕ)
    → lookup eq_key t.events k ≡ some w
    → wakes k e ≡ false
    → lookup eq_key (step e t).events k ≡ some w
unfolding step wakes
step-kept (subscribed k') t k w found h = elim (Option-cases (lookup eq_key t.events k')) [
  | inr (v, hit) ↦
      ap (λ (c : ℕ × Tail). lookup eq_key c.1.events k) (subscribe_hit t k' v hit) ∙ found
  | inl miss ↦
      let differs : eq_key k' k ≡ false = elim (Bool-cases (eq_key k' k)) [
        | inr differs ↦ differs
        | inl same ↦
            let hit : lookup eq_key t.events k' ≡ some w =
              subst (λ z. lookup eq_key t.events z ≡ some w) (sym (eq_key-eq k' k same)) found in
            cc
      ] in
      ap (λ (c : ℕ × Tail). lookup eq_key c.1.events k) (subscribe_miss t k' miss)
      ∙ lookup-cons_other t.events (k', t.fresh) k differs
      ∙ found
]
step-kept (notified k') t k w found h = elim (Option-cases (lookup eq_key t.events k')) [
  | inl miss ↦ rw (notify_miss t k' miss) found
  | inr (v, hit) ↦ rw (notify_hit t k' v hit) (lookup-without t.events k k' w h found)
]
step-kept closing t k w found h = absurd (false-ne-true (sym h))

run-is_set : (es : List Event) (t : Tail) (w : ℕ) → is_set t w ≡ true → is_set (run es t) w ≡ true
unfolding run
run-is_set [] t w h = h
run-is_set (e ∷ es) t w h = run-is_set es (step e t) w (step-is_set e t w h)

run-woken :
    (es : List Event) (t : Tail) (k : Key) (w : ℕ)
    → lookup eq_key t.events k ≡ some w
    → any_wakes k es ≡ true
    → is_set (run es t) w ≡ true
unfolding run any_wakes
run-woken [] t k w found h = absurd (false-ne-true h)
run-woken (e ∷ es) t k w found h = elim (Bool-cases (wakes k e)) [
  | inl woken ↦ run-is_set es (step e t) w (step-woken e t k w found woken)
  | inr quiet ↦
      run-woken es (step e t) k w (step-kept e t k w found quiet) (sym (if_false _ _ quiet) ∙ h)
]

subscribe-registered :
    (t : Tail) (k : Key) → lookup eq_key (subscribe t k).1.events k ≡ some (subscribe t k).0
subscribe-registered t k = elim (Option-cases (lookup eq_key t.events k)) [
  | inr (w, hit) ↦ rw (subscribe_hit t k w hit) hit
  | inl miss ↦
      rw (subscribe_miss t k miss) (lookup-cons_same t.events (k, t.fresh) k (eq_key_refl k))
]

-- Who has subscribed to a partition finds the event set once the partition was notified or the
-- broker closed, whatever else happened before it and after it.
pub subscribe-woken :
    (t : Tail) (k : Key) (es : List Event)
    → any_wakes k es ≡ true
    → is_set (run es (subscribe t k).1) (subscribe t k).0 ≡ true
subscribe-woken t k es h =
    run-woken es (subscribe t k).1 k (subscribe t k).0 (subscribe-registered t k) h

-- one notification, right after
pub notify-woken :
    (t : Tail) (k : Key) → is_set (notify (subscribe t k).1 k) (subscribe t k).0 ≡ true
unfolding run any_wakes
notify-woken t k = subscribe-woken t k (notified k ∷ []) (if_true _ _ (eq_key_refl k))
