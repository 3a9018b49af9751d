-- ===== src/Process/Shutdown/Draining.antt =====
-- While the gRPC server stops, its calls come to their ends.
use pyka.Common.{◌≡◌, refl, ap, ◌∙◌, List, [], ◌∷◌, ◌++◌, Bool, true, false, All, ◌⊎◌, inl, inr}
use mathlib.Core.Path.{subst}
use pyka.Common.Int.{pos}
use pyka.Broker.Messages.{ProduceRequest}
use pyka.Broker.Store.{Store}
use pyka.Broker.Handler.{Reply, Abort, done, aborted, produce}
use pyka.Broker.Server.{HealthService}
use pyka.Process.Calls.{
  Call, producing, streaming, consuming, parked, asking, call_step, after_answer,
}
use pyka.Process.Kept.{call_step-Keeps}
use pyka.Process.Steps.{Process, Step, turned}
use pyka.Process.Shutdown.Released.{parked-ends}

-- A call that is not in the middle of reading its partition.
abbrev pub is_reading : Call → Bool
is_reading (consuming r offset remaining) = true
is_reading _ = false

Reply-cases {ℓ} :
    {A : Type ℓ} (r : Reply A) → ((a : A) × (r ≡ done a)) ⊎ ((a : Abort) × (r ≡ aborted a))
Reply-cases (done a) = inl (a, refl)
Reply-cases (aborted a) = inr (a, refl)

module _ (H : HealthService) where
  -- A step that cancels a call: a client does, or the grace runs out.
  abbrev pub is_cutting : {p q : Process H} → Step H p q → Bool
  is_cutting (Step.expires s) = true
  is_cutting (Step.cancels before c after e) = true
  is_cutting _ = false

  -- A way on by steps of which none cancels a call.
  pub data Leads : Process H → Process H → Type 0 where
    here : {p : Process H} → Leads p p
    then : {p q r : Process H} (s : Step H p q) → is_cutting s ≡ false → Leads q r → Leads p r

  pub Leads-trans : {p q r : Process H} → Leads p q → Leads q r → Leads p r
  Leads-trans here k = k
  Leads-trans (then s quiet h) k = then s quiet (Leads-trans h k)

  -- Some way on from `p` that leaves everything but the store and the calls as it is.
  pub record Drained (p : Process H) (cs : List Call) : Type 0 where
    pub store : Store
    pub closed : store.tail.closed ≡ true
    pub way : Leads p (record p { store = store; calls = cs })

  one_step :
      (c : Call) (cs left : List Call) (p : Process H)
      → p.store.tail.closed ≡ true
      → p.calls ≡ c ∷ cs
      → (call_step p.store c (pos 0) 0).0 ≡ left
      → Drained p (left ++ cs)
  unfolding turned
  one_step c cs left p tail e h =
      let s = (call_step p.store c (pos 0) 0).1 in
      record {
        store = s;
        closed = (call_step-Keeps p.store c (pos 0) 0).closed ∙ tail;
        way =
            subst (λ l. Leads p (record p { store = s; calls = l ++ cs })) h
              (then (Step.turns [] c cs (pos 0) 0 e) refl here);
      }

  further :
      {p : Process H} {cs cs' : List Call} (d : Drained p cs)
      → Drained (record p { store = d.store; calls = cs }) cs'
      → Drained p cs'
  further d d' = record { store = d'.store; closed = d'.closed; way = Leads-trans d.way d'.way }

  finish_stream :
      (rs : List ProduceRequest) (cs : List Call) (p : Process H)
      → p.store.tail.closed ≡ true
      → p.calls ≡ streaming rs ∷ cs
      → Drained p cs
  unfolding call_step
  finish_stream [] cs p tail e = one_step (streaming []) cs [] p tail e refl
  finish_stream (r ∷ rs) cs p tail e = elim (Reply-cases (produce p.store r (pos 0) 0).0) [
    | inr (a, refused) ↦
        one_step (streaming (r ∷ rs)) cs [] p tail e (ap (λ x. after_answer x rs) refused)
    | inl (response, answered) ↦
        let d =
          one_step (streaming (r ∷ rs)) cs (streaming rs ∷ []) p tail e
            (ap (λ x. after_answer x rs) answered) in
        further d (
          finish_stream rs cs (record p { store = d.store; calls = streaming rs ∷ cs }) d.closed
            refl)
  ]

  finish_call :
      (c : Call) (cs : List Call) (p : Process H)
      → is_reading c ≡ false
      → p.store.tail.closed ≡ true
      → p.calls ≡ c ∷ cs
      → Drained p cs
  unfolding call_step
  finish_call (producing r) cs p quick tail e = one_step (producing r) cs [] p tail e refl
  finish_call (streaming rs) cs p quick tail e = finish_stream rs cs p tail e
  finish_call (consuming r offset remaining) cs p quick tail e = cc
  finish_call (parked r offset remaining) cs p quick tail e =
      one_step (parked r offset remaining) cs [] p tail e
        (parked-ends p.store r offset remaining (pos 0) 0 tail)
  finish_call (asking topics listed) cs p quick tail e =
      one_step (asking topics listed) cs [] p tail e refl

  pub finish_calls :
      (cs : List Call) (p : Process H)
      → All (λ c. is_reading c ≡ false) cs
      → p.store.tail.closed ≡ true
      → p.calls ≡ cs
      → Drained p []
  finish_calls [] p quick tail e = record {
    store = p.store;
    closed = tail;
    way = subst (λ l. Leads p (record p { calls = l })) e here;
  }
  finish_calls (c ∷ cs) p quick tail e =
      let d = finish_call c cs p quick.0 tail e in
      further d (finish_calls cs (record p { store = d.store; calls = cs }) quick.1 d.closed refl)
