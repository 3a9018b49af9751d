-- ===== src/Process/Shutdown/Released.antt =====
-- Shutting down releases the consumers that wait, and lets none wait again.
use pyka.Common.{
  ℕ, ◌≡◌, refl, sym, ◌∙◌, List, [], ◌∷◌, Bool, true, false, Option, All, ◌≢◌, if_elim, if_true,
  length, ◌==◌,
}
use pyka.Common.Int.{ℤ}
use pyka.Storage.Record.{Record}
use pyka.Broker.Messages.{ConsumeRequest, ProduceRequest}
use pyka.Broker.Store.{Store}
use pyka.Broker.Server.{HealthService}
use pyka.Broker.Handler.{Reply, done, aborted}
use pyka.Broker.Handler.Consume.{Next, ends, again, waits, next_step, limit_of, is_used_up}
use pyka.Process.Calls.{
  Call, producing, streaming, consuming, parked, asking, call_step, after_read, after_round,
  after_answer,
}
use pyka.Process.Kept.{call_step-Keeps}
use pyka.Process.Steps.{Process, Reach}
use pyka.Process.Invariant.{is_shut, Reach-Inv}

abbrev pub is_parked : Call → Bool
is_parked (parked r offset remaining) = true
is_parked _ = false

-- None of them is a consumer that waits.
abbrev pub Unparked : List Call → Type 0
Unparked cs = All (λ c. is_parked c ≡ false) cs

after_round-Unparked :
    (n : Next) (r : ConsumeRequest) (offset : ℤ) (left : Option ℕ)
    → n ≢ waits
    → Unparked (after_round n r offset left)
after_round-Unparked ends r offset left h = tt
after_round-Unparked again r offset left h = (refl, tt)
after_round-Unparked waits r offset left h = absurd (h refl)

ends-ne-waits : ends ≢ waits
ends-ne-waits h = cc

again-ne-waits : again ≢ waits
again-ne-waits h = cc

next_step-ne-waits :
    (s : Store) (r : ConsumeRequest) (left : Option ℕ) (limit : ℕ) (batch : List Record)
    → s.tail.closed ≡ true
    → next_step s r left limit batch ≢ waits
unfolding next_step
next_step-ne-waits s r left limit batch closed =
    let Moves : Next → Type 0 = λ n. n ≢ waits in
    if_elim Moves (is_used_up left) ends-ne-waits (
      if_elim Moves (length batch == limit) again-ne-waits
        (if_elim Moves r.follow (λ h. ends-ne-waits (sym (if_true _ _ closed) ∙ h)) ends-ne-waits))

after_read-Unparked :
    (reply : Reply (List Record)) (s : Store) (r : ConsumeRequest) (offset : ℤ)
    (remaining : Option ℕ)
    → s.tail.closed ≡ true
    → Unparked (after_read reply s r offset remaining)
after_read-Unparked (aborted a) s r offset remaining closed = tt
after_read-Unparked (done batch) s r offset remaining closed =
    after_round-Unparked _ r _ _ (next_step-ne-waits s r _ (limit_of remaining) batch closed)

after_answer-Unparked {ℓ} :
    {A : Type ℓ} (reply : Reply A) (rs : List ProduceRequest) → Unparked (after_answer reply rs)
after_answer-Unparked (done response) rs = (refl, tt)
after_answer-Unparked (aborted a) rs = tt

call_step-Unparked :
    (s : Store) (c : Call) (now : ℤ) (monotonic : ℕ)
    → s.tail.closed ≡ true
    → Unparked (call_step s c now monotonic).0
unfolding call_step
call_step-Unparked s (producing r) now monotonic closed = tt
call_step-Unparked s (streaming []) now monotonic closed = tt
call_step-Unparked s (streaming (r ∷ rs)) now monotonic closed = after_answer-Unparked _ rs
call_step-Unparked s (consuming r offset remaining) now monotonic closed =
    after_read-Unparked _ _ r offset remaining
      ((call_step-Keeps s (consuming r offset remaining) now monotonic).closed ∙ closed)
call_step-Unparked s (parked r offset remaining) now monotonic closed =
    if_elim Unparked s.tail.closed tt (refl, tt)
call_step-Unparked s (asking topics listed) now monotonic closed = tt

-- A consumer that waits ends its stream with its next step.
pub parked-ends :
    (s : Store) (r : ConsumeRequest) (offset : ℤ) (remaining : Option ℕ) (now : ℤ) (monotonic : ℕ)
    → s.tail.closed ≡ true
    → (call_step s (parked r offset remaining) now monotonic).0 ≡ []
unfolding call_step
parked-ends s r offset remaining now monotonic closed = if_true _ _ closed

module _ (H : HealthService) where
  -- From the signal on, at every time: the next step of a consumer that waits for an append ends its
  -- stream, and no step of a call makes it wait.
  pub shut-released :
      {s : Store} {p : Process H}
      → s.ready ≡ false
      → Reach H s p
      → is_shut p.main ≡ true
      → (now : ℤ) (monotonic : ℕ)
      → ((c : Call) → Unparked (call_step p.store c now monotonic).0)
        × ((r : ConsumeRequest) (offset : ℤ) (remaining : Option ℕ)
            → (call_step p.store (parked r offset remaining) now monotonic).0 ≡ [])
  shut-released {s} {p} unready reach shut now monotonic =
      let closed = (Reach-Inv H unready reach).released shut in
      (
        (λ c. call_step-Unparked p.store c now monotonic closed),
        (λ r offset remaining. parked-ends p.store r offset remaining now monotonic closed),
      )
