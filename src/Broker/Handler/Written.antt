-- ===== src/Broker/Handler/Written.antt =====
-- A Produce call and the records of a partition, its own or another one.
use pyka.Common.{
  ℕ, ◌≡◌, ◌≢◌, refl, ap, ◌∙◌, List, [], ◌∷◌, ◌++◌, Option, Option-cases, inl, inr, Result, ok, err,
  Error, ok-injective, err-ne-ok, length,
}
use pyka.Common.Int.{ℤ, pos, ◌+ℤ◌}
use pyka.Python.Struct.{Bytes}
use pyka.Python.Text.{Str}
use pyka.Storage.Record.{Record}
use pyka.Topic.Topics.{Topics}
use pyka.Topic.Topics.Storing.{Stored, Effect, untouched, added}
use pyka.Topic.Topics.Adding.{append-Effect, route-Stored}
use pyka.Broker.Messages.{ProduceRequest, ProduceResponse}
use pyka.Broker.Store.{Store, announce}
use pyka.Broker.Store
use pyka.Broker.Handler.{
  Abort, Reply, done, aborted, redirect, refuse, append_reply, handle_append, response_to, produce,
}

-- What a Produce call has done to the partition `p` of `name`: it has left the records as they are
-- and not answered otherwise, or it has added the record of its request and answered where it stands.
pub data Produced (name : Str) (p : ℕ) (base : ℤ) (rs : List Record) (request : ProduceRequest)
    (reply : Reply ProduceResponse) (s : Store) : Type 0 where
  aside :
      Stored s.topics name p base rs
      → ((response : ProduceResponse)
          → request.topic ≡ name
          → response.partition ≡ p
          → reply ≢ done response)
      → Produced name p base rs request reply s
  written :
      (r : Record) (response : ProduceResponse)
      → reply ≡ done response
      → response.offset ≡ base +ℤ pos (length rs)
      → r.key ≡ request.key
      → r.value ≡ request.value
      → Stored s.topics name p base (rs ++ (r ∷ []))
      → Produced name p base rs request reply s

announce-Effect :
    (s : Store) (name : Str) (p : ℕ) (base : ℤ) (rs : List Record) (name' : Str)
    (key value : Option Bytes) (result : Result (ℕ × ℤ)) (t : Topics)
    → Effect name p base rs name' key value result t
    → Effect name p base rs name' key value
        (announce s name' result t).0
        (announce s name' result t).1.topics
announce-Effect s name p base rs name' key value (ok (q, o)) t h = h
announce-Effect s name p base rs name' key value (err e) t h = h

redirect-Stored :
    (s : Store) (request : ProduceRequest) (monotonic : ℕ) (name : Str) (p : ℕ) (base : ℤ)
    (rs : List Record)
    → Stored s.topics name p base rs
    → Stored (redirect s request monotonic).1.topics name p base rs
unfolding redirect
redirect-Stored s request monotonic name p base rs h = elim (Option-cases request.partition) [
  | inl e ↦
      rw (e, redirect) (route-Stored s.topics name request.topic request.key monotonic p base rs h)
  | inr (q, e) ↦ rw (e, redirect) h
]

refuse-Stored :
    (e : Error) (s : Store) (request : ProduceRequest) (monotonic : ℕ) (name : Str) (p : ℕ)
    (base : ℤ) (rs : List Record)
    → Stored s.topics name p base rs
    → Stored (refuse e s request monotonic).1.topics name p base rs
unfolding refuse
refuse-Stored Error.partition_not_local s request monotonic name p base rs h =
    redirect-Stored s request monotonic name p base rs h
refuse-Stored _ s request monotonic name p base rs h = h

pub done-injective {ℓ} : {A : Type ℓ} {a b : A} → done a ≡ done b → a ≡ b
done-injective {a = a} h = ap (λ r. elim r [ done x ↦ x | aborted _ ↦ a ]) h

aborted-ne-done {ℓ} : {A : Type ℓ} (a : Abort) (b : A) → aborted a ≡ done b → ⊥
aborted-ne-done a b h = cc

append_reply-Produced :
    (result : Result (ℕ × ℤ)) (s : Store) (request : ProduceRequest) (monotonic : ℕ) (name : Str)
    (p : ℕ) (base : ℤ) (rs : List Record)
    → Effect name p base rs request.topic request.key request.value result s.topics
    → let answer = append_reply (result, s) request monotonic in
      Produced name p base rs request (response_to request answer.0) answer.1
unfolding append_reply
append_reply-Produced (ok (q, o)) s request monotonic name p base rs (untouched h apart) =
    aside h (λ response same at is_done. apart o same (
      ap (λ z. ok (z, o))
        (ap (λ (z : ProduceResponse). z.partition) (done-injective is_done) ∙ at)))
append_reply-Produced (ok (q, o)) s request monotonic name p base rs (added r same is_ok k v h) =
    written r _ refl (ap (λ z. z.1) (ok-injective is_ok)) k v h
append_reply-Produced (err e) s request monotonic name p base rs (untouched h apart) =
    aside (refuse-Stored e s request monotonic name p base rs h)
      (λ response same at is_done. aborted-ne-done _ response is_done)
append_reply-Produced (err e) s request monotonic name p base rs (added r same is_ok k v h) =
    absurd (err-ne-ok is_ok)

-- Whatever a Produce call is given, and however it ends: it leaves the records of the partition as
-- they are and does not answer otherwise, or it adds the record of its request and answers where.
pub produce-Produced :
    (s : Store) (request : ProduceRequest) (now : ℤ) (monotonic : ℕ) (name : Str) (p : ℕ) (base : ℤ)
    (rs : List Record)
    → Stored s.topics name p base rs
    → let done = produce s request now monotonic in Produced name p base rs request done.0 done.1
unfolding produce handle_append Store.append
produce-Produced s request now monotonic name p base rs h =
    let effect =
      append-Effect s.topics name p base rs request.topic request.key request.value
        request.timestamp request.partition now monotonic h in
    append_reply-Produced _ _ request monotonic name p base rs
      (announce-Effect s name p base rs request.topic request.key request.value _ _ effect)
