-- ===== src/Broker/Handler/Streaming.antt =====
-- The answers of `produce_stream` against its requests.
use pyka.Common.{
  ℕ, ◌<◌, ◌≡◌, refl, ap, List, [], ◌∷◌, map, none, some, take, length, arith, inl, inr, ◌⊎◌,
}
use pyka.Common.Int.{ℤ}
use pyka.Broker.Messages.{ProduceRequest, ProduceResponse}
use pyka.Broker.Store.{Store}
use pyka.Broker.Handler.{
  Abort, Reply, done, aborted, Stream, answer_first, response_to, handle_append, produce,
  produce_stream,
}

-- The stream answers the requests from the front, and either all of them, or it was aborted.
abbrev pub Answers : List ProduceRequest → Stream ProduceResponse → Type 0
Answers requests st =
    (map (λ response. response.correlation_id) st.sent
      ≡ map (λ request. request.correlation_id) (take (length st.sent) requests))
    × (((length st.sent ≡ length requests) × (st.abort ≡ none))
        ⊎ ((length st.sent < length requests) × (a : Abort) × (st.abort ≡ some a)))

answer_first-Answers :
    (request : ProduceRequest) (requests : List ProduceRequest) (reply : Reply (ℕ × ℤ)) (s : Store)
    (rest : Stream ProduceResponse)
    → Answers requests rest
    → Answers (request ∷ requests) (answer_first (response_to request reply, s) rest)
answer_first-Answers request requests (aborted a) s rest h = (refl, inr (omega arith, a, refl))
answer_first-Answers request requests (done landed) s rest h = (
  ap (λ ids. request.correlation_id ∷ ids) h.0,
  elim h.1 [
    | inl all ↦ inl (omega (arith, all.0), all.1)
    | inr some_of ↦ inr (omega (arith, some_of.0), some_of.1, some_of.2)
  ],
)

-- A stream of records is answered in the order of the requests, each answer with the correlation id
-- of its request: all of them, or those before the one that made the broker abort the call.
pub produce_stream-Answers :
    (s : Store) (requests : List ProduceRequest) (now : ℤ) (monotonic : ℕ)
    → Answers requests (produce_stream s requests now monotonic)
unfolding produce_stream produce
produce_stream-Answers s [] now monotonic = (refl, inl (refl, refl))
produce_stream-Answers s (request ∷ requests) now monotonic =
    let first = handle_append s request now monotonic in
    answer_first-Answers request requests first.0 first.1
      (produce_stream first.1 requests now monotonic)
      (produce_stream-Answers first.1 requests now monotonic)
