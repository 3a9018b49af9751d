-- ===== src/Broker/Handler/Draining.antt =====
-- The stream of a consumer that does not follow.
use mathlib.Core.Path.{subst}
use pyka.Common.{
  ℕ, ◌*◌, ◌≤◌, ◌<◌, ◌≡◌, refl, sym, ap, ◌∙◌, List, [], ◌∷◌, ◌++◌, Bool, true, false, Option, none,
  some, ok, arith, length, take, Bool-cases, inl, inr, if_true, if_false, if◌then◌else◌,
  length-drop, All, leb, ltb-false, leb→gt, take_all, ◌==◌, ◌>>=◌, Result,
}
use pyka.Common.Int.{ℤ, ◌≤ℤ◌}
use pyka.Python.Dict.{lookup}
use pyka.Python.Text.{Str}
use pyka.Storage.Record.{Record}
use pyka.Storage.Segment.{Iteration}
use pyka.Storage.Segment.Runs.{IsRun, wanted}
use pyka.Storage.Segment.Reading.{yielding}
use pyka.Storage.Log.{Log}
use pyka.Storage.Log
use pyka.Storage.Log.Chain.{Holds, records, Holds-IsRun}
use pyka.Storage.Log.Reading.{read_from-wanted-records}
use pyka.Topic.Name.{validate_name}
use pyka.Topic.Topics.{Topics, OpenTopic, Partition, eq_str, check_partition, read_from}
use pyka.Topic.Topics.Creation.{existing_hit, get_hit}
use pyka.Broker.Messages.{ConsumeRequest}
use pyka.Broker.Store.{Store, bounded}
use pyka.Broker.Store
use pyka.Broker.Handler.{done}
use pyka.Broker.Handler.Batches.{wanted-next_after}
use pyka.Broker.Handler.Portions.{portion, used_up-portion, short-portion, again-portion}
use pyka.Broker.Handler.Consume.{
  remaining_of, after_reply, Consumption, Next, ends, again, finished, read_reply, read_batch,
  limit_of, remaining_of, next_after, remaining_after, is_used_up, next_step, consume_loop, consume,
  after_batch,
}

-- The store has the topic open, with this partition among its own, and the log of the partition
-- begins at `base` and holds the records `rs`.
pub record Serves (s : Store) (name : Str) (partition base : ℤ) (rs : List Record) : Type 0 where
  pub valid : validate_name name ≡ ok tt
  pub topic : OpenTopic
  pub opened : lookup eq_str s.topics.opened name ≡ some topic
  pub number : ℕ
  pub entry : Partition
  pub checked : check_partition topic partition ≡ ok (number, entry)
  pub parts : List (List Record)
  pub last : List Record
  pub holds : Holds entry.log base parts last
  pub all : records parts last ≡ rs

bounded-yielding :
    (limit : ℕ) (ws : List Record) → 1 ≤ limit → bounded limit (yielding ws) ≡ ok (take limit ws)
bounded-yielding limit ws h =
    if_false _ _ (ltb-false limit 1 h) ∙ elim (Bool-cases (leb limit (length ws))) [
      | inl long ↦ if_true _ _ long
      | inr short ↦
          if_false _ _ short ∙ ap ok (sym (take_all limit ws (omega (arith, leb→gt _ _ short))))
    ]

-- A read of a partition returns what is wanted from the offset on, up to the limit, and leaves the
-- store as it is.
pub read-Serves :
    (s : Store) (name : Str) (partition base offset : ℤ) (rs : List Record) (limit now : ℕ)
    → Serves s name partition base rs
    → base ≤ℤ offset
    → 1 ≤ limit
    → Store.read s name offset partition limit now ≡ (ok (take limit (wanted offset rs)), s)
unfolding Store.read read_from
read-Serves s name partition base offset rs limit now h reached positive =
    let found =
      get_hit s.topics name partition now h.number h.topic h.entry
        (existing_hit s.topics name now h.topic h.valid h.opened) h.checked in
    let log = read_from-wanted-records h.entry.log base h.parts h.last offset h.holds reached in
    ap
      (λ (g : Result Log × Topics).
        ((g.0 >>= λ l. Log.read_from l offset) >>= λ i. bounded limit i, record s { topics = g.1 }))
      found
    ∙ ap (λ (i : Result Iteration). (i >>= λ i. bounded limit i, s))
        (log ∙ ap (λ q. ok (yielding (wanted offset q))) h.all)
    ∙ ap (λ (r : Result (List Record)). (r, s)) (bounded-yielding limit (wanted offset rs) positive)

Serves-IsRun :
    (s : Store) (name : Str) (partition base : ℤ) (rs : List Record)
    → Serves s name partition base rs
    → IsRun base rs
Serves-IsRun s name partition base rs h =
    subst (IsRun base) h.all (Holds-IsRun h.entry.log base h.parts h.last h.holds)

read_batch-Serves :
    (s : Store) (request : ConsumeRequest) (base offset : ℤ) (rs : List Record) (limit now : ℕ)
    → Serves s request.topic request.partition base rs
    → base ≤ℤ offset
    → 1 ≤ limit
    → read_batch s request offset limit now ≡ (done (take limit (wanted offset rs)), s)
unfolding read_batch read_reply
read_batch-Serves s request base offset rs limit now h reached positive =
    ap (λ (r : Result (List Record) × Store). read_reply r request)
      (read-Serves s request.topic request.partition base offset rs limit now h reached positive)

-- The other connections leave the records of the partition as they are.
abbrev pub KeepServing : Str → ℤ → ℤ → List Record → List (Store → Store) → Type 0
KeepServing name partition base rs rounds =
    All
      (λ (others : Store → Store).
        (s : Store) → Serves s name partition base rs → Serves (others s) name partition base rs)
      rounds

-- One round of a consumer that does not follow, with its batch known.
round_lem :
    (others : Store → Store) (rounds : List (Store → Store)) (s : Store) (request : ConsumeRequest)
    (offset : ℤ) (remaining : Option ℕ) (now : ℕ) (batch : List Record)
    → request.follow ≡ false
    → read_batch (others s) request offset (limit_of remaining) now ≡ (done batch, others s)
    → consume_loop (others ∷ rounds) again s request offset remaining now ≡ (
        let left = remaining_after remaining batch in
        let step = next_step (others s) request left (limit_of remaining) batch in
        after_batch step batch
          (others s)
          (consume_loop rounds step (others s) request (next_after offset batch) left now))
unfolding consume_loop
round_lem others rounds s request offset remaining now batch still is_batch =
    let continue = λ (b : List Record) (t : Store).
      after_batch (next_step t request (remaining_after remaining b) (limit_of remaining) b) b t (
        consume_loop rounds
          (next_step t request (remaining_after remaining b) (limit_of remaining) b) t request
          (next_after offset b) (remaining_after remaining b) now) in
    ap (λ (t : Store). after_reply (read_batch t request offset (limit_of remaining) now) continue)
      (if_false {b = request.follow} _ (others s) still)
    ∙ ap (λ r. after_reply r continue) is_batch

next_step-ends :
    (s : Store) (request : ConsumeRequest) (remaining : Option ℕ) (limit : ℕ) (batch : List Record)
    → is_used_up remaining ≡ true
    → next_step s request remaining limit batch ≡ ends
unfolding next_step
next_step-ends s request remaining limit batch h = if_true _ _ h

next_step-again :
    (s : Store) (request : ConsumeRequest) (remaining : Option ℕ) (limit : ℕ) (batch : List Record)
    → is_used_up remaining ≡ false
    → (length batch == limit) ≡ true
    → next_step s request remaining limit batch ≡ again
unfolding next_step
next_step-again s request remaining limit batch h full = if_false _ _ h ∙ if_true _ _ full

next_step-short :
    (s : Store) (request : ConsumeRequest) (remaining : Option ℕ) (limit : ℕ) (batch : List Record)
    → request.follow ≡ false
    → is_used_up remaining ≡ false
    → (length batch == limit) ≡ false
    → next_step s request remaining limit batch ≡ ends
unfolding next_step
next_step-short s request remaining limit batch still h short =
    if_false _ _ h ∙ if_false _ _ short ∙ if_false _ _ still

-- The stream ended, and carried these records.
abbrev pub Delivered : Consumption → List Record → Type 0
Delivered c rs = (c.ending ≡ finished) × (c.records ≡ rs)

drain :
    (rounds : List (Store → Store)) (s : Store) (request : ConsumeRequest) (base offset : ℤ)
    (rs : List Record) (remaining : Option ℕ) (now : ℕ)
    → request.follow ≡ false
    → KeepServing request.topic request.partition base rs rounds
    → Serves s request.topic request.partition base rs
    → base ≤ℤ offset
    → 1 ≤ limit_of remaining
    → length (wanted offset rs) < 500 * length rounds
    → Delivered
        (consume_loop rounds again s request offset remaining now)
        (portion remaining (wanted offset rs))
drain [] s request base offset rs remaining now still keep h reached positive enough =
    absurd (omega arith)
drain (others ∷ rounds) s request base offset rs remaining now still keep h reached positive
      enough =
    let h' = keep.0 s h in
    let ws = wanted offset rs in
    let batch = take (limit_of remaining) ws in
    let is_batch =
      read_batch-Serves (others s) request base offset rs (limit_of remaining) now h' reached
        positive in
    let round = round_lem others rounds s request offset remaining now batch still is_batch in
    let (later, further) =
      wanted-next_after base offset rs (limit_of remaining)
        (Serves-IsRun (others s) request.topic request.partition base rs h') in
    let left = remaining_after remaining batch in
    let rest = λ (step : Next).
      after_batch step batch (others s)
        (consume_loop rounds step (others s) request (next_after offset batch) left now) in
    let by_step =
      λ (step : Next) (e : next_step (others s) request left (limit_of remaining) batch ≡ step)
          (d : Delivered (rest step) (portion remaining ws)).
        subst (λ c. Delivered c (portion remaining ws)) (sym (round ∙ ap rest e)) d in
    elim (Bool-cases (is_used_up left)) [
      | inl used ↦
          by_step ends (next_step-ends (others s) request left (limit_of remaining) batch used)
            (refl, used_up-portion remaining ws used)
      | inr more ↦ elim (Bool-cases (length batch == limit_of remaining)) [
        | inr short ↦
            by_step ends
              (next_step-short (others s) request left (limit_of remaining) batch still more short)
              (refl, short-portion remaining ws short)
        | inl full ↦
            let (split, is_500, long, positive') = again-portion remaining ws more full in
            let ih =
              drain rounds (others s) request base (next_after offset batch) rs left now still
                keep.1 h' (omega (arith, further)) positive'
                (omega (arith, ap length later, length-drop (limit_of remaining) ws, is_500)) in
            by_step again
              (next_step-again (others s) request left (limit_of remaining) batch more full)
              (ih.0, ap (λ q. batch ++ q) (ih.1 ∙ ap (portion left) later) ∙ split)
      ]
    ]

start_pos :
    (follow : Bool) (n : ℕ)
    → 1 ≤ limit_of (if follow then none else if n == 0 then none else some n)
start_pos true n = omega arith
start_pos false n = ground arith

remaining_of-pos : (request : ConsumeRequest) → 1 ≤ limit_of (remaining_of request)
remaining_of-pos request = start_pos request.follow request.max_records

-- A stream that does not follow ends, and it carries the records of the partition from the offset
-- on, in order, each once, or as many of them from the front as were asked for. This holds for a
-- partition that the store has open, from an offset at or past its start, while the other
-- connections leave its records as they are, once there was one more round than the batches take.
pub consume_delivers :
    (rounds : List (Store → Store)) (s : Store) (request : ConsumeRequest) (base : ℤ)
    (rs : List Record) (now : ℕ)
    → request.follow ≡ false
    → KeepServing request.topic request.partition base rs rounds
    → Serves s request.topic request.partition base rs
    → base ≤ℤ request.offset
    → length (wanted request.offset rs) < 500 * length rounds
    → Delivered
        (consume rounds s request now)
        (portion (remaining_of request) (wanted request.offset rs))
unfolding consume
consume_delivers rounds s request base rs now still keep h reached enough =
    drain rounds s request base request.offset rs (remaining_of request) now still keep h reached
      (remaining_of-pos request) enough
