-- ===== src/Process/Kept.antt =====
-- No call changes whether the broker is ready, or whether the waiters were released.
use pyka.Common.{
  ℕ, ◌≡◌, refl, ◌∙◌, List, [], ◌∷◌, Bool, Option, none, some, Option-cases, Result, ok, err, Error,
  Result-cases, if_elim, inl, inr,
}
use pyka.Common.Int.{ℤ}
use pyka.Python.Struct.{Bytes}
use pyka.Python.Text.{Str}
use pyka.Python.Dict.{lookup}
use pyka.Topic.Topics.{Topics, get}
use pyka.Broker.Messages.{ProduceRequest, ConsumeRequest}
use pyka.Broker.Tail.{Tail, Key, eq_key, notify, subscribe}
use pyka.Broker.Store.{Store, announce, append, read}
use pyka.Broker.Handler.{
  refuse, redirect, append_reply, handle_append, produce, describe_topic, describe_topics,
  followed_by, metadata, any_asked, names_asked, response_of, Reply, done, aborted,
}
use pyka.Storage.Record.{Record}
use pyka.Broker.Messages.{TopicMetadata}
use pyka.Broker.Handler.Consume.{watched, read_batch, read_reply, limit_of}
use pyka.Broker.Admin
use pyka.Process.Calls.{
  Call, producing, streaming, consuming, parked, asking, call_step, thread_step, HttpCall, creating,
  describing, inspecting, syncing, rolling, http_step,
}

-- As ready as before, with a tail as closed as before.
pub record Keeps (s t : Store) : Type 0 where
  pub ready : t.ready ≡ s.ready
  pub closed : t.tail.closed ≡ s.tail.closed

Keeps-refl : (s : Store) → Keeps s s
Keeps-refl s = record { ready = refl; closed = refl }

Keeps-trans : {s t u : Store} → Keeps s t → Keeps t u → Keeps s u
Keeps-trans h k = record { ready = k.ready ∙ h.ready; closed = k.closed ∙ h.closed }

-- a method that changes the topics only
Keeps-topics : (s : Store) (t : Topics) → Keeps s (record s { topics = t })
Keeps-topics s t = record { ready = refl; closed = refl }

notify-closed : (t : Tail) (k : Key) → (notify t k).closed ≡ t.closed
unfolding notify
notify-closed t k = elim (Option-cases (lookup eq_key t.events k)) [
  | inl e ↦ rw (e, notify) refl
  | inr (w, e) ↦ rw (e, notify) refl
]

subscribe-closed : (t : Tail) (k : Key) → (subscribe t k).1.closed ≡ t.closed
unfolding subscribe
subscribe-closed t k = elim (Option-cases (lookup eq_key t.events k)) [
  | inl e ↦ rw (e, subscribe) refl
  | inr (w, e) ↦ rw (e, subscribe) refl
]

announce-Keeps :
    (s : Store) (name : Str) (result : Result (ℕ × ℤ)) (t : Topics)
    → Keeps s (announce s name result t).1
announce-Keeps s name (ok (p, offset)) t = record { ready = refl; closed = notify-closed s.tail _ }
announce-Keeps s name (err e) t = Keeps-topics s t

append-Keeps :
    (s : Store) (name : Str) (key value : Option Bytes) (timestamp partition : Option ℤ) (now : ℤ)
    (monotonic : ℕ)
    → Keeps s (append s name key value timestamp partition now monotonic).1
unfolding append
append-Keeps s name key value timestamp partition now monotonic = announce-Keeps s name _ _

redirect-Keeps :
    (s : Store) (r : ProduceRequest) (monotonic : ℕ) → Keeps s (redirect s r monotonic).1
unfolding redirect
redirect-Keeps s r monotonic = elim (Option-cases r.partition) [
  | inl e ↦ rw (e, redirect) (Keeps-topics s _)
  | inr (p, e) ↦ rw (e, redirect) (Keeps-refl s)
]

refuse-Keeps :
    (e : Error) (s : Store) (r : ProduceRequest) (monotonic : ℕ)
    → Keeps s (refuse e s r monotonic).1
unfolding refuse
refuse-Keeps Error.partition_not_local s r monotonic = redirect-Keeps s r monotonic
refuse-Keeps _ s r monotonic = Keeps-refl s

append_reply-Keeps :
    (s : Store) (result : Result (ℕ × ℤ) × Store) (r : ProduceRequest) (monotonic : ℕ)
    → Keeps s result.1
    → Keeps s (append_reply result r monotonic).1
unfolding append_reply
append_reply-Keeps s (ok landed, t) r monotonic h = h
append_reply-Keeps s (err e, t) r monotonic h = Keeps-trans h (refuse-Keeps e t r monotonic)

produce-Keeps :
    (s : Store) (r : ProduceRequest) (now : ℤ) (monotonic : ℕ)
    → Keeps s (produce s r now monotonic).1
unfolding produce handle_append
produce-Keeps s r now monotonic =
    append_reply-Keeps s _ r monotonic
      (append-Keeps s r.topic r.key r.value r.timestamp r.partition now monotonic)

watched-Keeps : (s : Store) (r : ConsumeRequest) → Keeps s (watched s r)
watched-Keeps s r =
    if_elim (Keeps s) r.follow
      (record { ready = refl; closed = subscribe-closed s.tail (r.topic, r.partition) })
      (Keeps-refl s)

read_reply-Keeps :
    (s : Store) (answer : Result (List Record) × Store) (r : ConsumeRequest)
    → Keeps s answer.1
    → Keeps s (read_reply answer r).1
unfolding read_reply
read_reply-Keeps s (ok batch, t) r h = h
read_reply-Keeps s (err e, t) r h = h

read_batch-Keeps :
    (s : Store) (r : ConsumeRequest) (offset : ℤ) (limit now : ℕ)
    → Keeps s (read_batch s r offset limit now).1
unfolding read_batch read
read_batch-Keeps s r offset limit now = read_reply-Keeps s _ r (Keeps-topics s _)

followed_by-Keeps :
    (s : Store) (first : Reply (Option TopicMetadata) × Store)
    (rest : Reply (List TopicMetadata) × Store)
    → Keeps s first.1
    → Keeps s rest.1
    → Keeps s (followed_by first rest).1
followed_by-Keeps s (aborted a, t) rest h k = h
followed_by-Keeps s (done none, t) rest h k = k
followed_by-Keeps s (done (some topic), t) rest h k = k

describe_topics-Keeps :
    (asked : Bool) (s : Store) (names : List Str) (monotonic : ℕ)
    → Keeps s (describe_topics asked s names monotonic).1
unfolding describe_topics describe_topic
describe_topics-Keeps asked s [] monotonic = Keeps-refl s
describe_topics-Keeps asked s (name ∷ names) monotonic =
    followed_by-Keeps s (describe_topic asked s name monotonic) _ (Keeps-topics s _) (
      Keeps-trans (Keeps-topics s _)
        (describe_topics-Keeps asked (describe_topic asked s name monotonic).1 names monotonic))

response_of-Keeps :
    (s : Store) (answer : Reply (List TopicMetadata) × Store)
    → Keeps s answer.1
    → Keeps s (response_of answer).1
response_of-Keeps s (done ts, t) h = h
response_of-Keeps s (aborted a, t) h = h

metadata-Keeps :
    (s : Store) (topics listed : List Str) (monotonic : ℕ)
    → Keeps s (metadata s topics listed monotonic).1
unfolding metadata
metadata-Keeps s topics listed monotonic =
    let answer = describe_topics (any_asked topics) s (names_asked topics listed) monotonic in
    response_of-Keeps s answer
      (describe_topics-Keeps (any_asked topics) s (names_asked topics listed) monotonic)

-- Whatever a call does, the broker stays as ready, and its tail as closed, as it was.
pub call_step-Keeps :
    (s : Store) (c : Call) (now : ℤ) (monotonic : ℕ) → Keeps s (call_step s c now monotonic).1
unfolding call_step
call_step-Keeps s (producing r) now monotonic = produce-Keeps s r now monotonic
call_step-Keeps s (streaming []) now monotonic = Keeps-refl s
call_step-Keeps s (streaming (r ∷ rs)) now monotonic = produce-Keeps s r now monotonic
call_step-Keeps s (consuming r offset remaining) now monotonic =
    Keeps-trans (watched-Keeps s r)
      (read_batch-Keeps (watched s r) r offset (limit_of remaining) monotonic)
call_step-Keeps s (parked r offset remaining) now monotonic = Keeps-refl s
call_step-Keeps s (asking topics listed) now monotonic = metadata-Keeps s topics listed monotonic

pub thread_step-Keeps :
    (s : Store) (c : Call) (now : ℤ) (monotonic : ℕ) → Keeps s (thread_step s c now monotonic)
unfolding thread_step read
thread_step-Keeps s (producing r) now monotonic = Keeps-topics s _
thread_step-Keeps s (streaming []) now monotonic = Keeps-refl s
thread_step-Keeps s (streaming (r ∷ rs)) now monotonic = Keeps-topics s _
thread_step-Keeps s (consuming r offset remaining) now monotonic = Keeps-topics s _
thread_step-Keeps s (parked r offset remaining) now monotonic = Keeps-refl s
thread_step-Keeps s (asking topics listed) now monotonic = Keeps-refl s

create_topic-Keeps :
    (s : Store) (name : Str) (partitions : Option ℕ) (now : ℕ)
    → Keeps s (Admin.create_topic s name partitions now).1
unfolding Admin.create_topic
create_topic-Keeps s name partitions now =
    if_elim (λ (answer : Admin.Response Admin.TopicInfo × Store). Keeps s answer.1)
      (Admin.is_refused partitions) (Keeps-refl s) (Keeps-topics s _)

sync_these-Keeps :
    (s : Store) (name : Str) (logs : Result (List ℕ) × Topics)
    → Keeps s (Admin.sync_these s name logs).1
unfolding Admin.sync_these
sync_these-Keeps s name (err e, t) = Keeps-topics s t
sync_these-Keeps s name (ok ps, t) = Keeps-topics s _

sync_counted-Keeps :
    (s : Store) (name : Str) (now : ℕ) (count : Result ℕ × Topics)
    → Keeps s (Admin.sync_counted s name now count).1
unfolding Admin.sync_counted
sync_counted-Keeps s name now (err e, t) = Keeps-topics s t
sync_counted-Keeps s name now (ok n, t) = sync_these-Keeps s name _

roll_partition-Keeps :
    (s : Store) (name : Str) (partition : ℤ) (now : ℕ)
    → Keeps s (Admin.roll_partition s name partition now).1
unfolding Admin.roll_partition
roll_partition-Keeps s name partition now =
    elim (Result-cases (get s.topics name partition now).0) [
      | inl (l, e) ↦ rw (e, Admin.roll_partition) (Keeps-topics s _)
      | inr (x, e) ↦ rw (e, Admin.roll_partition) (Keeps-topics s _)
    ]

pub http_step-Keeps : (s : Store) (c : HttpCall) (now : ℕ) → Keeps s (http_step s c now)
unfolding http_step Admin.describe_topic Admin.describe_partition Admin.sync_topic
http_step-Keeps s (creating name partitions) now = create_topic-Keeps s name partitions now
http_step-Keeps s (describing name) now = Keeps-topics s _
http_step-Keeps s (inspecting name partition) now = Keeps-topics s _
http_step-Keeps s (syncing name) now = sync_counted-Keeps s name now _
http_step-Keeps s (rolling name partition) now = roll_partition-Keeps s name partition now
