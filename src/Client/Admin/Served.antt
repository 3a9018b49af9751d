-- ===== src/Client/Admin/Served.antt =====
-- The class Admin in front of the endpoints of broker/admin.py, with what lies between them (HTTP,
-- urllib and JSON) a parameter.
use mathlib.Core.Path.{ap₂}
use pyka.Common.{
  inl, inr, Bool-cases, none, ◌≡◌, refl, sym, ◌∙◌, ap, ℕ, Bool, true, false, some, Result, ok, err,
  ◌==◌, if◌then◌else◌,
}
use pyka.Common.Int.{ℤ, pos_part}
use pyka.Python.Struct.{Bytes}
use pyka.Python.Text.{Str}
use pyka.Topic.Topics.Creation.{create_again}
use pyka.Topic.Topics
use pyka.Broker.Store.{Store}
use pyka.Broker.Admin.{Response, body, status, TopicInfo, readyz, created}
use pyka.Broker.Admin
use pyka.Client.Connection.{Failure, Outcome, returned, raises, running}
use pyka.Client.Admin.{
  Admin, Web, Opened, read, http_error, get, post, request, request_of, outcome_of, create_topic,
  ready, slash_topics, slash_readyz, ready_key, readiness,
}

-- A store, and the time.
abbrev pub World : Type 0
World = Store × ℕ

-- A response as `urlopen` gives it: a status of an error raises HTTPError.
abbrev pub opened_by {ℓ} : {A : Type ℓ} → (A → Bytes) → Response A → Opened
opened_by page (body a) = read (page a)
opened_by page (status code) = http_error code

-- The response of `readyz`.
abbrev pub ready_response : ℕ × Bool → Response Bool
ready_response (code, is_ready) = if code == 200 then body is_ready else status code

-- `page` is the text that FastAPI writes, `value` is what json.loads makes of it.
pub record Serves {J : Type 0} (web : Web World J) (admin : Admin) : Type 0 where
  pub tick : ℕ → ℕ
  pub page : TopicInfo → Bytes
  pub value : TopicInfo → J
  pub ready_page : Bool → Bytes
  pub ready_value : Bool → J
  pub flag : Bool → J
  pub loads : (info : TopicInfo) → web.loads (page info) ≡ ok (value info)
  pub loads_ready : (b : Bool) → web.loads (ready_page b) ≡ ok (ready_value b)
  pub item : (b : Bool) → web.item (ready_value b) ready_key ≡ ok (flag b)
  pub truth : (b : Bool) → web.truth (flag b) ≡ b
  pub posts :
      (s : Store) (now : ℕ) (name : Str) (partitions : ℤ)
      → web.urlopen admin.timeout
          (request_of admin post slash_topics (some (web.dump_topic name partitions)))
          (s, now)
        ≡ (let (response, s') = Admin.create_topic s name (some (pos_part partitions)) now in
            (opened_by page response, (s', tick now)))
  pub gets :
      (s : Store) (now : ℕ)
      → web.urlopen admin.timeout (request_of admin get slash_readyz none) (s, now)
        ≡ (opened_by ready_page (ready_response (readyz s)), (s, tick now))

returned-injective : {A : Type 0} {a b : A} → returned a ≡ returned b → a ≡ b
returned-injective {a = a} p = ap (λ r. elim r [ returned x ↦ x | raises e ↦ a | running ↦ a ]) p

raises-ne-returned : {A : Type 0} {e : Failure} {a : A} → raises e ≡ returned a → ⊥
raises-ne-returned p = cc

body-injective : {A : Type 0} {a b : A} → body a ≡ body b → a ≡ b
body-injective {a = a} p = ap (λ r. elim r [ body x ↦ x | status code ↦ a ]) p

status-ne-body : {A : Type 0} {code : ℕ} {a : A} → status code ≡ body a → ⊥
status-ne-body p = cc

-- What a store answers to a request for a topic, by what the schema says of the count.
create_topic_allowed :
    (s : Store) (name : Str) (n now : ℕ)
    → (n == 0) ≡ false
    → Admin.create_topic s name (some n) now ≡ (
        let (count, t) = Topics.create s.topics name (some n) now in
        (created name count, record s { topics = t }))
unfolding Admin.create_topic
create_topic_allowed s name n now h = rw (h) refl

create_topic_refused :
    (s : Store) (name : Str) (n now : ℕ)
    → (n == 0) ≡ true
    → Admin.create_topic s name (some n) now ≡ (status 422, s)
unfolding Admin.create_topic
create_topic_refused s name n now h = rw (h) refl

created_lem :
    (name : Str) (r : Result ℕ) (info : TopicInfo)
    → created name r ≡ body info
    → (count : ℕ) × (r ≡ ok count) × (info ≡ record { name = name; partitions = count })
created_lem name (ok count) info h = (count, refl, sym (body-injective h))
created_lem name (err e) info h = absurd (status-ne-body h)

-- A request that has made a topic, made again with any number that the schema allows.
create_topic_repeated :
    (s : Store) (name : Str) (n n' now now' : ℕ) (info : TopicInfo)
    → (Admin.create_topic s name (some n) now).0 ≡ body info
    → (n' == 0) ≡ false
    → let s' = (Admin.create_topic s name (some n) now).1 in
      Admin.create_topic s' name (some n') now' ≡ (body info, s')
create_topic_repeated s name n n' now now' info h asked = elim (Bool-cases (n == 0)) [
  | inl is_zero ↦
      absurd (status-ne-body (sym (ap (λ c. c.0) (create_topic_refused s name n now is_zero)) ∙ h))
  | inr positive ↦
      let first = create_topic_allowed s name n now positive in
      let (count, is_count, is_info) =
        created_lem name (Topics.create s.topics name (some n) now).0 info
          (sym (ap (λ c. c.0) first) ∙ h) in
      ap (λ c. Admin.create_topic c.1 name (some n') now') first
      ∙ create_topic_allowed (record s { topics = (Topics.create s.topics name (some n) now).1 })
          name n' now' asked
      ∙ ap (λ (c : Result ℕ × Topics.Topics). (created name c.0, record s { topics = c.1 }))
          (create_again s.topics name (some n) (some n') now now' count is_count)
      ∙ ap₂ (λ (i : TopicInfo) (s' : Store). (body i, s')) (sym is_info) (sym (ap (λ c. c.1) first))
]

module _ {J : Type 0} (web : Web World J) (admin : Admin) (serves : Serves web admin) where
  -- A request for a topic reaches the store, and brings back what the store answers.
  create_topic_served :
      (s : Store) (now : ℕ) (name : Str) (partitions : ℤ)
      → create_topic web admin name partitions (s, now) ≡ (
          let (response, s') = Admin.create_topic s name (some (pos_part partitions)) now in
          (outcome_of web (opened_by serves.page response), (s', serves.tick now)))
  unfolding create_topic request
  create_topic_served s now name partitions =
      ap (λ (c : Opened × World). (outcome_of web c.0, c.1)) (serves.posts s now name partitions)

  read_page :
      (info : TopicInfo)
      → outcome_of web (opened_by serves.page (body info)) ≡ returned (serves.value info)
  read_page info = rw (serves.loads info) refl

  value_lem :
      (r : Response TopicInfo) (v : J)
      → outcome_of web (opened_by serves.page r) ≡ returned v
      → (info : TopicInfo) × (r ≡ body info) × (serves.value info ≡ v)
  value_lem (body info) v h = (info, refl, returned-injective (sym (read_page info) ∙ h))
  value_lem (status code) v h = absurd (raises-ne-returned h)

  readiness_served :
      (b : Bool)
      → readiness web (
          outcome_of web
            (opened_by serves.ready_page (ready_response ((if b then 200 else 503), b))))
        ≡ returned b
  readiness_served true =
      rw (serves.loads_ready true) (rw (serves.item true) (rw (serves.truth true) refl))
  readiness_served false = refl

  -- `Admin.ready` says what the broker is, and never raises: true where `readyz` answers 200, and
  -- false on the 503 that a store answers which is not ready.
  ready_served :
      (s : Store) (now : ℕ) → ready web admin (s, now) ≡ (returned s.ready, (s, serves.tick now))
  unfolding ready request readyz
  ready_served s now =
      ap (λ (c : Opened × World). (readiness web (outcome_of web c.0), c.1)) (serves.gets s now)
      ∙ ap (λ (o : Outcome Bool). (o, (s, serves.tick now))) (readiness_served s.ready)

  -- What the creation of a topic has returned to a client, a later request for the same name
  -- returns again, whatever number of partitions of at least 1 it asks for, and the store stays as
  -- it was.
  pub create_topic_again :
      (s : Store) (now : ℕ) (name : Str) (partitions partitions' : ℤ) (v : J)
      → (create_topic web admin name partitions (s, now)).0 ≡ returned v
      → (pos_part partitions' == 0) ≡ false
      → let later = (create_topic web admin name partitions (s, now)).1 in
        create_topic web admin name partitions' later ≡ (returned v, (later.0, serves.tick later.1))
  create_topic_again s now name partitions partitions' v h asked =
      let first = create_topic_served s now name partitions in
      let (info, is_body, is_v) =
        value_lem (Admin.create_topic s name (some (pos_part partitions)) now).0 v
          (sym (ap (λ c. c.0) first) ∙ h) in
      let s' = (Admin.create_topic s name (some (pos_part partitions)) now).1 in
      ap (λ (c : Outcome J × World). create_topic web admin name partitions' c.1) first
      ∙ create_topic_served s' (serves.tick now) name partitions'
      ∙ ap
          (λ (c : Response TopicInfo × Store).
            (outcome_of web (opened_by serves.page c.0), (c.1, serves.tick (serves.tick now))))
          (create_topic_repeated s name (pos_part partitions) (pos_part partitions') now
            (serves.tick now) info is_body asked)
      ∙ ap (λ (o : Outcome J). (o, (s', serves.tick (serves.tick now))))
          (read_page info ∙ ap returned is_v)
      ∙ ap (λ (c : Outcome J × World). (returned v, (c.1.0, serves.tick c.1.1))) (sym first)
