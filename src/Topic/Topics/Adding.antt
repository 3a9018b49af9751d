-- ===== src/Topic/Topics/Adding.antt =====
-- What the calls that write or route do to the records of a partition, whatever they are given.
use mathlib.Core.Path.{subst}
use mathlib.Core.Option.{some-injective}
use pyka.Common.{>>=-ok}
use pyka.Common.{
  ℕ, ◌≡◌, refl, sym, ap, ◌∙◌, List, false, Option, none, some, Option-cases, Result-cases,
  err-ne-ok, ◌>>=◌, Bool-cases, inl, inr, false-ne-true, none-ne-some,
}
use pyka.Common.Int.{ℤ}
use pyka.Python.Struct.{Bytes}
use pyka.Python.Dict.{lookup, lookup-store_other}
use pyka.Python.Text.{Str}
use pyka.Storage.Record.{Record}
use pyka.Cluster.Ring.{range}
use pyka.Topic.Name.{validate_name}
use pyka.Topic.Topics.{
  OpenTopic, Topics, eq_str, eq_number, existing, cached, check_partition, ensure_meta, open_locked,
  open_partitions,
}
use pyka.Topic.Topics.Creation.{
  eq_str-eq, eq_str_refl, cached_hit, cached_miss, open_locked_failed, open_locked_opened,
  cached-lookup,
}
use pyka.Topic.Topics.Routing.{check_partition-lookup}
use pyka.Topic.Topics.Writing.{route, append_entry, chosen, put_back, append_open, append}
use pyka.Topic.Topics.Storing.{
  Stored, Effect, untouched, landed, entry-Effect, put_back-other_topic,
}

-- The cache holds what it held, whatever the partitioner and the topic.json files have become.
Stored-cache :
    (t t' : Topics) (name : Str) (p : ℕ) (base : ℤ) (rs : List Record)
    → t'.opened ≡ t.opened
    → Stored t name p base rs
    → Stored t' name p base rs
Stored-cache t t' name p base rs same h = record {
  valid = h.valid;
  topic = h.topic;
  opened = ap (λ os. lookup eq_str os name) same ∙ h.opened;
  entry = h.entry;
  inside = h.inside;
  here = h.here;
  carries = h.carries;
}

chosen-opened :
    (t : Topics) (o : OpenTopic) (key : Option Bytes) (partition : Option ℤ)
    → (chosen t o key partition).1.opened ≡ t.opened
unfolding chosen
chosen-opened t o key (some p) = refl
chosen-opened t o key none = refl

ensure_meta-opened :
    (t : Topics) (name : Str) (partitions : Option ℕ)
    → (ensure_meta t name partitions).1.opened ≡ t.opened
unfolding ensure_meta
ensure_meta-opened t name partitions = elim (Option-cases (lookup eq_str t.metas name)) [
  | inl new ↦ rw (new, ensure_meta) refl
  | inr (count, known) ↦ rw (known, ensure_meta) refl
]

-- A topic that is not open is opened beside this one.
open_locked-Stored :
    (t : Topics) (name name' : Str) (partitions : Option ℕ) (now p : ℕ) (base : ℤ)
    (rs : List Record)
    → lookup eq_str t.opened name' ≡ none
    → Stored t name p base rs
    → Stored (open_locked t name' partitions now).1 name p base rs
open_locked-Stored t name name' partitions now p base rs miss h =
    let t' = (ensure_meta t name' partitions).1 in
    let h' = Stored-cache t t' name p base rs (ensure_meta-opened t name' partitions) h in
    let other : eq_str name' name ≡ false = elim (Bool-cases (eq_str name' name)) [
      | inr other ↦ other
      | inl same ↦ absurd (
          none-ne-some
            (sym miss ∙ ap (lookup eq_str t.opened) (eq_str-eq name' name same) ∙ h.opened))
    ] in
    elim (Result-cases
      (open_partitions t' name' now (range 0 (ensure_meta t name' partitions).0))) [
        | inr (e, failed) ↦ rw (open_locked_failed t name' partitions now e failed) h'
        | inl (local, opened) ↦
            rw (open_locked_opened t name' partitions now local opened) (record {
              valid = h'.valid;
              topic = h'.topic;
              opened = lookup-store_other eq_str eq_str-eq t'.opened name' name _ other ∙ h'.opened;
              entry = h'.entry;
              inside = h'.inside;
              here = h'.here;
              carries = h'.carries;
            })
      ]

pub cached-Stored :
    (t : Topics) (name name' : Str) (partitions : Option ℕ) (now p : ℕ) (base : ℤ)
    (rs : List Record)
    → Stored t name p base rs
    → Stored (cached t name' partitions now).1 name p base rs
cached-Stored t name name' partitions now p base rs h =
    elim (Option-cases (lookup eq_str t.opened name')) [
      | inr (o, hit) ↦ rw (cached_hit t name' partitions now o hit) h
      | inl miss ↦
          rw (cached_miss t name' partitions now miss)
            (open_locked-Stored t name name' partitions now p base rs miss h)
    ]

append_open-Effect :
    (t : Topics) (name : Str) (p : ℕ) (base : ℤ) (rs : List Record) (name' : Str) (o : OpenTopic)
    (key value : Option Bytes) (timestamp partition : Option ℤ) (now : ℤ) (monotonic : ℕ)
    → Stored t name p base rs
    → lookup eq_str t.opened name' ≡ some o
    → let done = append_open t name' o key value timestamp partition now monotonic in
      Effect name p base rs name' key value done.0 done.1
unfolding append_open
append_open-Effect t name p base rs name' o key value timestamp partition now monotonic h hit =
    let t' = (chosen t o key partition).1 in
    let kept = chosen-opened t o key partition in
    let h' = Stored-cache t t' name p base rs kept h in
    elim (Result-cases ((chosen t o key partition).0 >>= λ p. check_partition o p)) [
      | inr (e, refused) ↦
          rw (refused, append_open) (untouched h' (λ o' same is_ok. err-ne-ok is_ok))
      | inl ((q, entry), accepted) ↦
          rw (accepted, append_open)
            (elim (Bool-cases (eq_str name' name)) [
              | inr other ↦
                  untouched (put_back-other_topic t' name name' o p q _ base rs other h')
                    (λ o' same is_ok.
                      false-ne-true (sym other ∙ ap (λ n. eq_str n name) same ∙ eq_str_refl name))
              | inl same ↦
                  let (p', _, checked) = >>=-ok (chosen t o key partition).0 _ _ accepted in
                  let is_name : name' ≡ name = eq_str-eq name' name same in
                  let is_topic : h'.topic ≡ o = some-injective h'.topic o (
                    sym h'.opened
                    ∙ ap (λ os. lookup eq_str os name) kept
                    ∙ ap (lookup eq_str t.opened) (sym is_name)
                    ∙ hit) in
                  let done = append_entry t' entry key value timestamp now monotonic in
                  let found =
                    subst (λ (o : OpenTopic). lookup eq_number o.local q ≡ some entry)
                      (sym is_topic) (check_partition-lookup o p' q entry checked) in
                  subst
                    (λ n.
                      Effect name p base rs n key value (landed q done.0)
                        (put_back t' n o q done.1))
                    (sym is_name)
                    (subst
                      (λ o.
                        Effect name p base rs name key value (landed q done.0)
                          (put_back t' name o q done.1))
                      is_topic
                      (entry-Effect t' name p q entry base rs key value timestamp now monotonic h'
                        found))
            ])
    ]

-- Whatever an append is given, and whether it raises or not: it leaves the records of the partition
-- as they are and does not say otherwise, or it adds one record at their end, with the key and the
-- value that it was given, and returns where the record stands.
pub append-Effect :
    (t : Topics) (name : Str) (p : ℕ) (base : ℤ) (rs : List Record) (name' : Str)
    (key value : Option Bytes) (timestamp partition : Option ℤ) (now : ℤ) (monotonic : ℕ)
    → Stored t name p base rs
    → let done = append t name' key value timestamp partition now monotonic in
      Effect name p base rs name' key value done.0 done.1
unfolding append
append-Effect t name p base rs name' key value timestamp partition now monotonic h =
    let h' = cached-Stored t name name' none monotonic p base rs h in
    elim (Result-cases (validate_name name')) [
      | inr (e, bad) ↦ rw (bad, append) (untouched h (λ o same is_ok. err-ne-ok is_ok))
      | inl (_, valid) ↦ elim (Result-cases (cached t name' none monotonic).0) [
        | inr (e, failed) ↦
            rw (valid, append) (rw failed (untouched h' (λ o same is_ok. err-ne-ok is_ok)))
        | inl (o, is_o) ↦
            rw (valid, append)
              (rw is_o (
                append_open-Effect _ name p base rs name' o key value timestamp partition now
                  monotonic h' (cached-lookup t name' none monotonic o is_o)))
      ]
    ]

pub existing-Stored :
    (t : Topics) (name name' : Str) (now p : ℕ) (base : ℤ) (rs : List Record)
    → Stored t name p base rs
    → Stored (existing t name' now).1 name p base rs
unfolding existing
existing-Stored t name name' now p base rs h = elim (Result-cases (validate_name name')) [
  | inr (e, bad) ↦ rw (bad, existing) h
  | inl (_, valid) ↦ elim (Option-cases (lookup eq_str t.opened name')) [
    | inr (o, hit) ↦ rw (valid, hit, existing) h
    | inl miss ↦ elim (Option-cases (lookup eq_str t.metas name')) [
      | inl unknown ↦ rw (valid, miss, unknown, existing) h
      | inr (count, known) ↦
          rw (valid, miss, known, existing)
            (open_locked-Stored t name name' none now p base rs miss h)
    ]
  ]
]

pub route-Stored :
    (t : Topics) (name name' : Str) (key : Option Bytes) (now p : ℕ) (base : ℤ) (rs : List Record)
    → Stored t name p base rs
    → Stored (route t name' key now).1 name p base rs
unfolding route
route-Stored t name name' key now p base rs h =
    let h' = existing-Stored t name name' now p base rs h in
    elim (Result-cases (existing t name' now).0) [
      | inr (e, failed) ↦ rw (failed, route) h'
      | inl (o, is_o) ↦
          rw (is_o, route) (Stored-cache (existing t name' now).1 _ name p base rs refl h')
    ]
