-- ===== src/Topic/Topics/Storing.antt =====
-- What an append does to the records of a partition, its own or another one.
use mathlib.Core.Path.{subst}
use mathlib.Core.Option.{some-injective}
use pyka.Common.{
  ℕ, ◌+◌, ◌-◌, ◌<◌, ◌≡◌, ◌≢◌, refl, sym, ap, ◌∙◌, List, [], ◌∷◌, ◌++◌, false, Option, some, Result,
  ok, err, ok-injective, err-ne-ok, ◌>>=◌, Bool-cases, inl, inr, ==_iff, ==_refl, length,
  false-ne-true,
}
use pyka.Common.Int.{ℤ, pos, ◌+ℤ◌}
use pyka.Python.Struct.{Bytes}
use pyka.Python.Dict.{lookup, store, lookup-store, lookup-store_other}
use pyka.Python.Text.{Str}
use pyka.Storage.Record.{Record}
use pyka.Storage.Log.{Log, stamp}
use pyka.Storage.Log
use pyka.Storage.Log.Growth.{sync-Carries, Carries, Outcome, append-Outcome}
use pyka.Topic.Policy.{should_sync}
use pyka.Topic.Name.{validate_name}
use pyka.Topic.Topics.{Partition, OpenTopic, Topics, eq_str, eq_number}
use pyka.Topic.Topics.Creation.{eq_str-eq, eq_str_refl}
use pyka.Topic.Topics.Routing.{eq_number-eq}
use pyka.Topic.Topics.Writing.{append_entry, put_back}

-- The object has the topic open with the log of this partition, which begins at `base` and holds the
-- records `rs`.
pub record Stored (t : Topics) (name : Str) (p : ℕ) (base : ℤ) (rs : List Record) : Type 0 where
  pub valid : validate_name name ≡ ok tt
  pub topic : OpenTopic
  pub opened : lookup eq_str t.opened name ≡ some topic
  pub entry : Partition
  pub inside : p < topic.partitions
  pub here : lookup eq_number topic.local p ≡ some entry
  pub carries : Carries entry.log base rs

append_entry-Outcome :
    (t : Topics) (entry : Partition) (base : ℤ) (rs : List Record) (key value : Option Bytes)
    (timestamp : Option ℤ) (now : ℤ) (monotonic : ℕ)
    → Carries entry.log base rs
    → Outcome base rs
        (stamp entry.log key value timestamp now)
        (append_entry t entry key value timestamp now monotonic).0
        (append_entry t entry key value timestamp now monotonic).1.log
unfolding append_entry
append_entry-Outcome t entry base rs key value timestamp now monotonic h =
    let l = (Log.append entry.log key value timestamp now).1 in
    elim (append-Outcome entry.log base rs key value timestamp now h) [
      | inr (e, failed, h') ↦ rw (failed, append_entry) (inr (e, refl, h'))
      | inl (added, h') ↦
          let (synced, h'') = sync-Carries l base rs' h' in
          elim (Bool-cases
            (should_sync t.sync_policy (entry.appends + 1) (monotonic - entry.synced_at))) [
              | inl due ↦ rw (added, due, ap (λ s. s.0) synced, append_entry) (inl (refl, h''))
              | inr not_due ↦ rw (added, not_due, append_entry) (inl (refl, h'))
            ]
    ]
  where
    rs' : List Record
    rs' = rs ++ (stamp entry.log key value timestamp now ∷ [])

-- Another call to the cache, or an entry of another partition, leaves the partition as it is.
pub put_back-other_topic :
    (t : Topics) (name name' : Str) (o : OpenTopic) (p q : ℕ) (entry : Partition) (base : ℤ)
    (rs : List Record)
    → eq_str name' name ≡ false
    → Stored t name p base rs
    → Stored (put_back t name' o q entry) name p base rs
unfolding put_back
put_back-other_topic t name name' o p q entry base rs other h = record {
  valid = h.valid;
  topic = h.topic;
  opened = lookup-store_other eq_str eq_str-eq t.opened name' name _ other ∙ h.opened;
  entry = h.entry;
  inside = h.inside;
  here = h.here;
  carries = h.carries;
}

put_back-other_partition :
    (t : Topics) (name : Str) (p q : ℕ) (entry : Partition) (base : ℤ) (rs : List Record)
    (h : Stored t name p base rs)
    → eq_number q p ≡ false
    → Stored (put_back t name h.topic q entry) name p base rs
unfolding put_back
put_back-other_partition t name p q entry base rs h other = record {
  valid = h.valid;
  topic = record h.topic { local = store eq_number h.topic.local q entry };
  opened = lookup-store eq_str t.opened name _ (eq_str_refl name);
  entry = h.entry;
  inside = h.inside;
  here = lookup-store_other eq_number eq_number-eq h.topic.local q p entry other ∙ h.here;
  carries = h.carries;
}

put_back-here :
    (t : Topics) (name : Str) (p : ℕ) (entry : Partition) (base : ℤ) (rs rs' : List Record)
    (h : Stored t name p base rs)
    → Carries entry.log base rs'
    → Stored (put_back t name h.topic p entry) name p base rs'
unfolding put_back
put_back-here t name p entry base rs rs' h grown = record {
  valid = h.valid;
  topic = record h.topic { local = store eq_number h.topic.local p entry };
  opened = lookup-store eq_str t.opened name _ (eq_str_refl name);
  entry = entry;
  inside = h.inside;
  here = lookup-store eq_number h.topic.local p entry (==_refl p);
  carries = grown;
}

-- An entry whose log is changed, but not its records.
pub put_back-Stored :
    (t : Topics) (name : Str) (p : ℕ) (base : ℤ) (rs : List Record) (name' : Str) (o : OpenTopic)
    (q : ℕ) (entry : Partition) (l : Log)
    → Stored t name p base rs
    → lookup eq_str t.opened name' ≡ some o
    → lookup eq_number o.local q ≡ some entry
    → ((rs : List Record) → Carries entry.log base rs → Carries l base rs)
    → Stored (put_back t name' o q (record entry { log = l })) name p base rs
put_back-Stored t name p base rs name' o q entry l h hit found kept =
    elim (Bool-cases (eq_str name' name)) [
      | inr other ↦ put_back-other_topic t name name' o p q _ base rs other h
      | inl same ↦
          let is_name : name' ≡ name = eq_str-eq name' name same in
          let is_topic : h.topic ≡ o =
            some-injective h.topic o
              (sym h.opened ∙ ap (lookup eq_str t.opened) (sym is_name) ∙ hit) in
          let at_name =
            λ (entry' : Partition). Stored (put_back t name' o q entry') name p base rs in
          let moved =
            λ (entry' : Partition) (k : Stored (put_back t name h.topic q entry') name p base rs).
              subst (λ n. Stored (put_back t n o q entry') name p base rs) (sym is_name)
                (subst (λ o. Stored (put_back t name o q entry') name p base rs) is_topic k) in
          elim (Bool-cases (eq_number q p)) [
            | inr other ↦ moved _ (put_back-other_partition t name p q _ base rs h other)
            | inl here ↦
                let is_p : q ≡ p = eq_number-eq q p here in
                let is_entry : h.entry ≡ entry = some-injective h.entry entry (
                  sym h.here
                  ∙ ap (lookup eq_number h.topic.local) (sym is_p)
                  ∙ ap (λ o. lookup eq_number o.local q) is_topic
                  ∙ found) in
                moved (record entry { log = l })
                  (subst
                    (λ z.
                      Stored (put_back t name h.topic z (record entry { log = l })) name p base rs)
                    (sym is_p)
                    (put_back-here t name p (record entry { log = l }) base rs rs h
                      (kept rs
                        (subst (λ (e : Partition). Carries e.log base rs) is_entry h.carries))))
          ]
    ]

-- What a call with the topic `name'` has done to the partition `p` of `name`: nothing, and it has
-- not reported that it did, or it has added a record with this key and value, and says where.
pub data Effect (name : Str) (p : ℕ) (base : ℤ) (rs : List Record) (name' : Str)
    (key value : Option Bytes) (result : Result (ℕ × ℤ)) (t : Topics) : Type 0 where
  untouched :
      Stored t name p base rs
      → ((o : ℤ) → name' ≡ name → result ≢ ok (p, o))
      → Effect name p base rs name' key value result t
  added :
      (r : Record)
      → name' ≡ name
      → result ≡ ok (p, base +ℤ pos (length rs))
      → r.key ≡ key
      → r.value ≡ value
      → Stored t name p base (rs ++ (r ∷ []))
      → Effect name p base rs name' key value result t

-- the result of `append_open`, from that of the entry
abbrev pub landed : ℕ → Result ℤ → Result (ℕ × ℤ)
landed q result = result >>= λ offset. ok (q, offset)

landed-partition : (q p : ℕ) (result : Result ℤ) (o : ℤ) → landed q result ≡ ok (p, o) → q ≡ p
landed-partition q p (ok offset) o h = ap (λ z. z.0) (ok-injective h)
landed-partition q p (err e) o h = absurd (err-ne-ok h)

pub entry-Effect :
    (t : Topics) (name : Str) (p q : ℕ) (entry : Partition) (base : ℤ) (rs : List Record)
    (key value : Option Bytes) (timestamp : Option ℤ) (now : ℤ) (monotonic : ℕ)
    (h : Stored t name p base rs)
    → lookup eq_number h.topic.local q ≡ some entry
    → let done = append_entry t entry key value timestamp now monotonic in
      Effect name p base rs name key value (landed q done.0) (put_back t name h.topic q done.1)
entry-Effect t name p q entry base rs key value timestamp now monotonic h found =
    elim (Bool-cases (eq_number q p)) [
      | inr other ↦
          untouched (put_back-other_partition t name p q _ base rs h other) (λ o same is_ok.
            false-ne-true (sym other ∙ (==_iff q p).1 (landed-partition q p _ o is_ok)))
      | inl same ↦
          let is_p : q ≡ p = eq_number-eq q p same in
          let is_entry : h.entry ≡ entry =
            some-injective h.entry entry
              (sym h.here ∙ ap (lookup eq_number h.topic.local) (sym is_p) ∙ found) in
          let carried = subst (λ (e : Partition). Carries e.log base rs) is_entry h.carries in
          let done = append_entry t entry key value timestamp now monotonic in
          subst
            (λ q.
              Effect name p base rs name key value (landed q done.0)
                (put_back t name h.topic q done.1))
            (sym is_p)
            (elim (append_entry-Outcome t entry base rs key value timestamp now monotonic carried) [
              | inl (is_ok, grown) ↦
                  added (stamp entry.log key value timestamp now) refl (ap (landed p) is_ok) refl
                    refl (put_back-here t name p done.1 base rs _ h grown)
              | inr (e, failed, kept) ↦
                  untouched (put_back-here t name p done.1 base rs rs h kept)
                    (λ o same is_ok. err-ne-ok (sym (ap (landed p) failed) ∙ is_ok))
            ])
    ]
