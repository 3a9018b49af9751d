-- ===== src/Topic/Topics/Creation.antt =====
-- Creating a topic: it is done once, and its number of partitions never changes.
use mathlib.Core.Path.{ap₂}
use pyka.Common.{
  ◌>>=◌, ℕ, ◌≡◌, refl, sym, ap, ◌∙◌, List, [], ◌∷◌, true, Option, none, some, Option-cases, Result,
  ok, err, Error, Result-cases, ok-injective, err-ne-ok, if_true, if_false, Bool-cases, inl, inr,
  ◌==◌, ==_refl, false-ne-true, arith,
}
use pyka.Common.Int.{ℤ}
use pyka.Python.Dict.{lookup, store, lookup-store}
use pyka.Python.Text.{Str}
use pyka.Cluster.Ring.{range}
use pyka.Topic.Name.{validate_name}
use pyka.Topic.Topics.{
  existing, get, partitions_of, check_partition, Partition, Topics, OpenTopic, eq_str, cached,
  create, open_locked, open_partitions, ensure_meta,
}

pub eq_str_refl : (s : Str) → eq_str s s ≡ true
eq_str_refl [] = refl
eq_str_refl (c ∷ cs) = if_true _ _ (==_refl c) ∙ eq_str_refl cs

pub eq_str-eq : (s s' : Str) → eq_str s s' ≡ true → s ≡ s'
eq_str-eq [] [] h = refl
eq_str-eq [] (d ∷ ds) h = absurd (false-ne-true h)
eq_str-eq (c ∷ cs) [] h = absurd (false-ne-true h)
eq_str-eq (c ∷ cs) (d ∷ ds) h = elim (Bool-cases (c == d)) [
  | inl same ↦
      let first : c ≡ d = ground (arith, same) in
      let rest : cs ≡ ds = eq_str-eq cs ds (sym (if_true _ _ same) ∙ h) in rw (first, rest)
  | inr other ↦ absurd (false-ne-true (sym (if_false _ _ other) ∙ h))
]

pub cached_hit :
    (t : Topics) (name : Str) (partitions : Option ℕ) (now : ℕ) (o : OpenTopic)
    → lookup eq_str t.opened name ≡ some o
    → cached t name partitions now ≡ (ok o, t)
unfolding cached
cached_hit t name partitions now o hit = rw (hit, cached) refl

pub cached_miss :
    (t : Topics) (name : Str) (partitions : Option ℕ) (now : ℕ)
    → lookup eq_str t.opened name ≡ none
    → cached t name partitions now ≡ open_locked t name partitions now
unfolding cached
cached_miss t name partitions now miss = rw (miss, cached) refl

pub open_locked_failed :
    (t : Topics) (name : Str) (partitions : Option ℕ) (now : ℕ) (e : Error)
    → open_partitions
        (ensure_meta t name partitions).1
        name
        now
        (range 0 (ensure_meta t name partitions).0)
      ≡ err e
    → open_locked t name partitions now ≡ (err e, (ensure_meta t name partitions).1)
unfolding open_locked
open_locked_failed t name partitions now e h = rw (h, open_locked) refl

-- the topic that is opened, and the cache with it
pub open_locked_opened :
    (t : Topics) (name : Str) (partitions : Option ℕ) (now : ℕ) (local : List (ℕ × Partition))
    → open_partitions
        (ensure_meta t name partitions).1
        name
        now
        (range 0 (ensure_meta t name partitions).0)
      ≡ ok local
    → open_locked t name partitions now ≡ (
        let (count, t') = ensure_meta t name partitions in
        let o : OpenTopic = record { partitions = count; local = local } in
        (ok o, record t' { opened = store eq_str t'.opened name o }))
unfolding open_locked
open_locked_opened t name partitions now local h = rw (h, open_locked) refl

-- A topic that is returned is in the cache afterwards.
pub cached-lookup :
    (t : Topics) (name : Str) (partitions : Option ℕ) (now : ℕ) (o : OpenTopic)
    → (cached t name partitions now).0 ≡ ok o
    → lookup eq_str (cached t name partitions now).1.opened name ≡ some o
cached-lookup t name partitions now o h = elim (Option-cases (lookup eq_str t.opened name)) [
  | inr (o', hit) ↦
      let e = cached_hit t name partitions now o' hit in
      ap (λ c. lookup eq_str c.1.opened name) e
      ∙ hit
      ∙ ap some (ok-injective (sym (ap (λ c. c.0) e) ∙ h))
  | inl miss ↦
      elim (Result-cases (
        open_partitions (ensure_meta t name partitions).1 name now
          (range 0 (ensure_meta t name partitions).0))) [
            | inr (x, failed) ↦
                let e =
                  cached_miss t name partitions now miss
                  ∙ open_locked_failed t name partitions now x failed in
                absurd (err-ne-ok (sym (ap (λ c. c.0) e) ∙ h))
            | inl (local, opened) ↦
                let e =
                  cached_miss t name partitions now miss
                  ∙ open_locked_opened t name partitions now local opened in
                ap (λ c. lookup eq_str c.1.opened name) e
                ∙ lookup-store eq_str (ensure_meta t name partitions).1.opened name _
                    (eq_str_refl name)
                ∙ ap some (ok-injective (sym (ap (λ c. c.0) e) ∙ h))
          ]
]

create_valid :
    (t : Topics) (name : Str) (partitions : Option ℕ) (now : ℕ)
    → validate_name name ≡ ok tt
    → create t name partitions now ≡ (
        let (result, t') = cached t name partitions now in
        (result >>= λ topic. ok topic.partitions, t'))
unfolding create
create_valid t name partitions now h = rw (h, create) refl

create_invalid :
    (t : Topics) (name : Str) (partitions : Option ℕ) (now : ℕ) (e : Error)
    → validate_name name ≡ err e
    → create t name partitions now ≡ (err e, t)
unfolding create
create_invalid t name partitions now e h = rw (h, create) refl

bind_inversion :
    (r : Result OpenTopic) (count : ℕ)
    → (r >>= λ o. ok o.partitions) ≡ ok count
    → (o : OpenTopic) × (r ≡ ok o) × (o.partitions ≡ count)
bind_inversion (ok o) count h = (o, refl, ok-injective h)
bind_inversion (err e) count h = absurd (err-ne-ok h)

-- A topic that was created is not created again: a later call with any other number of partitions
-- returns the first number and changes nothing.
pub create_again :
    (t : Topics) (name : Str) (partitions partitions' : Option ℕ) (now now' count : ℕ)
    → (create t name partitions now).0 ≡ ok count
    → create (create t name partitions now).1 name partitions' now'
      ≡ (ok count, (create t name partitions now).1)
create_again t name partitions partitions' now now' count h =
    elim (Result-cases (validate_name name)) [
      | inr (e, bad) ↦
          absurd (err-ne-ok (sym (ap (λ c. c.0) (create_invalid t name partitions now e bad)) ∙ h))
      | inl (_, valid) ↦
          let first = create_valid t name partitions now valid in
          let (o, is_o, is_count) =
            bind_inversion (cached t name partitions now).0 count (sym (ap (λ c. c.0) first) ∙ h) in
          let hit =
            cached_hit (cached t name partitions now).1 name partitions' now' o
              (cached-lookup t name partitions now o is_o) in
          ap (λ c. create c.1 name partitions' now') first
          ∙ create_valid (cached t name partitions now).1 name partitions' now' valid
          ∙ ap (λ (c : Result OpenTopic × Topics). (c.0 >>= (λ topic. ok topic.partitions), c.1))
              hit
          ∙ ap₂ (λ (n : ℕ) (t' : Topics). (ok n, t')) is_count (sym (ap (λ c. c.1) first))
    ]

-- A topic that is open is found as it is, and so is a partition that it has.
pub existing_hit :
    (t : Topics) (name : Str) (now : ℕ) (o : OpenTopic)
    → validate_name name ≡ ok tt
    → lookup eq_str t.opened name ≡ some o
    → existing t name now ≡ (ok o, t)
unfolding existing
existing_hit t name now o valid hit = rw (valid, existing) (rw (hit, existing) refl)

pub get_hit :
    (t : Topics) (name : Str) (partition : ℤ) (now p : ℕ) (o : OpenTopic) (entry : Partition)
    → existing t name now ≡ (ok o, t)
    → check_partition o partition ≡ ok (p, entry)
    → get t name partition now ≡ (ok entry.log, t)
unfolding get
get_hit t name partition now p o entry hit checked = rw (hit, checked)

pub partitions_of_hit :
    (t : Topics) (name : Str) (o : OpenTopic) (now : ℕ)
    → existing t name now ≡ (ok o, t)
    → partitions_of t name now ≡ (ok o.partitions, t)
unfolding partitions_of
partitions_of_hit t name o now hit = rw hit
