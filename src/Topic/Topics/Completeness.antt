-- ===== src/Topic/Topics/Completeness.antt =====
-- Whether each open topic has the entries of all partitions that `owns` gives to this instance.
use mathlib.Core.Path.{subst}
use pyka.Common.{
  ◌>>=◌, ℕ, ◌<◌, ◌≡◌, sym, ap, ◌∙◌, List, [], ◌∷◌, Bool, true, Option, none, some, Option-cases, ok,
  Result-cases, ok-injective, err-ne-ok, if_true, if_false, Bool-cases, inl, inr, ◌==◌, ==_iff,
  ==_refl, arith, All, ◌⊎◌, false-ne-true,
}
use pyka.Common.Int.{ℤ}
use pyka.Python.Struct.{Bytes}
use pyka.Python.Dict.{lookup, store, lookup-All, store-All, lookup-store, lookup-store_other}
use pyka.Python.Text.{Str}
use pyka.Cluster.Ring.{range}
use pyka.Storage.Log.{open_log}
use pyka.Topic.Name.{validate_name}
use pyka.Topic.Topics.{
  Partition, OpenTopic, Topics, eq_str, eq_number, open_partitions, ensure_meta, cached,
  check_partition,
}
use pyka.Topic.Topics.Creation.{
  eq_str-eq, cached_hit, cached_miss, open_locked_failed, open_locked_opened,
}
use pyka.Topic.Topics.Routing.{eq_number-eq}
use pyka.Topic.Topics.Locality.{Among, Among-range}
use pyka.Topic.Topics.Writing.{chosen, put_back, append_open, append}

-- Every partition of the topic that belongs to this instance has its entry.
abbrev pub HasOwned : (Str → ℕ → Bool) → Str → OpenTopic → Type 0
HasOwned owns name o =
    (p : ℕ)
    → p < o.partitions
    → owns name p ≡ true
    → (entry : Partition) × (lookup eq_number o.local p ≡ some entry)

pub record IsComplete (owns : Str → ℕ → Bool) (t : Topics) : Type 0 where
  pub same : t.owns ≡ owns
  pub local : All (λ e. HasOwned owns e.0 e.1) t.opened

-- The entry of `q`, which is at the head of a dictionary or in the rest of it.
lookup-Among :
    (p q : ℕ) (ps : List ℕ) (entry : Partition) (others : List (ℕ × Partition))
    → (p ≡ q) ⊎ Among q ps
    → (Among q ps → (found : Partition) × (lookup eq_number others q ≡ some found))
    → (found : Partition) × (lookup eq_number ((p, entry) ∷ others) q ≡ some found)
unfolding lookup
lookup-Among p q ps entry others among rest = elim (Bool-cases (p == q)) [
  | inl same ↦ (entry, if_true _ _ same)
  | inr other ↦ elim among [
    | inl same ↦ absurd (false-ne-true (sym other ∙ (==_iff p q).1 same))
    | inr among ↦ let (found, at) = rest among in (found, if_false _ _ other ∙ at)
  ]
]

open_partitions-lookup :
    (t : Topics) (name : Str) (now q : ℕ) (ps : List ℕ) (l : List (ℕ × Partition))
    → Among q ps
    → t.owns name q ≡ true
    → open_partitions t name now ps ≡ ok l
    → (entry : Partition) × (lookup eq_number l q ≡ some entry)
unfolding open_partitions
open_partitions-lookup t name now q [] l among mine opened = absurd among
open_partitions-lookup t name now q (p ∷ ps) l among mine opened =
    elim (Bool-cases (t.owns name p)) [
      | inr foreign ↦ elim among [
        | inl same ↦ absurd (false-ne-true (sym foreign ∙ ap (t.owns name) same ∙ mine))
        | inr among ↦
            open_partitions-lookup t name now q ps l among mine
              (sym (if_false _ _ foreign) ∙ opened)
      ]
      | inl owned ↦
          let opened' = sym (if_true _ _ owned) ∙ opened in
          elim (Result-cases (open_log t.max_segment_bytes (t.files name p))) [
            | inr (e, failed) ↦ absurd (err-ne-ok (rw failed at opened'))
            | inl (log, is_log) ↦ elim (Result-cases (open_partitions t name now ps)) [
              | inr (e, failed) ↦ absurd (err-ne-ok (rw (is_log, failed) at opened'))
              | inl (others, is_others) ↦
                  subst (λ l. (entry : Partition) × (lookup eq_number l q ≡ some entry))
                    (ok-injective (rw (is_log, is_others) at opened'))
                    (lookup-Among p q ps (record { log = log; appends = 0; synced_at = now }) others
                      among
                      (λ among. open_partitions-lookup t name now q ps others among mine is_others))
            ]
          ]
    ]

ensure_meta-IsComplete :
    (owns : Str → ℕ → Bool) (t : Topics) (name : Str) (partitions : Option ℕ)
    → IsComplete owns t
    → IsComplete owns (ensure_meta t name partitions).1
unfolding ensure_meta
ensure_meta-IsComplete owns t name partitions h = elim (Option-cases (lookup eq_str t.metas name)) [
  | inl new ↦ rw (new, ensure_meta) record { same = h.same; local = h.local }
  | inr (count, known) ↦ rw (known, ensure_meta) h
]

-- what `cached` returns, and leaves
cached-IsComplete :
    (owns : Str → ℕ → Bool) (t : Topics) (name : Str) (partitions : Option ℕ) (now : ℕ)
    → IsComplete owns t
    → IsComplete owns (cached t name partitions now).1
      × ((o : OpenTopic) → (cached t name partitions now).0 ≡ ok o → HasOwned owns name o)
cached-IsComplete owns t name partitions now h = elim (Option-cases (lookup eq_str t.opened name)) [
  | inr (o, hit) ↦ rw (cached_hit t name partitions now o hit) (
    h,
    λ o' is_o.
        subst (HasOwned owns name) (ok-injective is_o)
          (lookup-All eq_str eq_str-eq (HasOwned owns) t.opened name o h.local hit),
  )
  | inl miss ↦
      let t' = (ensure_meta t name partitions).1 in
      let count = (ensure_meta t name partitions).0 in
      let h' = ensure_meta-IsComplete owns t name partitions h in
      elim (Result-cases (open_partitions t' name now (range 0 count))) [
        | inr (x, failed) ↦
            rw
              (cached_miss t name partitions now miss
                ∙ open_locked_failed t name partitions now x failed)
              (h', λ o' is_o. absurd (err-ne-ok is_o))
        | inl (local, opened) ↦
            let all_mine : HasOwned owns name (record { partitions = count; local = local }) =
              λ p below mine.
                open_partitions-lookup t' name now p (range 0 count) local
                  (Among-range p 0 count (omega arith) (omega (arith, below)))
                  (ap (λ w. w name p) h'.same ∙ mine) opened in
            rw
              (cached_miss t name partitions now miss
                ∙ open_locked_opened t name partitions now local opened)
              (
                record {
                  same = h'.same;
                  local =
                      store-All eq_str eq_str-eq (HasOwned owns) t'.opened name _ h'.local all_mine;
                },
                λ o' is_o. subst (HasOwned owns name) (ok-injective is_o) all_mine,
              )
      ]
]

put_back-IsComplete :
    (owns : Str → ℕ → Bool) (t : Topics) (name : Str) (o : OpenTopic) (p : ℕ) (entry : Partition)
    → IsComplete owns t
    → HasOwned owns name o
    → IsComplete owns (put_back t name o p entry)
unfolding put_back
put_back-IsComplete owns t name o p entry h mine = record {
  same = h.same;
  local = store-All eq_str eq_str-eq (HasOwned owns) t.opened name _ h.local (λ q below owned.
      elim (Bool-cases (eq_number p q)) [
        | inl same ↦ (
          entry,
          subst (λ z. lookup eq_number (store eq_number o.local p entry) z ≡ some entry)
              (eq_number-eq p q same) (lookup-store eq_number o.local p entry (==_refl p)),
        )
        | inr other ↦
            let (found, at) = mine q below owned in
            (found, lookup-store_other eq_number eq_number-eq o.local p q entry other ∙ at)
      ]);
}

chosen-IsComplete :
    (owns : Str → ℕ → Bool) (t : Topics) (o : OpenTopic) (key : Option Bytes) (partition : Option ℤ)
    → IsComplete owns t
    → IsComplete owns (chosen t o key partition).1
unfolding chosen
chosen-IsComplete owns t o key (some p) h = h
chosen-IsComplete owns t o key none h = record { same = h.same; local = h.local }

append_open-IsComplete :
    (owns : Str → ℕ → Bool) (t : Topics) (name : Str) (o : OpenTopic) (key value : Option Bytes)
    (timestamp partition : Option ℤ) (now : ℤ) (monotonic : ℕ)
    → IsComplete owns t
    → HasOwned owns name o
    → IsComplete owns (append_open t name o key value timestamp partition now monotonic).1
unfolding append_open
append_open-IsComplete owns t name o key value timestamp partition now monotonic h mine =
    let h' = chosen-IsComplete owns t o key partition h in
    elim (Result-cases ((chosen t o key partition).0 >>= λ p. check_partition o p)) [
      | inr (e, refused) ↦ rw (refused, append_open) h'
      | inl ((q, entry), accepted) ↦
          rw (accepted, append_open) (put_back-IsComplete owns _ name o q _ h' mine)
    ]

-- Where every open topic has the logs of all partitions that belong to this instance, an append
-- leaves it so, whatever it is given and whether it raises or not.
pub append-IsComplete :
    (owns : Str → ℕ → Bool) (t : Topics) (name : Str) (key value : Option Bytes)
    (timestamp partition : Option ℤ) (now : ℤ) (monotonic : ℕ)
    → IsComplete owns t
    → IsComplete owns (append t name key value timestamp partition now monotonic).1
unfolding append
append-IsComplete owns t name key value timestamp partition now monotonic h =
    let (h', returned) = cached-IsComplete owns t name none monotonic h in
    elim (Result-cases (validate_name name)) [
      | inr (e, bad) ↦ rw (bad, append) h
      | inl (_, valid) ↦ elim (Result-cases (cached t name none monotonic).0) [
        | inr (e, failed) ↦ rw (valid, append) (rw failed h')
        | inl (o, is_o) ↦
            rw (valid, append)
              (rw is_o (
                append_open-IsComplete owns _ name o key value timestamp partition now monotonic h'
                  (returned o is_o)))
      ]
    ]
