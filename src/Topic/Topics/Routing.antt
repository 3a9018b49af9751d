-- ===== src/Topic/Topics/Routing.antt =====
-- A record is only ever written to a partition that `owns` gives to this instance.
use mathlib.Core.Path.{subst}
use pyka.Common.{
  ◌>>=◌, ℕ, zero, suc, ◌+◌, ◌<◌, ◌≤◌, ◌≡◌, sym, ap, ◌∙◌, List, [], ◌∷◌, Bool, true, Option, none,
  some, Option-cases, Result, ok, err, Result-cases, ok-injective, err-ne-ok, if_true, if_false,
  Bool-cases, inl, inr, ==_iff, arith, All, ltb,
}
use pyka.Common.Int.{ℤ, pos, negsuc}
use pyka.Python.Struct.{Bytes}
use pyka.Python.Dict.{lookup, lookup-All, store-All}
use pyka.Python.Text.{Str}
use pyka.Cluster.Ring.{range}
use pyka.Storage.Log.{open_log}
use pyka.Topic.Name.{validate_name}
use pyka.Topic.Topics.{
  Partition, OpenTopic, Topics, eq_str, eq_number, open_partitions, ensure_meta, cached,
  check_partition,
}
use pyka.Topic.Topics.Creation.{
  eq_str-eq, cached_hit, cached_miss, open_locked_failed, open_locked_opened,
}
use pyka.Topic.Topics.Writing.{chosen, append_entry, put_back, append_open, append}

-- Every local partition of a topic belongs to this instance and is one of the topic's.
abbrev pub IsLocal : (Str → ℕ → Bool) → Str → OpenTopic → Type 0
IsLocal owns name o = All (λ q. (owns name q.0 ≡ true) × (q.0 < o.partitions)) o.local

-- What is open is what `owns` says is ours.
pub record IsOwned (owns : Str → ℕ → Bool) (t : Topics) : Type 0 where
  pub same : t.owns ≡ owns
  pub local : All (λ e. IsLocal owns e.0 e.1) t.opened

pub eq_number-eq : (a b : ℕ) → eq_number a b ≡ true → a ≡ b
eq_number-eq a b h = (==_iff a b).0 h

pub range-All : (n start count : ℕ) → start + count ≤ n → All (λ p. p < n) (range start count)
range-All n start zero h = tt
range-All n start (suc count) h = (omega arith, range-All n (start + 1) count (omega arith))

open_partitions-All :
    (t : Topics) (name : Str) (now n : ℕ) (ps : List ℕ) (l : List (ℕ × Partition))
    → All (λ p. p < n) ps
    → open_partitions t name now ps ≡ ok l
    → All (λ q. (t.owns name q.0 ≡ true) × (q.0 < n)) l
unfolding open_partitions
open_partitions-All t name now n [] l h opened = subst (All _) (ok-injective opened) tt
open_partitions-All t name now n (p ∷ ps) l h opened = elim (Bool-cases (t.owns name p)) [
  | inr foreign ↦ open_partitions-All t name now n ps l h.1 (sym (if_false _ _ foreign) ∙ opened)
  | inl owned ↦
      let opened' = sym (if_true _ _ owned) ∙ opened in
      elim (Result-cases (open_log t.max_segment_bytes (t.files name p))) [
        | inr (e, failed) ↦ absurd (err-ne-ok (rw failed at opened'))
        | inl (log, is_log) ↦ elim (Result-cases (open_partitions t name now ps)) [
          | inr (e, failed) ↦ absurd (err-ne-ok (rw (is_log, failed) at opened'))
          | inl (others, is_others) ↦
              subst (All _) (ok-injective (rw (is_log, is_others) at opened'))
                ((owned, h.0), open_partitions-All t name now n ps others h.1 is_others)
        ]
      ]
]

ensure_meta-IsOwned :
    (owns : Str → ℕ → Bool) (t : Topics) (name : Str) (partitions : Option ℕ)
    → IsOwned owns t
    → IsOwned owns (ensure_meta t name partitions).1
unfolding ensure_meta
ensure_meta-IsOwned owns t name partitions h = elim (Option-cases (lookup eq_str t.metas name)) [
  | inl new ↦ rw (new, ensure_meta) record { same = h.same; local = h.local }
  | inr (count, known) ↦ rw (known, ensure_meta) h
]

-- what `cached` returns, and leaves
pub cached-IsOwned :
    (owns : Str → ℕ → Bool) (t : Topics) (name : Str) (partitions : Option ℕ) (now : ℕ)
    → IsOwned owns t
    → IsOwned owns (cached t name partitions now).1
      × ((o : OpenTopic) → (cached t name partitions now).0 ≡ ok o → IsLocal owns name o)
cached-IsOwned owns t name partitions now h = elim (Option-cases (lookup eq_str t.opened name)) [
  | inr (o, hit) ↦
      let e = cached_hit t name partitions now o hit in
      rw e (
        h,
        λ o' is_o.
            subst (IsLocal owns name) (ok-injective is_o)
              (lookup-All eq_str eq_str-eq (IsLocal owns) t.opened name o h.local hit),
      )
  | inl miss ↦
      let (count, t') = ensure_meta t name partitions in
      let h' : IsOwned owns (ensure_meta t name partitions).1 =
        ensure_meta-IsOwned owns t name partitions h in
      elim (Result-cases (
        open_partitions (ensure_meta t name partitions).1 name now
          (range 0 (ensure_meta t name partitions).0))) [
            | inr (x, failed) ↦
                let e =
                  cached_miss t name partitions now miss
                  ∙ open_locked_failed t name partitions now x failed in
                rw e (h', λ o' is_o. absurd (err-ne-ok is_o))
            | inl (local, opened) ↦
                let e =
                  cached_miss t name partitions now miss
                  ∙ open_locked_opened t name partitions now local opened in
                let all_local : All
                    (λ q. (owns name q.0 ≡ true) × (q.0 < (ensure_meta t name partitions).0))
                    local =
                  subst
                    (λ w.
                      All (λ q. (w name q.0 ≡ true) × (q.0 < (ensure_meta t name partitions).0))
                        local)
                    h'.same
                    (open_partitions-All (ensure_meta t name partitions).1 name now
                      (ensure_meta t name partitions).0 _ local (range-All _ 0 _ (omega arith))
                      opened) in
                rw e (
                  record {
                    same = h'.same;
                    local =
                        store-All eq_str eq_str-eq (IsLocal owns)
                          (ensure_meta t name partitions).1.opened name _ h'.local all_local;
                  },
                  λ o' is_o. subst (IsLocal owns name) (ok-injective is_o) all_local,
                )
          ]
]

chosen-IsOwned :
    (owns : Str → ℕ → Bool) (t : Topics) (o : OpenTopic) (key : Option Bytes) (partition : Option ℤ)
    → IsOwned owns t
    → IsOwned owns (chosen t o key partition).1
unfolding chosen
chosen-IsOwned owns t o key (some p) h = h
chosen-IsOwned owns t o key none h = record { same = h.same; local = h.local }

-- a partition that passes the check is the one that was asked for, and in the dictionary
pub check_partition-lookup :
    (o : OpenTopic) (p : ℤ) (q : ℕ) (entry : Partition)
    → check_partition o p ≡ ok (q, entry)
    → lookup eq_number o.local q ≡ some entry
unfolding check_partition
check_partition-lookup o (negsuc n) q entry h = absurd (err-ne-ok h)
check_partition-lookup o (pos p) q entry h = elim (Bool-cases (ltb p o.partitions)) [
  | inr outside ↦ absurd (err-ne-ok (sym (if_false _ _ outside) ∙ h))
  | inl inside ↦ elim (Option-cases (lookup eq_number o.local p)) [
    | inl absent ↦
        absurd (err-ne-ok (rw (absent, check_partition) at (sym (if_true _ _ inside) ∙ h)))
    | inr (entry', here) ↦
        let same : (p, entry') ≡ (q, entry) =
          ok-injective (rw (here, check_partition) at (sym (if_true _ _ inside) ∙ h)) in
        subst (λ z. lookup eq_number o.local z.0 ≡ some z.1) same here
  ]
]

put_back-IsOwned :
    (owns : Str → ℕ → Bool) (t : Topics) (name : Str) (o : OpenTopic) (p : ℕ) (entry : Partition)
    → IsOwned owns t
    → IsLocal owns name o
    → (owns name p ≡ true) × (p < o.partitions)
    → IsOwned owns (put_back t name o p entry)
unfolding put_back
put_back-IsOwned owns t name o p entry h local mine = record {
  same = h.same;
  local = store-All eq_str eq_str-eq (IsLocal owns) t.opened name _ h.local (
      store-All eq_number eq_number-eq (λ q _. (owns name q ≡ true) × (q < o.partitions)) o.local p
        entry local mine);
}

bind_inversion {ℓ} :
    {A : Type ℓ} (r : Result ℤ) (f : ℤ → Result A) (a : A)
    → (r >>= f) ≡ ok a
    → (p : ℤ) × (f p ≡ ok a)
bind_inversion (ok p) f a h = (p, h)
bind_inversion (err e) f a h = absurd (err-ne-ok h)

-- Only a partition that is owned is appended to.
append_open-IsOwned :
    (owns : Str → ℕ → Bool) (t : Topics) (name : Str) (o : OpenTopic) (key value : Option Bytes)
    (timestamp partition : Option ℤ) (now : ℤ) (monotonic : ℕ)
    → IsOwned owns t
    → IsLocal owns name o
    → let done = append_open t name o key value timestamp partition now monotonic in
      IsOwned owns done.1 × ((p : ℕ) (offset : ℤ) → done.0 ≡ ok (p, offset) → owns name p ≡ true)
unfolding append_open
append_open-IsOwned owns t name o key value timestamp partition now monotonic h local =
    let h' = chosen-IsOwned owns t o key partition h in
    elim (Result-cases ((chosen t o key partition).0 >>= λ p. check_partition o p)) [
      | inr (e, refused) ↦
          rw (refused, append_open) (h', λ p offset is_ok. absurd (err-ne-ok is_ok))
      | inl ((q, entry), accepted) ↦
          let (p, checked) = bind_inversion (chosen t o key partition).0 _ _ accepted in
          let mine =
            lookup-All eq_number eq_number-eq (λ q _. (owns name q ≡ true) × (q < o.partitions))
              o.local q entry local (check_partition-lookup o p q entry checked) in
          rw (accepted, append_open)
            (
              put_back-IsOwned owns _ name o q _ h' local mine,
              λ p' offset is_ok.
                  let (offset', same) =
                    bind_inversion
                      (append_entry (chosen t o key partition).1 entry key value timestamp now
                        monotonic).0
                      (λ x. ok (q, x)) (p', offset) is_ok in
                  subst (λ z. owns name z ≡ true) (ap (λ z. z.0) (ok-injective same)) mine.0,
            )
    ]

-- Where every open log belongs to this instance, an append leaves it so, whatever it is given and
-- whether it raises or not, and one that succeeds has written to a partition that belongs to it.
pub append-IsOwned :
    (owns : Str → ℕ → Bool) (t : Topics) (name : Str) (key value : Option Bytes)
    (timestamp partition : Option ℤ) (now : ℤ) (monotonic : ℕ)
    → IsOwned owns t
    → let done = append t name key value timestamp partition now monotonic in
      IsOwned owns done.1 × ((p : ℕ) (offset : ℤ) → done.0 ≡ ok (p, offset) → owns name p ≡ true)
unfolding append
append-IsOwned owns t name key value timestamp partition now monotonic h =
    let (h', returned) = cached-IsOwned owns t name none monotonic h in
    elim (Result-cases (validate_name name)) [
      | inr (e, bad) ↦ rw (bad, append) (h, λ p offset is_ok. absurd (err-ne-ok is_ok))
      | inl (_, valid) ↦ elim (Result-cases (cached t name none monotonic).0) [
        | inr (e, failed) ↦
            rw (valid, append) (rw failed (h', λ p offset is_ok. absurd (err-ne-ok is_ok)))
        | inl (o, is_o) ↦
            rw (valid, append)
              (rw is_o (
                append_open-IsOwned owns _ name o key value timestamp partition now monotonic h'
                  (returned o is_o)))
      ]
    ]
