-- ===== src/Topic/Topics/Locality.antt =====
-- A partition of an open topic is stored here or it is not, and what each operation says then.
use pyka.Common.{
  ◌+◌, List, zero, suc, ◌≤◌, ◌⊎◌, arith, ==_iff, Bool-cases, ◌==◌, [], ◌∷◌, ℕ, ◌<◌, ◌≡◌, refl, sym,
  ap, ◌∙◌, Bool, true, false, Option, none, some, Option-cases, Result, ok, err,
  partition_not_local, false-ne-true, lt→ltb, if_true, ◌>>=◌, inl, inr,
}
use pyka.Common.Int.{ℤ, pos}
use pyka.Python.Struct.{Bytes}
use pyka.Python.Dict.{lookup, lookup-All}
use pyka.Python.Text.{Str}
use pyka.Cluster.Ring.{range}
use pyka.Storage.Log.{Log}
use pyka.Storage.Log
use pyka.Topic.Name.{validate_name}
use pyka.Topic.Topics.{
  Topics, OpenTopic, Partition, eq_str, eq_number, check_partition, existing, get, read_from,
}
use pyka.Topic.Topics.Creation.{cached_hit, eq_str-eq}
use pyka.Topic.Topics.Routing.{IsOwned, IsLocal, eq_number-eq}
use pyka.Topic.Topics.Writing.{append, append_open, chosen}

pub check_partition_local :
    (o : OpenTopic) (p : ℕ) (entry : Partition)
    → p < o.partitions
    → lookup eq_number o.local p ≡ some entry
    → check_partition o (pos p) ≡ ok (p, entry)
unfolding check_partition
check_partition_local o p entry h here = if_true _ _ (lt→ltb p o.partitions h) ∙ rw here

pub check_partition_foreign :
    (o : OpenTopic) (p : ℕ)
    → p < o.partitions
    → lookup eq_number o.local p ≡ none
    → check_partition o (pos p) ≡ err partition_not_local
unfolding check_partition
check_partition_foreign o p h away = if_true _ _ (lt→ltb p o.partitions h) ∙ rw away

pub get_foreign :
    (t : Topics) (name : Str) (o : OpenTopic) (p now : ℕ)
    → existing t name now ≡ (ok o, t)
    → check_partition o (pos p) ≡ err partition_not_local
    → get t name (pos p) now ≡ (err partition_not_local, t)
unfolding get
get_foreign t name o p now hit away = rw (hit, away)

-- What is not owned is not in the dictionary.
pub lookup-IsOwned :
    (owns : Str → ℕ → Bool) (t : Topics) (name : Str) (o : OpenTopic) (p : ℕ)
    → IsOwned owns t
    → lookup eq_str t.opened name ≡ some o
    → owns name p ≡ false
    → lookup eq_number o.local p ≡ none
lookup-IsOwned owns t name o p h opened away = elim (Option-cases (lookup eq_number o.local p)) [
  | inl gone ↦ gone
  | inr (entry, here) ↦
      let local = lookup-All eq_str eq_str-eq (IsLocal owns) t.opened name o h.local opened in
      let mine =
        lookup-All eq_number eq_number-eq (λ q _. (owns name q ≡ true) × (q < o.partitions)) o.local
          p entry local here in
      absurd (false-ne-true (sym away ∙ mine.0))
]

pub read_from_foreign :
    (t : Topics) (name : Str) (o : OpenTopic) (offset : ℤ) (p now : ℕ)
    → existing t name now ≡ (ok o, t)
    → check_partition o (pos p) ≡ err partition_not_local
    → read_from t name offset (pos p) now ≡ (err partition_not_local, t)
unfolding read_from
read_from_foreign t name o offset p now hit away =
    ap (λ (c : Result Log × Topics). (c.0 >>= λ l. Log.read_from l offset, c.1))
      (get_foreign t name o p now hit away)

pub append_foreign :
    (t : Topics) (name : Str) (o : OpenTopic) (key value : Option Bytes) (timestamp : Option ℤ)
    (p : ℕ) (now : ℤ) (monotonic : ℕ)
    → validate_name name ≡ ok tt
    → lookup eq_str t.opened name ≡ some o
    → check_partition o (pos p) ≡ err partition_not_local
    → append t name key value timestamp (some (pos p)) now monotonic ≡ (err partition_not_local, t)
unfolding append append_open chosen
append_foreign t name o key value timestamp p now monotonic valid opened away =
    let hit = cached_hit t name none monotonic o opened in
    let opens =
      ap (λ (t' : Topics). append_open t' name o key value timestamp (some (pos p)) now monotonic)
        (ap (λ c. c.1) hit)
      ∙ rw (away, append_open) refl in
    rw (valid, append) (rw (ap (λ c. c.0) hit, append) opens)

-- A number stands in a list.
abbrev pub Among : ℕ → List ℕ → Type 0
Among q [] = ⊥
Among q (p ∷ ps) = (p ≡ q) ⊎ Among q ps

pub Among-range : (q start count : ℕ) → start ≤ q → q < start + count → Among q (range start count)
Among-range q start zero h k = absurd (omega arith)
Among-range q start (suc count) h k = elim (Bool-cases (start == q)) [
  | inl same ↦ inl ((==_iff start q).0 same)
  | inr other ↦ inr (Among-range q (start + 1) count (ground arith) (omega arith))
]
