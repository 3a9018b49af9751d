-- ===== src/Topic/Topics/Whole.antt =====
-- src/pyka/topic/topic.py, what concerns all topics or all partitions: `names`, `local_partitions`
-- and `sync`.
use pyka.Common.{
  ℕ, ◌-◌, List, [], ◌∷◌, Bool, true, false, ◌&&◌, Result, ok, err, ◌>>=◌, ltb, leb, ◌==◌,
  if◌then◌else◌,
}
use pyka.Python.Text.{Str}
use pyka.Storage.Log
use pyka.Topic.Name.{is_valid_name}
use pyka.Topic.Topics.{Topics, OpenTopic, Partition, existing}

-- An entry of the data root: its name, whether it is a directory, and whether topic.json is in it.
pub record RootEntry : Type 0 where
  pub name : Str
  pub is_dir : Bool
  pub has_meta : Bool

-- the order of strings, by code points
abbrev pub leb_str : Str → Str → Bool
leb_str [] s = true
leb_str (c ∷ cs) [] = false
leb_str (c ∷ cs) (d ∷ ds) = let rest = leb_str cs ds in if c == d then rest else ltb c d

abbrev insert : Str → List Str → List Str
insert s [] = s ∷ []
insert s (t ∷ ts) = let rest = insert s ts in if leb_str s t then s ∷ t ∷ ts else t ∷ rest

-- `names`, over the entries of the root in any order
unfoldable pub names : List RootEntry → List Str
unfolding is_valid_name
names [] = []
names (e ∷ es) =
    let rest = names es in
    if e.is_dir && is_valid_name e.name && e.has_meta then insert e.name rest else rest

abbrev insert_number : ℕ → List ℕ → List ℕ
insert_number p [] = p ∷ []
insert_number p (q ∷ qs) = let rest = insert_number p qs in if leb p q then p ∷ q ∷ qs else q ∷ rest

abbrev sorted_keys : List (ℕ × Partition) → List ℕ
sorted_keys [] = []
sorted_keys ((p, entry) ∷ es) = insert_number p (sorted_keys es)

unfoldable pub local_partitions : Topics → Str → ℕ → Result (List ℕ) × Topics
unfolding existing
local_partitions t name now =
    let (topic, t') = existing t name now in (topic >>= λ o. ok (sorted_keys o.local), t')

-- `millis_since_sync`
abbrev pub millis_since_sync : Partition → ℕ → ℕ
millis_since_sync entry monotonic = monotonic - entry.synced_at

-- `mark_synced`
abbrev pub mark_synced : Partition → ℕ → Partition
mark_synced entry monotonic = record entry { appends = 0; synced_at = monotonic }

-- entry.log.sync(), entry.mark_synced()
unfoldable pub sync_entry : Partition → ℕ → Result (Unit {0}) × Partition
unfolding Log.sync
sync_entry entry monotonic =
    let (result, l) = Log.sync entry.log in
    let synced = record entry { log = l } in
    (result, elim result [ ok _ ↦ mark_synced synced monotonic | err e ↦ synced ])

abbrev after_first {ℓ} :
    {A : Type ℓ}
    → Result (Unit {0}) × A
    → List A
    → Result (Unit {0}) × List A
    → Result (Unit {0}) × List A
after_first (err e, a) as_before rest = (err e, a ∷ as_before)
after_first (ok _, a) as_before rest = (rest.0, a ∷ rest.1)

-- the entries of one topic; an exception leaves those after it as they are
unfoldable pub sync_entries : List (ℕ × Partition) → ℕ → Result (Unit {0}) × List (ℕ × Partition)
unfolding sync_entry
sync_entries [] monotonic = (ok tt, [])
sync_entries ((p, entry) ∷ es) monotonic =
    let (result, entry') = sync_entry entry monotonic in
    let rest = sync_entries es monotonic in after_first (result, (p, entry')) es rest

unfoldable pub sync_topics : List (Str × OpenTopic) → ℕ → Result (Unit {0}) × List (Str × OpenTopic)
unfolding sync_entries
sync_topics [] monotonic = (ok tt, [])
sync_topics ((name, o) ∷ os) monotonic =
    let (result, local) = sync_entries o.local monotonic in
    let rest = sync_topics os monotonic in
    after_first (result, (name, record o { local = local })) os rest

-- `sync`
unfoldable pub sync : Topics → ℕ → Result (Unit {0}) × Topics
unfolding sync_topics
sync t monotonic =
    let (result, opened) = sync_topics t.opened monotonic in (result, record t { opened = opened })
