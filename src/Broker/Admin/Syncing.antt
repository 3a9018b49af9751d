-- ===== src/Broker/Admin/Syncing.antt =====
-- The endpoint that syncs a topic, where the broker does not store all of its partitions.
use mathlib.Core.Path.{subst}
use pyka.Common.{
  none-ne-some, ℕ, ◌<◌, ◌≡◌, sym, ap, ◌∙◌, List, [], ◌∷◌, none, some, Option-cases, Result, ok, err,
  partition_not_local, All, arith, inl, inr, ◌⊎◌,
}
use pyka.Common.Int.{pos}
use pyka.Python.Dict.{lookup}
use pyka.Python.Text.{Str}
use pyka.Cluster.Ring.{range}
use pyka.Storage.Log.{Log}
use pyka.Topic.Name.{validate_name}
use pyka.Topic.Topics.{Topics, OpenTopic, Partition, eq_str, eq_number, existing}
use pyka.Topic.Topics.Creation.{existing_hit, get_hit, partitions_of_hit}
use pyka.Topic.Topics.Routing.{range-All}
use pyka.Topic.Topics.Locality.{
  Among, Among-range, check_partition_local, check_partition_foreign, get_foreign,
}
use pyka.Broker.Store.{Store}
use pyka.Broker.Admin.{status, all_logs, sync_topic, and_later, sync_these, sync_counted, status_of}

-- A partition that is here is not the one that is not.
later-Among :
    (o : OpenTopic) (p q : ℕ) (ps : List ℕ) (entry : Partition)
    → (p ≡ q) ⊎ Among q ps
    → lookup eq_number o.local p ≡ some entry
    → lookup eq_number o.local q ≡ none
    → Among q ps
later-Among o p q ps entry (inr among) here away = among
later-Among o p q ps entry (inl same) here away =
    let found : lookup eq_number o.local q ≡ some entry =
      subst (λ z. lookup eq_number o.local z ≡ some entry) same here in
    absurd (none-ne-some (sym away ∙ found))

-- One partition that is stored elsewhere makes the whole list fail.
all_logs_foreign :
    (t : Topics) (name : Str) (o : OpenTopic) (q : ℕ) (ps : List ℕ) (now : ℕ)
    → existing t name now ≡ (ok o, t)
    → All (λ p. p < o.partitions) ps
    → Among q ps
    → lookup eq_number o.local q ≡ none
    → all_logs t name ps now ≡ (err partition_not_local, t)
unfolding all_logs
all_logs_foreign t name o q [] now hit below among away = absurd among
all_logs_foreign t name o q (p ∷ ps) now hit below among away =
    elim (Option-cases (lookup eq_number o.local p)) [
      | inl gone ↦
          ap (λ (c : Result Log × Topics). and_later p c.0 c.1 (all_logs c.1 name ps now))
            (get_foreign t name o p now hit (check_partition_foreign o p below.0 gone))
      | inr (entry, here) ↦
          ap (λ (c : Result Log × Topics). and_later p c.0 c.1 (all_logs c.1 name ps now))
            (get_hit t name (pos p) now p o entry hit
              (check_partition_local o p entry below.0 here))
          ∙ ap (λ c. and_later p (ok entry.log) t c)
              (all_logs_foreign t name o q ps now hit below.1
                (later-Among o p q ps entry among here away) away)
    ]

-- Where the broker has a topic open of which one partition is stored elsewhere, the request to sync
-- the topic is answered by an internal error, and nothing of the store changes: no log is synced.
pub sync_topic_foreign :
    (s : Store) (name : Str) (o : OpenTopic) (q now : ℕ)
    → validate_name name ≡ ok tt
    → lookup eq_str s.topics.opened name ≡ some o
    → q < o.partitions
    → lookup eq_number o.local q ≡ none
    → sync_topic s name now ≡ (status 500, s)
unfolding sync_topic status_of
sync_topic_foreign s name o q now valid opened inside away =
    let hit = existing_hit s.topics name now o valid opened in
    let fails =
      all_logs_foreign s.topics name o q (range 0 o.partitions) now hit
        (range-All o.partitions 0 o.partitions (omega arith))
        (Among-range q 0 o.partitions (omega arith) (omega arith)) away in
    ap (sync_counted s name now) (partitions_of_hit s.topics name o now hit)
    ∙ ap (sync_these s name) fails
