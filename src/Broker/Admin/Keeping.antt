-- ===== src/Broker/Admin/Keeping.antt =====
-- No endpoint of the control plane touches the records of a partition.
use pyka.Common.{
  ℕ, List, [], ◌∷◌, Option, Option-cases, Result, ok, err, Result-cases, inl, inr, if_elim,
}
use pyka.Common.Int.{ℤ, pos, pos_part}
use pyka.Python.Dict.{lookup}
use pyka.Python.Text.{Str}
use pyka.Cluster.Ring.{range}
use pyka.Storage.Record.{Record}
use pyka.Storage.Log.{Log}
use pyka.Storage.Log
use pyka.Storage.Log.Growth.{Carries, roll-Carries, sync-Carries}
use pyka.Topic.Name.{validate_name}
use pyka.Topic.Topics.{Topics, eq_str, eq_number, create, get, partitions_of}
use pyka.Topic.Topics.Storing.{Stored, put_back-Stored}
use pyka.Topic.Topics.Adding.{existing-Stored, cached-Stored}
use pyka.Broker.Store.{Store}
use pyka.Broker.Admin.{
  Response, TopicInfo, create_topic, is_refused, change_log, all_logs, and_later, sync_all,
  sync_these, sync_counted, sync_topic, roll_partition, describe_topic, describe_partition,
}

module _ (name : Str) (p : ℕ) (base : ℤ) (rs : List Record) where
  abbrev pub Keeping : Topics → Type 0
  Keeping t = Stored t name p base rs

  pub create-Keeping :
      (t : Topics) (name' : Str) (partitions : Option ℕ) (now : ℕ)
      → Keeping t
      → Keeping (create t name' partitions now).1
  unfolding create
  create-Keeping t name' partitions now h = elim (Result-cases (validate_name name')) [
    | inr (e, bad) ↦ rw (bad, create) h
    | inl (_, valid) ↦ rw (valid, create) (cached-Stored t name name' partitions now p base rs h)
  ]

  get-Keeping :
      (t : Topics) (name' : Str) (q : ℤ) (now : ℕ) → Keeping t → Keeping (get t name' q now).1
  unfolding get
  get-Keeping t name' q now h = existing-Stored t name name' now p base rs h

  change_log-Keeping {ℓ} :
      {A : Type ℓ} (t : Topics) (name' : Str) (q : ℕ) (method : Log → Result A × Log)
      → ((l : Log) (rs : List Record) → Carries l base rs → Carries (method l).1 base rs)
      → Keeping t
      → Keeping (change_log t name' q method).1
  unfolding change_log
  change_log-Keeping t name' q method kept h = elim (Option-cases (lookup eq_str t.opened name')) [
    | inl closed ↦ rw (closed, change_log) h
    | inr (o, hit) ↦ elim (Option-cases (lookup eq_number o.local q)) [
      | inl away ↦ rw (hit, away, change_log) h
      | inr (entry, found) ↦
          rw (hit, found, change_log)
            (put_back-Stored t name p base rs name' o q entry (method entry.log).1 h hit found
              (kept entry.log))
    ]
  ]

  and_later-Keeping :
      (q : ℕ) (l : Result Log) (t : Topics) (later : Result (List ℕ) × Topics)
      → Keeping t
      → Keeping later.1
      → Keeping (and_later q l t later).1
  and_later-Keeping q (err e) t later h k = h
  and_later-Keeping q (ok l) t later h k = k

  all_logs-Keeping :
      (t : Topics) (name' : Str) (qs : List ℕ) (now : ℕ)
      → Keeping t
      → Keeping (all_logs t name' qs now).1
  unfolding all_logs
  all_logs-Keeping t name' [] now h = h
  all_logs-Keeping t name' (q ∷ qs) now h =
      let h' = get-Keeping t name' (pos q) now h in
      and_later-Keeping q _ _ _ h' (all_logs-Keeping (get t name' (pos q) now).1 name' qs now h')

  sync_all-Keeping :
      (t : Topics) (name' : Str) (qs : List ℕ) → Keeping t → Keeping (sync_all t name' qs).1
  unfolding sync_all
  sync_all-Keeping t name' [] h = h
  sync_all-Keeping t name' (q ∷ qs) h =
      let h' = change_log-Keeping t name' q Log.sync (λ l rs c. (sync-Carries l base rs c).1) h in
      let t' = (change_log t name' q Log.sync).1 in
      elim (Result-cases (change_log t name' q Log.sync).0) [
        | inr (e, failed) ↦ rw (failed, sync_all) h'
        | inl (_, synced) ↦ rw (synced, sync_all) (sync_all-Keeping t' name' qs h')
      ]

  pub create_topic-Keeping :
      (s : Store) (name' : Str) (partitions : Option ℕ) (now : ℕ)
      → Keeping s.topics
      → Keeping (create_topic s name' partitions now).1.topics
  unfolding create_topic
  create_topic-Keeping s name' partitions now h =
      if_elim (λ (answer : Response TopicInfo × Store). Keeping answer.1.topics)
        (is_refused partitions) h (create-Keeping s.topics name' partitions now h)

  pub describe_topic-Keeping :
      (s : Store) (name' : Str) (now : ℕ)
      → Keeping s.topics
      → Keeping (describe_topic s name' now).1.topics
  unfolding describe_topic partitions_of
  describe_topic-Keeping s name' now h = existing-Stored s.topics name name' now p base rs h

  pub describe_partition-Keeping :
      (s : Store) (name' : Str) (q : ℤ) (now : ℕ)
      → Keeping s.topics
      → Keeping (describe_partition s name' q now).1.topics
  unfolding describe_partition
  describe_partition-Keeping s name' q now h = get-Keeping s.topics name' q now h

  sync_these-Keeping :
      (s : Store) (name' : Str) (logs : Result (List ℕ) × Topics)
      → Keeping logs.1
      → Keeping (sync_these s name' logs).1.topics
  unfolding sync_these
  sync_these-Keeping s name' (err e, t) h = h
  sync_these-Keeping s name' (ok qs, t) h = sync_all-Keeping t name' qs h

  sync_counted-Keeping :
      (s : Store) (name' : Str) (now : ℕ) (count : Result ℕ × Topics)
      → Keeping count.1
      → Keeping (sync_counted s name' now count).1.topics
  unfolding sync_counted
  sync_counted-Keeping s name' now (err e, t) h = h
  sync_counted-Keeping s name' now (ok n, t) h =
      sync_these-Keeping s name' _ (all_logs-Keeping t name' (range 0 n) now h)

  pub sync_topic-Keeping :
      (s : Store) (name' : Str) (now : ℕ)
      → Keeping s.topics
      → Keeping (sync_topic s name' now).1.topics
  unfolding sync_topic partitions_of
  sync_topic-Keeping s name' now h =
      sync_counted-Keeping s name' now _ (existing-Stored s.topics name name' now p base rs h)

  pub roll_partition-Keeping :
      (s : Store) (name' : Str) (q : ℤ) (now : ℕ)
      → Keeping s.topics
      → Keeping (roll_partition s name' q now).1.topics
  unfolding roll_partition
  roll_partition-Keeping s name' q now h =
      let h' = get-Keeping s.topics name' q now h in
      elim (Result-cases (get s.topics name' q now).0) [
        | inr (e, failed) ↦ rw (failed, roll_partition) h'
        | inl (l, found) ↦
            rw (found, roll_partition)
              (change_log-Keeping (get s.topics name' q now).1 name' (pos_part q) Log.roll
                (λ l rs c. roll-Carries l base rs c) h')
      ]
