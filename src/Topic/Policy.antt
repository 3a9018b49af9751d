-- ===== src/Topic/Policy.antt =====
-- src/pyka/topic/policy.py: when a log is to be synced.
use pyka.Common.{
  ℕ, ◌≡◌, ◌↔◌, ◌⊎◌, Bool, true, false, Option, none, some, arith, ◌≤◌, leb, if◌then◌else◌,
}

-- A threshold is a natural number: one below 0 is reached as soon as one of 0 is.
pub record SyncPolicy : Type 0 where
  pub records : Option ℕ
  pub millis : Option ℕ

-- `limit is not None and count >= limit`
reached : Option ℕ → ℕ → Bool
reached none count = false
reached (some limit) count = leb limit count

-- `millis_since_sync` is the whole number of milliseconds: a float is at least a whole limit when
-- its floor is.
unfoldable pub should_sync : SyncPolicy → ℕ → ℕ → Bool
unfolding reached
should_sync policy appends_since_sync millis_since_sync =
    if reached policy.records appends_since_sync
    then true
    else if reached policy.millis millis_since_sync
    then true
    else false

abbrev pub sync_every_record : SyncPolicy
sync_every_record = record { records = some 1; millis = none }

abbrev pub sync_never : SyncPolicy
sync_never = record { records = none; millis = none }

-- A threshold that is set, and met.
abbrev pub IsReached : Option ℕ → ℕ → Type 0
IsReached none count = ⊥
IsReached (some limit) count = limit ≤ count

reached_iff : (limit : Option ℕ) (count : ℕ) → (reached limit count ≡ true) ↔ IsReached limit count
unfolding reached
reached_iff none count = ground arith
reached_iff (some limit) count = ground arith

-- A log is synced when one of the two thresholds is set and met, and only then.
pub should_sync_iff :
    (policy : SyncPolicy) (appends millis : ℕ)
    → (should_sync policy appends millis ≡ true)
      ↔ (IsReached policy.records appends ⊎ IsReached policy.millis millis)
unfolding should_sync
should_sync_iff policy appends millis =
    ground (arith, reached_iff policy.records appends, reached_iff policy.millis millis)
