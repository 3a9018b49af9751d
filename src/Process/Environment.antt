-- ===== src/Process/Environment.antt =====
-- src/pyka/cli/broker.py, `_store_from_env` and `_optional_int`: a store from the environment.
pub mod Configured
use pyka.Common.{
  ℕ, List, [], ◌∷◌, Bool, true, false, Option, none, some, Result, ok, err, system_exit, ◌>>=◌,
  ◌>>◌, guard, if◌then◌else◌,
}
use pyka.Common.Int.{ℤ, pos, pos_part}
use pyka.Python.Struct.{Bytes}
use pyka.Python.Text.{Str, Piece}
use pyka.Python.Number.{int_of}
use pyka.Storage.Log.{LogFile}
use pyka.Cluster.Ring.{Ring, make_ring}
use pyka.Cluster.Ring
use pyka.Cluster.HashRing.{HashRing, make_hash_ring}
use pyka.Cluster.HashRing
use pyka.Cluster.Environ.{Environ, get, one, from_env}
use pyka.Topic.Policy.{SyncPolicy}
use pyka.Topic.Topics.{eq_str}
use pyka.Broker.Store.{Store, make_store}

-- The file system: whether `mkdir` may make a directory, and what a data directory holds.
pub record Volume : Type 0 where
  pub writable : Str → Bool
  pub metas : Str → List (Str × ℕ)
  pub files : Str → Str → ℕ → List LogFile

-- "modulo"
abbrev pub modulo : Str
modulo = 0x6d ∷ 0x6f ∷ 0x64 ∷ 0x75 ∷ 0x6c ∷ 0x6f ∷ []

-- "/var/lib/pyka"
abbrev pub default_root : Str
default_root =
    0x2f ∷ 0x76 ∷ 0x61 ∷ 0x72 ∷ 0x2f ∷ 0x6c ∷ 0x69 ∷ 0x62 ∷ 0x2f ∷ 0x70 ∷ 0x79 ∷ 0x6b ∷ 0x61 ∷ []

-- os.environ.get(name) == text
abbrev pub is_set_to : Option Str → Str → Bool
is_set_to none text = false
is_set_to (some value) text = eq_str value text

-- `_optional_int`; an empty text counts as none
unfoldable pub optional_int : Option Str → Result (Option ℤ)
unfolding int_of
optional_int none = ok none
optional_int (some []) = ok none
optional_int (some (c ∷ cs)) = int_of (c ∷ cs) >>= λ n. ok (some n)

-- int(os.environ.get("PYKA_SEGMENT_BYTES", 1 << 30))
unfoldable pub segment_bytes_of : Option Str → Result ℤ
unfolding int_of
segment_bytes_of none = ok (pos 1073741824)
segment_bytes_of (some text) = int_of text

-- A threshold or a limit below 0 acts as one of 0.
abbrev pub threshold : Option ℤ → Option ℕ
threshold none = none
threshold (some n) = some (pos_part n)

-- the default of HashRing
abbrev pub default_vnodes : ℕ
default_vnodes = 128

-- A ring of either class, and its method `broker_for`.
abbrev pub AnyRing : Type 0
AnyRing = Ring × (Str → ℤ → Result ℕ)

abbrev pub modulo_ring : ℤ → ℤ → List Piece → Result AnyRing
modulo_ring brokers me template = make_ring brokers me template >>= λ r. ok (r, Ring.broker_for r)

abbrev pub consistent_ring : (Bytes → Bytes) → ℤ → ℤ → List Piece → Result AnyRing
consistent_ring blake2b brokers me template =
    make_hash_ring blake2b brokers me template default_vnodes >>= λ h.
    ok (h.ring, HashRing.broker_for blake2b h)

module _ (blake2b : Bytes → Bytes) (pieces : Str → List Piece) where
  -- ring_class.from_env()
  unfoldable pub ring_from_env : Environ → Str → Result AnyRing
  unfolding make_ring make_hash_ring from_env
  ring_from_env env hostname =
      if is_set_to env.ring modulo
      then from_env modulo_ring pieces env hostname
      else from_env (consistent_ring blake2b) pieces env hostname

  -- `_store_from_env`; `hostname` is socket.gethostname()
  unfoldable pub store_from_env : Volume → Environ → Str → Result Store
  unfolding ring_from_env int_of optional_int segment_bytes_of make_store
  store_from_env volume env hostname =
      let root = get env.data_dir default_root in
      ring_from_env env hostname >>= λ ring. guard (volume.writable root) system_exit >>= λ _.
      int_of (get env.partitions one) >>= λ partitions. optional_int env.sync_records >>= λ records.
      optional_int env.sync_millis >>= λ millis. segment_bytes_of env.segment_bytes >>= λ bytes.
      make_store (pos_part partitions)
        (record { records = threshold records; millis = threshold millis }) (pos_part bytes) ring.0
        ring.1 (is_set_to env.allow_orphans one) (volume.metas root) (volume.files root)
