-- ===== src/Process/EnvironmentTests.antt =====
-- Environments of a pod, of a laptop, and of two brokers with the simpler rule.
use pyka.Common.{
  ◌≡◌, refl, [], ◌∷◌, true, false, none, some, List, ok, err, system_exit, value_error,
}
use pyka.Common.Int.{pos, negsuc}
use pyka.Python.Text.{Str, Piece, text, decimal}
use pyka.Python.Number
use pyka.Cluster.Ring.{Ring, make_ring}
use pyka.Cluster.Ring
use pyka.Cluster.Environ.{Environ, from_env, template_text}
use pyka.Cluster.Environ
use pyka.Cluster.Environ.Ordinal.{pod, from_env-pod}
use pyka.Broker.Store.{Store, owner_test}
use pyka.Broker.Store
use pyka.Broker.Tail.{new_tail}
use pyka.Process.Environment.{Volume, store_from_env, ring_from_env, optional_int, segment_bytes_of}
use pyka.Process.Environment.Configured.{IsConfigured, store_from_env-IsConfigured}

abbrev pieces : Str → List Piece
pieces t = text t ∷ []

-- "pyka", "laptop"
abbrev pyka_name : Str
pyka_name = 0x70 ∷ 0x79 ∷ 0x6b ∷ 0x61 ∷ []

abbrev laptop : Str
laptop = 0x6c ∷ 0x61 ∷ 0x70 ∷ []

abbrev of_three : Environ
of_three = record {
  brokers = some (decimal 3);
  port = none;
  hostname = some (pod pyka_name 1);
  address_template = some (0x78 ∷ []);
  ring = some (0x6d ∷ 0x6f ∷ 0x64 ∷ 0x75 ∷ 0x6c ∷ 0x6f ∷ []);
  data_dir = some (0x64 ∷ []);
  partitions = some (0x32 ∷ []);
  sync_records = some [];
  sync_millis = some (0x2d ∷ 0x35 ∷ []);
  segment_bytes = none;
  allow_orphans = some (0x31 ∷ []);
}

from_env-pod_example :
    from_env make_ring pieces of_three laptop ≡ make_ring (pos 3) (pos 1) (pieces (0x78 ∷ []))
from_env-pod_example = from_env-pod make_ring pieces of_three laptop pyka_name 3 1 refl refl

abbrev unnamed : Environ
unnamed = record of_three { hostname = some []; brokers = some (decimal 2) }

-- A laptop that runs the one broker there is.
alone :
    from_env make_ring pieces (record unnamed { brokers = none }) laptop
    ≡ ok (record { brokers = 1; me = 0; address_template = pieces (0x78 ∷ []) })
unfolding from_env make_ring Environ.suffix Environ.me_of Number.is_numeral Number.int_of
alone = refl

-- int(" -1_0\n"), int("1__0")
spaced : Number.int_of (0x20 ∷ 0x2d ∷ 0x31 ∷ 0x5f ∷ 0x30 ∷ 0x0a ∷ []) ≡ ok (negsuc 9)
unfolding Number.int_of
spaced = refl

doubled : Number.int_of (0x31 ∷ 0x5f ∷ 0x5f ∷ 0x30 ∷ []) ≡ err value_error
unfolding Number.int_of
doubled = refl

abbrev volume : Volume
volume = record { writable = λ root. true; metas = λ root. []; files = λ root name p. [] }

abbrev second : Ring
second = record { brokers = 3; me = 1; address_template = pieces (0x78 ∷ []) }

abbrev made : Store
made = record {
  ring = second;
  broker_for = Ring.broker_for second;
  topics = record {
    default_partitions = 2;
    sync_policy = record { records = none; millis = some 0 };
    max_segment_bytes = 1073741824;
    owns = owner_test (Ring.broker_for second) 1;
    partitioner = record { next = 0 };
    opened = [];
    metas = [];
    files = λ name p. [];
  };
  tail = new_tail;
  ready = false;
  allow_orphans = true;
  orphans = [];
}

three_made : store_from_env (λ b. b) pieces volume of_three laptop ≡ ok made
unfolding store_from_env ring_from_env from_env make_ring Environ.suffix Environ.me_of
    Number.is_numeral Number.int_of decimal optional_int segment_bytes_of Store.make_store
three_made = refl

store_from_env-IsConfigured_example : IsConfigured made
store_from_env-IsConfigured_example =
    store_from_env-IsConfigured (λ b. b) pieces volume of_three laptop made three_made

-- A data directory that is not the broker's to make.
forbidden :
    store_from_env (λ b. b) pieces (record volume { writable = λ root. false }) of_three laptop
    ≡ err system_exit
unfolding store_from_env ring_from_env from_env make_ring Environ.suffix Environ.me_of
    Number.is_numeral Number.int_of decimal
forbidden = refl
