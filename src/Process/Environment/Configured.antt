-- ===== src/Process/Environment/Configured.antt =====
-- What a store that was made from the environment can rely on.
use pyka.Common.{
  ℕ, ◌≤◌, ◌<◌, ◌≡◌, refl, sym, ap, ◌∙◌, List, [], Bool, false, Result, ok, >>=-ok, ok-injective,
  err-ne-ok, Bool-cases, inl, inr, if_true, if_false, guard, ltb, ltb→ge, ltb→lt, arith,
  system_exit,
}
use mathlib.Core.Path.{subst}
use pyka.Common.Int.{ℤ, pos, negsuc}
use pyka.Python.Struct.{Bytes}
use pyka.Python.Text.{Str, Piece}
use pyka.Python.Number.{int_of}
use pyka.Storage.Log.{LogFile}
use pyka.Cluster.Ring.{Ring, make_ring}
use pyka.Cluster.Ring.Owner.{IsRouting, broker_for-IsRouting}
use pyka.Cluster.HashRing.{make_hash_ring}
use pyka.Cluster.HashRing.Churn.{make_hash_ring-IsValid, hash_ring-IsRouting}
use pyka.Cluster.Environ.{Environ, get, one, me_of, suffix, get_or, from_env}
use pyka.Topic.Policy.{SyncPolicy}
use pyka.Topic.Topics.{make_topics}
use pyka.Broker.Store.{Store, make_store, owner_test}
use pyka.Process.Environment.{
  Volume, AnyRing, modulo_ring, consistent_ring, ring_from_env, store_from_env, optional_int,
  segment_bytes_of, default_vnodes, default_root, modulo, is_set_to,
}

-- The broker is one of its cluster, and every partition of every topic is some broker's.
pub record IsPlaced (r : AnyRing) : Type 0 where
  pub inside : r.0.me < r.0.brokers
  pub routing : IsRouting r.0.brokers r.1

make_ring-inside :
    (brokers me : ℤ) (template : List Piece) (r : Ring)
    → make_ring brokers me template ≡ ok r
    → r.me < r.brokers
unfolding make_ring
make_ring-inside (negsuc n) me template r h = cc
make_ring-inside (pos n) (negsuc m) template r h = cc
make_ring-inside (pos n) (pos m) template r h = elim (Bool-cases (ltb n 1)) [
  | inl no_broker ↦ absurd (err-ne-ok (rw no_broker at h))
  | inr brokers ↦ elim (Bool-cases (ltb m n)) [
    | inr outside ↦ absurd (err-ne-ok (rw (brokers, outside) at h))
    | inl inside ↦
        subst (λ r. r.me < r.brokers) (ok-injective (rw (brokers, inside) at h)) (ltb→lt m n inside)
  ]
]

modulo_ring-IsPlaced :
    (brokers me : ℤ) (template : List Piece) (r : AnyRing)
    → modulo_ring brokers me template ≡ ok r
    → IsPlaced r
modulo_ring-IsPlaced brokers me template r h =
    let (q, made, is_r) = >>=-ok (make_ring brokers me template) _ r h in
    let inside = make_ring-inside brokers me template q made in
    subst IsPlaced (ok-injective is_r)
      (record { inside = inside; routing = broker_for-IsRouting q (omega (arith, inside)) })

consistent_ring-IsPlaced :
    (blake2b : Bytes → Bytes) (brokers me : ℤ) (template : List Piece) (r : AnyRing)
    → consistent_ring blake2b brokers me template ≡ ok r
    → IsPlaced r
unfolding make_hash_ring
consistent_ring-IsPlaced blake2b brokers me template r h =
    let (q, made, is_r) =
      >>=-ok (make_hash_ring blake2b brokers me template default_vnodes) _ r h in
    let (ring, based, finished) = >>=-ok (make_ring brokers me template) _ q made in
    let same : ring ≡ q.ring = ap (λ q. q.ring) (ok-injective finished) in
    subst IsPlaced (ok-injective is_r) (record {
      inside = subst (λ r. r.me < r.brokers) same (make_ring-inside brokers me template ring based);
      routing =
          hash_ring-IsRouting blake2b q
            (make_hash_ring-IsValid blake2b brokers me template default_vnodes q made);
    })

module _ {ℓ} {R : Type ℓ} (P : R → Type ℓ) (cls : ℤ → ℤ → List Piece → Result R)
    (made : (brokers me : ℤ) (template : List Piece) (r : R)
      → cls brokers me template ≡ ok r
      → P r) where
  -- What every ring of a class has, one from the environment has.
  from_env-made :
      (pieces : Str → List Piece) (env : Environ) (hostname : Str) (r : R)
      → from_env cls pieces env hostname ≡ ok r
      → P r
  unfolding from_env
  from_env-made pieces env hostname r h =
      let (brokers, told, after) = >>=-ok (int_of (get env.brokers one)) _ r h in
      let (me, found, constructed) =
        >>=-ok (me_of brokers (suffix (get_or env.hostname hostname))) _ r after in
      made brokers me _ r constructed

ring_from_env-IsPlaced :
    (blake2b : Bytes → Bytes) (pieces : Str → List Piece) (env : Environ) (hostname : Str)
    (r : AnyRing)
    → ring_from_env blake2b pieces env hostname ≡ ok r
    → IsPlaced r
unfolding ring_from_env
ring_from_env-IsPlaced blake2b pieces env hostname r h =
    elim (Bool-cases (is_set_to env.ring modulo)) [
      | inl simple ↦
          from_env-made IsPlaced modulo_ring modulo_ring-IsPlaced pieces env hostname r
            (sym (if_true _ _ simple) ∙ h)
      | inr hashed ↦
          from_env-made IsPlaced (consistent_ring blake2b) (consistent_ring-IsPlaced blake2b) pieces
            env hostname r (sym (if_false _ _ hashed) ∙ h)
    ]

-- A store that is not open: no topic and no waiter, and a ring in which it has its place.
pub record IsConfigured (s : Store) : Type 0 where
  pub unready : s.ready ≡ false
  pub unopened : s.topics.opened ≡ []
  pub inside : s.ring.me < s.ring.brokers
  pub routing : IsRouting s.ring.brokers s.broker_for
  pub owns : s.topics.owns ≡ owner_test s.broker_for s.ring.me
  pub partitions : 1 ≤ s.topics.default_partitions

make_store-IsConfigured :
    (partitions : ℕ) (policy : SyncPolicy) (max_bytes : ℕ) (r : AnyRing) (allow : Bool)
    (metas : List (Str × ℕ)) (files : Str → ℕ → List LogFile) (s : Store)
    → IsPlaced r
    → make_store partitions policy max_bytes r.0 r.1 allow metas files ≡ ok s
    → IsConfigured s
unfolding make_store make_topics
make_store-IsConfigured partitions policy max_bytes r allow metas files s placed h =
    elim (Bool-cases (ltb partitions 1)) [
      | inl none_asked ↦ absurd (err-ne-ok (rw none_asked at h))
      | inr some_asked ↦ subst IsConfigured (ok-injective (rw some_asked at h)) (record {
        unready = refl;
        unopened = refl;
        inside = placed.inside;
        routing = placed.routing;
        owns = refl;
        partitions = ltb→ge partitions 1 some_asked;
      })
    ]

-- Whatever the environment holds: a store that is made from it is not ready and has no topic open, its
-- broker is one of the cluster, every partition belongs to some broker of the cluster, the store owns
-- the partitions that belong to this one, and a topic has one partition or more unless it is told
-- otherwise.
pub store_from_env-IsConfigured :
    (blake2b : Bytes → Bytes) (pieces : Str → List Piece) (volume : Volume) (env : Environ)
    (hostname : Str) (s : Store)
    → store_from_env blake2b pieces volume env hostname ≡ ok s
    → IsConfigured s
unfolding store_from_env
store_from_env-IsConfigured blake2b pieces volume env hostname s h =
    let (r, ringed, h1) = >>=-ok (ring_from_env blake2b pieces env hostname) _ s h in
    let (_, made, h2) =
      >>=-ok (guard (volume.writable (get env.data_dir default_root)) system_exit) _ s h1 in
    let (partitions, _, h3) = >>=-ok (int_of (get env.partitions one)) _ s h2 in
    let (records, _, h4) = >>=-ok (optional_int env.sync_records) _ s h3 in
    let (millis, _, h5) = >>=-ok (optional_int env.sync_millis) _ s h4 in
    let (bytes, _, h6) = >>=-ok (segment_bytes_of env.segment_bytes) _ s h5 in
    make_store-IsConfigured _ _ _ r _ _ _ s
      (ring_from_env-IsPlaced blake2b pieces env hostname r ringed) h6
