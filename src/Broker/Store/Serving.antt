-- ===== src/Broker/Store/Serving.antt =====
-- A ready broker holds only its own partitions, and an append wakes who waits for it.
use pyka.Common.{
  ℕ, ◌≡◌, refl, sym, ap, ◌∙◌, List, [], ◌∷◌, Bool, true, false, not, Option, Result, ok, err,
  Result-cases, ok-injective, err-ne-ok, if_true, if_false, Bool-cases, inl, inr, if◌then◌else◌,
  All, false-ne-true,
}
use mathlib.Core.Path.{ap₂}
use pyka.Common.Int.{ℤ, pos}
use pyka.Python.Struct.{Bytes}
use pyka.Python.Text.{Str}
use pyka.Topic.Topics.{Topics, foreign_partitions}
use pyka.Broker.Tail.{Tail, notify, is_set, subscribe}
use pyka.Broker.Tail.Wakeup.{notify-woken}
use pyka.Broker.Store.{
  Store, Directory, append, announce, create_all, find_orphans, orphans_of, judge, open_store,
  is_nil,
}

-- Every partition directory that was found belongs to this broker.
abbrev pub IsHome : (Str → ℕ → Bool) → List Directory → Type 0
IsHome owns ds = All (λ (d : Directory). All (λ p. owns d.0 p ≡ true) d.1) ds

cons-ne-nil {ℓ} : {A : Type ℓ} {x : A} {xs : List A} → x ∷ xs ≡ [] → ⊥
cons-ne-nil h = cc

no_foreign :
    (t : Topics) (name : Str) (ps : List ℕ)
    → foreign_partitions t name ps ≡ []
    → All (λ p. t.owns name p ≡ true) ps
unfolding foreign_partitions
no_foreign t name [] h = tt
no_foreign t name (p ∷ ps) h = elim (Bool-cases (t.owns name p)) [
  | inl owned ↦ (owned, no_foreign t name ps (sym (if_true _ _ owned) ∙ h))
  | inr foreign ↦ absurd (cons-ne-nil (sym (if_false _ _ foreign) ∙ h))
]

orphans_of-nil :
    (name : Str) (ps : List ℕ) (found : List Directory)
    → orphans_of name ps found ≡ []
    → (ps ≡ []) × (found ≡ [])
orphans_of-nil name [] found h = (refl, h)
orphans_of-nil name (p ∷ ps) found h = absurd (cons-ne-nil h)

find_orphans-IsHome : (t : Topics) (ds : List Directory) → find_orphans t ds ≡ [] → IsHome t.owns ds
unfolding find_orphans
find_orphans-IsHome t [] h = tt
find_orphans-IsHome t (d ∷ ds) h =
    let (here, rest) = orphans_of-nil d.0 (foreign_partitions t d.0 d.1) (find_orphans t ds) h in
    (no_foreign t d.0 d.1 here, find_orphans-IsHome t ds rest)

ready_found :
    (allow ready : Bool) (found : List Directory)
    → ready ≡ false
    → allow ≡ false
    → (if not (is_nil found) then (if allow then true else ready) else true) ≡ true
    → found ≡ []
ready_found allow ready [] closed strict h = refl
ready_found allow ready (d ∷ ds) closed strict h =
    absurd (false-ne-true (sym (if_false _ _ strict ∙ closed) ∙ h))

-- A store that does not allow orphans is ready after `open` only if every partition directory that
-- was found on disk belongs to this broker.
pub open_store-IsHome :
    (s : Store) (ds : List Directory) (now : ℕ)
    → s.ready ≡ false
    → s.allow_orphans ≡ false
    → (open_store s ds now).1.ready ≡ true
    → IsHome (open_store s ds now).1.topics.owns ds
unfolding open_store judge
open_store-IsHome s ds now closed strict h = elim (Result-cases (create_all s.topics ds now).0) [
  | inr (e, failed) ↦ absurd (false-ne-true (sym closed ∙ rw (failed, open_store) at h))
  | inl (_, created) ↦
      rw (created, open_store)
        (let t = (create_all s.topics ds now).1 in
          find_orphans-IsHome t ds (
            ready_found s.allow_orphans s.ready (find_orphans t ds) closed strict
              (rw (created, open_store) at h)))
]

announce-woken :
    (s : Store) (name : Str) (t : Topics) (p : ℕ) (offset : ℤ) (tail : Tail)
    (result : Result (ℕ × ℤ))
    → s.tail ≡ (subscribe tail (name, pos p)).1
    → (announce s name result t).0 ≡ ok (p, offset)
    → is_set (announce s name result t).1.tail (subscribe tail (name, pos p)).0 ≡ true
announce-woken s name t p offset tail (err e) same h = absurd (err-ne-ok h)
announce-woken s name t p offset tail (ok (p', offset')) same h =
    let is_p : p' ≡ p = ap (λ z. z.0) (ok-injective h) in
    ap₂ (λ (u : Tail) (q : ℕ). is_set (notify u (name, pos q)) (subscribe tail (name, pos p)).0)
      same is_p
    ∙ notify-woken tail (name, pos p)

-- An append that succeeds sets the event of everyone who had subscribed to its partition.
pub append-woken :
    (s : Store) (tail : Tail) (name : Str) (key value : Option Bytes)
    (timestamp partition : Option ℤ) (now : ℤ) (monotonic p : ℕ) (offset : ℤ)
    → s.tail ≡ (subscribe tail (name, pos p)).1
    → (append s name key value timestamp partition now monotonic).0 ≡ ok (p, offset)
    → is_set
        (append s name key value timestamp partition now monotonic).1.tail
        (subscribe tail (name, pos p)).0
      ≡ true
unfolding append
append-woken s tail name key value timestamp partition now monotonic p offset same h =
    announce-woken s name _ p offset tail _ same h
