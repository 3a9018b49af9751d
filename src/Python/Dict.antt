-- ===== src/Python/Dict.antt =====
-- `dict`: pairs in the order of insertion, looked up by a test on keys.
use mathlib.Core.Path.{subst, ap}
use mathlib.Core.Option.{some-injective}
use pyka.Common.{
  List, [], ◌∷◌, Bool, true, false, Option, none, some, ◌≡◌, if◌then◌else◌, if_true, if_false,
  Bool-cases, inl, inr, ◌∙◌, sym, All,
}

module _ {ℓ κ} {K : Type ℓ} {V : Type κ} (eq : K → K → Bool) where
  -- d.get(k)
  unfoldable pub lookup : List (K × V) → K → Option V
  lookup [] k = none
  lookup (e ∷ es) k = let rest = lookup es k in if eq e.0 k then some e.1 else rest

  -- d[k] = v
  unfoldable pub store : List (K × V) → K → V → List (K × V)
  store [] k v = (k, v) ∷ []
  store (e ∷ es) k v = let rest = store es k v in if eq e.0 k then (e.0, v) ∷ es else e ∷ rest

  -- A key that was written is found with its value.
  pub lookup-store :
      (es : List (K × V)) (k : K) (v : V) → eq k k ≡ true → lookup (store es k v) k ≡ some v
  unfolding lookup store
  lookup-store [] k v same = if_true _ _ same
  lookup-store (e ∷ es) k v same = elim (Bool-cases (eq e.0 k)) [
    | inl found ↦ rw found (if_true _ _ found)
    | inr other ↦ rw other (if_false _ _ other ∙ lookup-store es k v same)
  ]

module _ {ℓ κ} {K : Type ℓ} {V : Type κ} (eq : K → K → Bool)
    (sound : (a b : K) → eq a b ≡ true → a ≡ b) where
  -- A key that was not written is found as before.
  pub lookup-store_other :
      (es : List (K × V)) (k k' : K) (v : V)
      → eq k k' ≡ false
      → lookup eq (store eq es k v) k' ≡ lookup eq es k'
  unfolding lookup store
  lookup-store_other [] k k' v other = if_false _ _ other
  lookup-store_other (e ∷ es) k k' v other = elim (Bool-cases (eq e.0 k)) [
    | inl same ↦
        let not_it : eq e.0 k' ≡ false =
          subst (λ a. eq a k' ≡ false) (sym (sound e.0 k same)) other in
        rw same (if_false _ _ not_it ∙ sym (if_false _ _ not_it))
    | inr differs ↦
        rw differs
          (ap (λ found. if eq e.0 k' then some e.1 else found) (lookup-store_other es k k' v other))
  ]

module _ {ℓ κ μ} {K : Type ℓ} {V : Type κ} (eq : K → K → Bool)
    (sound : (a b : K) → eq a b ≡ true → a ≡ b) (P : K → V → Type μ) where
  -- What holds of every entry holds of the one that is found.
  pub lookup-All :
      (es : List (K × V)) (k : K) (v : V)
      → All (λ e. P e.0 e.1) es
      → lookup eq es k ≡ some v
      → P k v
  unfolding lookup
  lookup-All [] k v h found = cc
  lookup-All (e ∷ es) k v h found = elim (Bool-cases (eq e.0 k)) [
    | inl same ↦
        let is_v : e.1 ≡ v = some-injective e.1 v (sym (if_true _ _ same) ∙ found) in
        subst (P k) is_v (subst (λ a. P a e.1) (sound e.0 k same) h.0)
    | inr other ↦ lookup-All es k v h.1 (sym (if_false _ _ other) ∙ found)
  ]

  pub store-All :
      (es : List (K × V)) (k : K) (v : V)
      → All (λ e. P e.0 e.1) es
      → P k v
      → All (λ e. P e.0 e.1) (store eq es k v)
  unfolding store
  store-All [] k v h p = (p, tt)
  store-All (e ∷ es) k v h p = elim (Bool-cases (eq e.0 k)) [
    | inl same ↦ rw same (subst (λ a. P a v) (sym (sound e.0 k same)) p, h.1)
    | inr other ↦ rw other (h.0, store-All es k v h.1 p)
  ]
