-- ===== src/Cluster/Environ/Ordinal.antt =====
-- A broker learns which one it is from the name of its pod.
use pyka.Common.{
  ℕ, ◌≡◌, refl, ap, ◌∙◌, List, [], ◌∷◌, ◌++◌, true, false, some, Result, ok, ◌>>=◌, Bool-cases,
  &&_elim, inl, inr, if_true, if_false, ◌==◌, arith,
}
use pyka.Common.Int.{ℤ, pos}
use pyka.Python.Text.{Str, Piece, decimal}
use pyka.Python.Number.{is_digit, all_digits, int_of}
use pyka.Python.Number.Decimal.{IsDigits, decimal-IsDigits, int_of-decimal, is_numeral-decimal}
use pyka.Cluster.Environ.{
  Environ, get, get_or, after_hyphen, suffix, me_of, one, template_text, from_env,
}

digit-hyphen : (c : ℕ) → is_digit c ≡ true → (c == 0x2d) ≡ false
digit-hyphen c h = ground arith

after_hyphen-digits : (ds found : Str) → all_digits ds ≡ true → after_hyphen ds found ≡ found
unfolding after_hyphen
after_hyphen-digits [] found h = refl
after_hyphen-digits (c ∷ cs) found h =
    let (d, rest) = &&_elim (is_digit c) (all_digits cs) h in
    if_false _ _ (digit-hyphen c d) ∙ after_hyphen-digits cs found rest

after_hyphen-append :
    (name ds found : Str) → all_digits ds ≡ true → after_hyphen (name ++ 0x2d ∷ ds) found ≡ ds
unfolding after_hyphen
after_hyphen-append [] ds found h = after_hyphen-digits ds ds h
after_hyphen-append (c ∷ cs) ds found h = elim (Bool-cases (c == 0x2d)) [
  | inl hyphen ↦ if_true _ _ hyphen ∙ after_hyphen-append cs ds _ h
  | inr other ↦ if_false _ _ other ∙ after_hyphen-append cs ds found h
]

IsDigits-all : (s : Str) → IsDigits s → all_digits s ≡ true
unfolding IsDigits
IsDigits-all [] h = absurd h
IsDigits-all (c ∷ cs) h = rw (h.0, h.1) refl

get_or-append :
    (name ds default : Str) (c : ℕ) → get_or (some (name ++ c ∷ ds)) default ≡ name ++ c ∷ ds
get_or-append [] ds default c = refl
get_or-append (d ∷ name) ds default c = refl

-- the name of a pod: the set's, a hyphen, the ordinal
abbrev pub pod : Str → ℕ → Str
pod name k = name ++ 0x2d ∷ decimal k

suffix-pod : (name : Str) (k : ℕ) → suffix (pod name k) ≡ decimal k
unfolding suffix
suffix-pod name k =
    after_hyphen-append name (decimal k) (pod name k)
      (IsDigits-all (decimal k) (decimal-IsDigits k))

me_of-decimal : (brokers : ℤ) (k : ℕ) → me_of brokers (decimal k) ≡ ok (pos k)
unfolding me_of
me_of-decimal brokers k = if_true _ _ (is_numeral-decimal k) ∙ int_of-decimal k

module _ {ℓ} {R : Type ℓ} (cls : ℤ → ℤ → List Piece → Result R) (pieces : Str → List Piece) where
  from_env-chain :
      (env : Environ) (hostname : Str) (n : ℕ) (me : Result ℤ)
      → env.brokers ≡ some (decimal n)
      → me_of (pos n) (suffix (get_or env.hostname hostname)) ≡ me
      → from_env cls pieces env hostname
        ≡ (me >>= λ me. cls (pos n) me (pieces (template_text env)))
  unfolding from_env
  from_env-chain env hostname n me told found =
      ap (λ t. int_of (get t one) >>= rest) told
      ∙ ap (λ b. b >>= rest) (int_of-decimal n)
      ∙ ap (λ me. me >>= λ me. cls (pos n) me (pieces (template_text env))) found
    where
      rest : ℤ → Result R
      rest brokers = me_of brokers (suffix (get_or env.hostname hostname)) >>= λ me.
          cls brokers me (pieces (template_text env))

  -- In a pod whose name ends with a hyphen and a number, that number is the ordinal with which the
  -- ring is made, for the number of brokers that PYKA_BROKERS tells.
  pub from_env-pod :
      (env : Environ) (hostname name : Str) (n k : ℕ)
      → env.brokers ≡ some (decimal n)
      → env.hostname ≡ some (pod name k)
      → from_env cls pieces env hostname ≡ cls (pos n) (pos k) (pieces (template_text env))
  from_env-pod env hostname name n k told named = from_env-chain env hostname n (ok (pos k)) told (
      ap (λ h. me_of (pos n) (suffix (get_or h hostname))) named
      ∙ ap (λ h. me_of (pos n) (suffix h)) (get_or-append name (decimal k) hostname 0x2d)
      ∙ ap (me_of (pos n)) (suffix-pod name k)
      ∙ me_of-decimal (pos n) k)
