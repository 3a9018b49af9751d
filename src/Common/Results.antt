-- ===== src/Common/Results.antt =====
-- Python's exceptions: a call returns a value or one of the errors below.
use mathlib.Core.Path.{◌≡◌, refl, ap}
use mathlib.Core.Bool.{Bool, true, false}
use mathlib.Core.Logic.{◌⊎◌, inl, inr}

-- The exception classes that the source raises, or lets the standard library raise.
-- `stuck` is none of them: a loop of the model ran out of fuel.
pub data Error : Type 0 where
  value_error : Error
  corrupt_record : Error
  corrupt_log : Error
  offset_out_of_range : Error
  struct_error : Error
  runtime_error : Error
  key_error : Error
  index_error : Error
  unknown_topic : Error
  partition_not_local : Error
  system_exit : Error
  stuck : Error

-- `except ValueError`: CorruptRecord, CorruptLog and OffsetOutOfRange are subclasses of it.
-- `struct.error` is not.
unfoldable pub is_value_error : Error → Bool
is_value_error value_error = true
is_value_error corrupt_record = true
is_value_error corrupt_log = true
is_value_error offset_out_of_range = true
is_value_error _ = false

pub data Result {ℓ} (A : Type ℓ) : Type ℓ where
  ok : A → Result A
  err : Error → Result A

-- `if not test: raise e`
abbrev pub guard : Bool → Error → Result (Unit {0})
guard false e = err e
guard true e = ok tt

pub Result-cases {ℓ} :
    {A : Type ℓ} (r : Result A) → ((a : A) × (r ≡ ok a)) ⊎ ((e : Error) × (r ≡ err e))
Result-cases (ok a) = inl (a, refl)
Result-cases (err e) = inr (e, refl)

-- An exception skips the rest of the block.
infixl 5 ◌>>=◌
abbrev pub ◌>>=◌ {ℓ κ} : {A : Type ℓ} {B : Type κ} → Result A → (A → Result B) → Result B
err e >>= rest = err e
ok a >>= rest = rest a

infixl 5 ◌>>◌
abbrev pub ◌>>◌ {κ} : {B : Type κ} → Result (Unit {0}) → Result B → Result B
first >> rest = first >>= λ _. rest

pub ok-injective {ℓ} : {A : Type ℓ} {a b : A} → ok a ≡ ok b → a ≡ b
ok-injective {a = a} p = ap (λ r. elim r [ ok x ↦ x | err e ↦ a ]) p

pub err-ne-ok {ℓ} : {A : Type ℓ} {a : A} {e : Error} → err e ≡ ok a → ⊥
err-ne-ok p = cc

-- What a block that returns has read from its first step.
pub >>=-ok {ℓ κ} :
    {A : Type ℓ} {B : Type κ} (r : Result A) (f : A → Result B) (b : B)
    → (r >>= f) ≡ ok b
    → (a : A) × (r ≡ ok a) × (f a ≡ ok b)
>>=-ok (ok a) f b h = (a, refl, h)
>>=-ok (err e) f b h = absurd (err-ne-ok h)
