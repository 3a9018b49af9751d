-- ===== src/Python/Number/Decimal.antt =====
-- A number that `str` has written is read back by `int`.
use pyka.Common.{
  ℕ, zero, suc, ◌+◌, ◌-◌, ◌*◌, ◌/◌, ◌%◌, ◌<◌, ◌≡◌, refl, sym, ap, ◌∙◌, [], ◌∷◌, Bool, true, false,
  ok, ◌>>=◌, Bool-cases, inl, inr, if_true, if_false, ltb, ltb→lt, ltb→ge, arith, ◌==◌,
}
use mathlib.Core.Path.{subst}
use pyka.Common.Int.{pos}
use pyka.Python.Text.{Str, decimal, decimal_loop}
use pyka.Python.Number.{is_digit, is_space, digits, after_sign, int_of, all_digits, is_numeral}

digit-is_digit : (n : ℕ) → n < 10 → is_digit (0x30 + n) ≡ true
digit-is_digit n h = ground arith

digits-digit :
    (seen : Bool) (value n : ℕ) (cs : Str)
    → n < 10
    → digits seen value ((0x30 + n) ∷ cs) ≡ digits true (value * 10 + n) cs
unfolding digits
digits-digit seen value n cs h =
    if_true _ _ (digit-is_digit n h)
    ∙ (let e : 0x30 + n - 0x30 ≡ n = omega arith in ap (λ k. digits true (value * 10 + k) cs) e)

-- The digits of `n` are read before those that follow.
digits-loop :
    (fuel : ℕ) (n : ℕ) (cs : Str)
    → n < fuel
    → digits false 0 (decimal_loop fuel n cs) ≡ digits true n cs
unfolding decimal_loop
digits-loop zero n cs h = absurd (omega arith)
digits-loop (suc fuel) n cs h = elim (Bool-cases (ltb n 10)) [
  | inl small ↦
      let e : 0 * 10 + n % 10 ≡ n = omega (arith, ltb→lt n 10 small) in
      ap (digits false 0) (if_true _ _ small)
      ∙ digits-digit false 0 (n % 10) cs (omega arith)
      ∙ ap (λ k. digits true k cs) e
  | inr large ↦
      let e : n / 10 * 10 + n % 10 ≡ n = omega arith in
      ap (digits false 0) (if_false _ _ large)
      ∙ digits-loop fuel (n / 10) ((0x30 + n % 10) ∷ cs) (omega (arith, ltb→ge n 10 large))
      ∙ digits-digit true (n / 10) (n % 10) cs (omega arith)
      ∙ ap (λ k. digits true k cs) e
]

digit-is_space : (c : ℕ) → is_digit c ≡ true → is_space c ≡ false
digit-is_space c h = ground arith

digit-minus : (c : ℕ) → is_digit c ≡ true → (c == 0x2d) ≡ false
digit-minus c h = ground arith

digit-plus : (c : ℕ) → is_digit c ≡ true → (c == 0x2b) ≡ false
digit-plus c h = ground arith

-- A text of digits has neither spaces nor a sign.
int_of-digits :
    (c : ℕ) (cs : Str)
    → is_digit c ≡ true
    → int_of (c ∷ cs) ≡ (digits false 0 (c ∷ cs) >>= λ n. ok (pos n))
unfolding int_of
int_of-digits c cs h =
    ap after_sign (if_false _ _ (digit-is_space c h))
    ∙ if_false _ _ (digit-minus c h)
    ∙ if_false _ _ (digit-plus c h)

-- It begins with a digit, and has nothing else.
unfoldable pub IsDigits : Str → Type 0
IsDigits [] = ⊥
IsDigits (c ∷ cs) = (is_digit c ≡ true) × (all_digits cs ≡ true)

all_digits-cons :
    (c : ℕ) (cs : Str) → is_digit c ≡ true → all_digits cs ≡ true → all_digits (c ∷ cs) ≡ true
all_digits-cons c cs h k = rw h k

loop-IsDigits :
    (fuel n : ℕ) (cs : Str) → n < fuel → all_digits cs ≡ true → IsDigits (decimal_loop fuel n cs)
unfolding decimal_loop IsDigits
loop-IsDigits zero n cs h k = absurd (omega arith)
loop-IsDigits (suc fuel) n cs h k =
    let is_digit_of = digit-is_digit (n % 10) (omega arith) in
    elim (Bool-cases (ltb n 10)) [
      | inl small ↦ subst IsDigits (sym (if_true _ _ small)) (is_digit_of, k)
      | inr large ↦ subst IsDigits (sym (if_false _ _ large)) (
          loop-IsDigits fuel (n / 10) ((0x30 + n % 10) ∷ cs) (omega (arith, ltb→ge n 10 large))
            (all_digits-cons (0x30 + n % 10) cs is_digit_of k))
    ]

digits_numeral : (s : Str) → IsDigits s → is_numeral s ≡ true
unfolding is_numeral IsDigits
digits_numeral [] h = absurd h
digits_numeral (c ∷ cs) h = all_digits-cons c cs h.0 h.1

digits_int : (s : Str) (n : ℕ) → IsDigits s → digits false 0 s ≡ ok n → int_of s ≡ ok (pos n)
unfolding IsDigits
digits_int [] n h e = absurd h
digits_int (c ∷ cs) n h e = int_of-digits c cs h.0 ∙ ap (λ r. r >>= λ m. ok (pos m)) e

pub decimal-IsDigits : (n : ℕ) → IsDigits (decimal n)
unfolding decimal
decimal-IsDigits n = loop-IsDigits (suc n) n [] (omega arith) refl

-- What `str` writes for a natural number passes `isdigit`.
pub is_numeral-decimal : (n : ℕ) → is_numeral (decimal n) ≡ true
is_numeral-decimal n = digits_numeral (decimal n) (decimal-IsDigits n)

-- What `str` writes for a natural number, `int` reads as that number.
pub int_of-decimal : (n : ℕ) → int_of (decimal n) ≡ ok (pos n)
unfolding decimal digits
int_of-decimal n =
    digits_int (decimal n) n (decimal-IsDigits n) (digits-loop (suc n) n [] (omega arith))
