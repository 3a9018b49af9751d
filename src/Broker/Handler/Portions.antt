-- ===== src/Broker/Handler/Portions.antt =====
-- How the limits of the rounds add up to what a stream is to carry.
use pyka.Common.{
  ◌⊎◌, take-nil, ==_iff, false-ne-true, ℕ, zero, suc, ◌-◌, ◌≤◌, ◌<◌, ◌≡◌, refl, sym, ap, ◌∙◌, List,
  [], ◌∷◌, ◌++◌, true, false, Option, none, some, arith, length, take, drop, Bool-cases, inl, inr,
  if_true, if_false, take-append-drop, length-take, leb, take_all, ◌==◌,
}
use pyka.Storage.Record.{Record}
use pyka.Broker.Handler.Consume.{limit_of, remaining_after, is_used_up}

-- What a stream with this `remaining` is to carry.
abbrev pub portion : Option ℕ → List Record → List Record
portion none ws = ws
portion (some n) ws = take n ws

==_comm : (a b : ℕ) → (a == b) ≡ false → (b == a) ≡ false
==_comm a b h = ground arith

take-take-drop :
    (m n : ℕ) (ws : List Record) → m ≤ n → take m ws ++ take (n - m) (drop m ws) ≡ take n ws
take-take-drop zero n ws h = let e : n - 0 ≡ n = omega arith in ap (λ k. take k ws) e
take-take-drop (suc m) zero ws h = absurd (omega arith)
take-take-drop (suc m) (suc n) [] h = ap (λ k. [] ++ k) (take-nil (suc n - suc m))
take-take-drop (suc m) (suc n) (w ∷ ws) h =
    let e : suc n - suc m ≡ n - m = omega arith in
    ap (λ l. w ∷ l)
      (ap (λ k. take m ws ++ take k (drop m ws)) e ∙ take-take-drop m n ws (omega arith))

limit_of-le : (n : ℕ) → limit_of (some n) ≤ n
limit_of-le n = ground arith

limit_of-cases : (n : ℕ) → (limit_of (some n) ≡ 500) ⊎ (limit_of (some n) ≡ n)
limit_of-cases n = elim (Bool-cases (leb 500 n)) [
  | inl big ↦ inl (if_true 500 n big)
  | inr small ↦ inr (if_false 500 n small)
]

pub limit_of-pos : (n : ℕ) → 1 ≤ n → 1 ≤ limit_of (some n)
limit_of-pos n h = ground arith

lt_of_ne : (a b : ℕ) → a ≤ b → (a == b) ≡ false → a < b
lt_of_ne a b h ne = ground arith

length-batch-le : (n : ℕ) (ws : List Record) → length (take n ws) ≤ n
length-batch-le n ws = omega (arith, length-take n ws)

short_batch : (n m : ℕ) (ws : List Record) → length (take n ws) < n → n ≤ m → take n ws ≡ take m ws
short_batch n m ws h le =
    let short : length ws ≤ n = omega (arith, length-take n ws) in
    take_all n ws short ∙ sym (take_all m ws (omega arith))

-- A round that has used up what remains has sent all of the portion.
pub used_up-portion :
    (remaining : Option ℕ) (ws : List Record)
    → is_used_up (remaining_after remaining (take (limit_of remaining) ws)) ≡ true
    → take (limit_of remaining) ws ≡ portion remaining ws
used_up-portion none ws h = absurd (false-ne-true h)
used_up-portion (some n) ws h =
    let empty = (==_iff (n - length (take (limit_of (some n)) ws)) 0).0 h in
    let whole : limit_of (some n) ≡ n =
      omega (arith, empty, limit_of-le n, length-batch-le (limit_of (some n)) ws) in
    ap (λ k. take k ws) whole

-- So has a round with a short batch.
pub short-portion :
    (remaining : Option ℕ) (ws : List Record)
    → (length (take (limit_of remaining) ws) == limit_of remaining) ≡ false
    → take (limit_of remaining) ws ≡ portion remaining ws
short-portion none ws h =
    let lt = lt_of_ne (length (take 500 ws)) 500 (length-batch-le 500 ws) h in
    take_all 500 ws (omega (arith, length-take 500 ws, lt))
short-portion (some n) ws h =
    let lt = lt_of_ne _ _ (length-batch-le (limit_of (some n)) ws) h in
    short_batch (limit_of (some n)) n ws lt (limit_of-le n)

-- Any other round leaves the rest of the portion to the rounds after it.
pub again-portion :
    (remaining : Option ℕ) (ws : List Record)
    → is_used_up (remaining_after remaining (take (limit_of remaining) ws)) ≡ false
    → (length (take (limit_of remaining) ws) == limit_of remaining) ≡ true
    → (take (limit_of remaining) ws
          ++ portion
              (remaining_after remaining (take (limit_of remaining) ws))
              (drop (limit_of remaining) ws)
        ≡ portion remaining ws)
      × (limit_of remaining ≡ 500)
      × (500 ≤ length ws)
      × (1 ≤ limit_of (remaining_after remaining (take (limit_of remaining) ws)))
again-portion none ws h full =
    let len = (==_iff (length (take 500 ws)) 500).0 full in
    (take-append-drop 500 ws, refl, omega (arith, length-take 500 ws, len), omega arith)
again-portion (some n) ws h full =
    let l : ℕ = limit_of (some n) in
    let len = (==_iff (length (take (limit_of (some n)) ws)) (limit_of (some n))).0 full in
    let left : 1 ≤ n - length (take (limit_of (some n)) ws) =
      lt_of_ne 0 _ (omega arith) (==_comm _ 0 h) in
    let is_500 : limit_of (some n) ≡ 500 = elim (limit_of-cases n) [
      | inl e ↦ e
      | inr e ↦ absurd (omega (arith, e, left, len))
    ] in
    (
      ap (λ k. take (limit_of (some n)) ws ++ take (n - k) (drop (limit_of (some n)) ws)) len
          ∙ take-take-drop (limit_of (some n)) n ws (limit_of-le n),
      is_500,
      omega (arith, is_500, len, length-take (limit_of (some n)) ws),
      limit_of-pos (n - length (take (limit_of (some n)) ws)) left,
    )
