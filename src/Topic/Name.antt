-- ===== src/Topic/Name.antt =====
-- src/pyka/topic/topic.py, the names of topics: `_ALLOWED_NAME_CHARS`, `validate_name`,
-- `_is_valid_name`.
use pyka.Common.{
  ℕ, ◌≤◌, ◌<◌, ◌≡◌, ◌≢◌, inl, inr, [], ◌∷◌, Bool, true, false, ◌||◌, ◌&&◌, not, Result, ok, err,
  value_error, is_value_error, ◌==◌, ltb, leb, length, if◌then◌else◌, arith, All, Bool-cases,
  err-ne-ok, if_true, if_false, sym, ap, ◌∙◌, ltb→ge, false-ne-true,
}
use pyka.Python.Text.{Str}

abbrev between : ℕ → ℕ → ℕ → Bool
between lo hi c = leb lo c && leb c hi

-- c in string.ascii_letters + string.digits + "._-"
unfoldable pub allowed_char : ℕ → Bool
allowed_char c =
    between 0x41 0x5a c
    || between 0x61 0x7a c
    || between 0x30 0x39 c
    || c == 0x2e
    || c == 0x5f
    || c == 0x2d

abbrev pub max_name_length : ℕ
max_name_length = 200

-- set(name) <= _ALLOWED_NAME_CHARS
unfoldable pub all_allowed : Str → Bool
unfolding allowed_char
all_allowed [] = true
all_allowed (c ∷ cs) = if allowed_char c then all_allowed cs else false

-- name in (".", "..")
abbrev pub is_reserved : Str → Bool
is_reserved (a ∷ []) = a == 0x2e
is_reserved (a ∷ b ∷ []) = if a == 0x2e then b == 0x2e else false
is_reserved _ = false

abbrev is_empty : Str → Bool
is_empty [] = true
is_empty (c ∷ cs) = false

unfoldable pub validate_name : Str → Result (Unit {0})
unfolding all_allowed
validate_name name =
    if is_empty name
    then err value_error
    else if ltb max_name_length (length name)
    then err value_error
    else if is_reserved name
    then err value_error
    else if not (all_allowed name)
    then err value_error
    else ok tt

unfoldable pub is_valid_name : Str → Bool
unfolding validate_name
is_valid_name name = elim (validate_name name) [ ok _ ↦ true | err e ↦ not (is_value_error e) ]

-- What a directory name may be: not a way out of the root, and not a path.
pub record IsSafe (name : Str) : Type 0 where
  pub not_empty : 1 ≤ length name
  pub short : length name ≤ 200
  pub not_reserved : is_reserved name ≡ false
  pub no_path : All (λ c. (c ≢ 0x2f) × (c ≢ 0x5c) × (c ≢ 0) × (c < 0x80)) name

allowed_char_lem : (c : ℕ) → allowed_char c ≡ true → (c ≢ 0x2f) × (c ≢ 0x5c) × (c ≢ 0) × (c < 0x80)
unfolding allowed_char
allowed_char_lem c h = ground arith

all_allowed-All :
    (name : Str)
    → all_allowed name ≡ true
    → All (λ c. (c ≢ 0x2f) × (c ≢ 0x5c) × (c ≢ 0) × (c < 0x80)) name
unfolding all_allowed
all_allowed-All [] h = tt
all_allowed-All (c ∷ cs) h = elim (Bool-cases (allowed_char c)) [
  | inl allowed ↦ (allowed_char_lem c allowed, all_allowed-All cs (rw allowed at h))
  | inr not_allowed ↦ absurd (false-ne-true (rw not_allowed at h))
]

-- A name that passes has 1 to 200 characters of ASCII, is neither . nor .., and has no slash, no
-- backslash and no zero.
pub validate_name-IsSafe : (name : Str) → validate_name name ≡ ok tt → IsSafe name
unfolding validate_name
validate_name-IsSafe [] h = absurd (err-ne-ok h)
validate_name-IsSafe (c ∷ cs) h = elim (Bool-cases (ltb 200 (length (c ∷ cs)))) [
  | inl long ↦ absurd (err-ne-ok (sym (if_true _ _ long) ∙ h))
  | inr short ↦ elim (Bool-cases (is_reserved (c ∷ cs))) [
    | inl reserved ↦ absurd (err-ne-ok (sym (if_false _ _ short ∙ if_true _ _ reserved) ∙ h))
    | inr free ↦ elim (Bool-cases (all_allowed (c ∷ cs))) [
      | inl allowed ↦ record {
        not_empty = omega arith;
        short = ltb→ge _ _ short;
        not_reserved = free;
        no_path = all_allowed-All (c ∷ cs) allowed;
      }
      | inr bad ↦
          let wrong : not (all_allowed (c ∷ cs)) ≡ true = ap not bad in
          absurd (err-ne-ok (sym (if_false _ _ short ∙ if_false _ _ free ∙ if_true _ _ wrong) ∙ h))
    ]
  ]
]
