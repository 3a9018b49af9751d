-- ===== src/Client/Producer/Due.antt =====
-- The requests of a batch by key and address, and what each address is to be sent of a key.
use mathlib.Core.Path.{subst}
use pyka.Common.{
  ℕ, ◌≡◌, ◌%◌, refl, sym, ap, ◌∙◌, List, [], ◌∷◌, ◌++◌, append-nil, map, Bool, true, false,
  Bool-cases, inl, inr, Option, none, some, if◌then◌else◌, if_true, if_false,
}
use pyka.Python.Dict.{lookup, lookup-store, lookup-store_other}
use pyka.Python.Struct.{Bytes}
use pyka.Python.Text.{Str}
use pyka.Python.Zlib.{crc32}
use pyka.Topic.Topics.{eq_str}
use pyka.Topic.Topics.Creation.{eq_str_refl, eq_str-eq}
use pyka.Broker.Messages.{ProduceRequest}
use pyka.Client.Producer.{Groups, request_for, add_request, requests_of, pair_for}

abbrev pub keep {ℓ} : {A : Type ℓ} → (A → Bool) → List A → List A
keep test [] = []
keep test (x ∷ xs) = if test x then x ∷ keep test xs else keep test xs

keep-append {ℓ} :
    {A : Type ℓ} (test : A → Bool) (xs ys : List A)
    → keep test (xs ++ ys) ≡ keep test xs ++ keep test ys
keep-append test [] ys = refl
keep-append test (x ∷ xs) ys = elim (Bool-cases (test x)) [
  | inl kept ↦
      if_true _ _ kept
      ∙ ap (λ l. x ∷ l) (keep-append test xs ys)
      ∙ ap (λ l. l ++ keep test ys) (sym (if_true _ _ kept))
  | inr left_out ↦
      if_false _ _ left_out
      ∙ keep-append test xs ys
      ∙ ap (λ l. l ++ keep test ys) (sym (if_false _ _ left_out))
]

abbrev pub is_key : Bytes → Option Bytes → Bool
is_key k none = false
is_key k (some k') = eq_str k' k

-- The requests with this key, and the records with it.
abbrev pub requests_with : Bytes → List ProduceRequest → List ProduceRequest
requests_with k = keep (λ q. is_key k q.key)

abbrev pub records_with :
    Bytes → List (Option Bytes × Option Bytes) → List (Option Bytes × Option Bytes)
records_with k = keep (λ pair. is_key k pair.0)

-- What an address is sent.
abbrev pub sent_to : Str → Groups → List ProduceRequest
sent_to address groups = requests_of (lookup eq_str groups address)

sent_to-add_request :
    (a b : Str) (groups : Groups) (q : ProduceRequest)
    → sent_to b (add_request groups a q)
      ≡ (if eq_str a b then sent_to b groups ++ (q ∷ []) else sent_to b groups)
unfolding add_request
sent_to-add_request a b groups q = elim (Bool-cases (eq_str a b)) [
  | inl same ↦
      subst (λ z. sent_to z (add_request groups a q) ≡ sent_to z groups ++ (q ∷ []))
        (eq_str-eq a b same) (ap requests_of (lookup-store eq_str groups a _ (eq_str_refl a)))
      ∙ sym (if_true _ _ same)
  | inr other ↦
      ap requests_of (lookup-store_other eq_str eq_str-eq groups a b _ other)
      ∙ sym (if_false _ _ other)
]

is_key-some : (k : Bytes) (key : Option Bytes) → is_key k key ≡ true → key ≡ some k
is_key-some k none h = cc
is_key-some k (some k') h = ap some (eq_str-eq k' k h)

one_kept : {A : Type 0} (test : A → Bool) (x : A) → test x ≡ true → keep test (x ∷ []) ≡ x ∷ []
one_kept test x h = if_true _ _ h

module _ (topic : Str) (address : ℕ → Str) (count : ℕ) where
  abbrev pub partition_of : Bytes → ℕ
  partition_of k = crc32 k 0 % count

  -- What an address is to be sent of a key: its records in order, all for the partition of the key,
  -- if this is the address of that partition, and nothing otherwise.
  abbrev pub due : Bytes → Str → List (Option Bytes × Option Bytes) → List ProduceRequest
  due k a pairs =
      if eq_str (address (partition_of k)) a
      then map (λ pair. request_for (pair_for topic pair) (partition_of k)) (records_with k pairs)
      else []

  due-other :
      (k : Bytes) (a : Str) (pair : Option Bytes × Option Bytes)
      (pairs : List (Option Bytes × Option Bytes))
      → is_key k pair.0 ≡ false
      → due k a (pair ∷ pairs) ≡ due k a pairs
  due-other k a pair pairs other =
      ap
        (λ l.
          if eq_str (address (partition_of k)) a
          then map (λ pair. request_for (pair_for topic pair) (partition_of k)) l
          else [])
        (if_false _ _ other)

  due-key :
      (k : Bytes) (a : Str) (pair : Option Bytes × Option Bytes)
      (pairs : List (Option Bytes × Option Bytes))
      → is_key k pair.0 ≡ true
      → eq_str (address (partition_of k)) a ≡ true
      → due k a (pair ∷ pairs) ≡ request_for (pair_for topic pair) (partition_of k) ∷ due k a pairs
  due-key k a pair pairs same here =
      if_true _ _ here
      ∙ ap (map (λ pair. request_for (pair_for topic pair) (partition_of k))) (if_true _ _ same)
      ∙ ap (λ l. request_for (pair_for topic pair) (partition_of k) ∷ l) (sym (if_true _ _ here))

  due-elsewhere :
      (k : Bytes) (a : Str) (pairs : List (Option Bytes × Option Bytes))
      → eq_str (address (partition_of k)) a ≡ false
      → due k a pairs ≡ []
  due-elsewhere k a pairs there = if_false _ _ there

  pub due-nil : (k : Bytes) (a : Str) → due k a [] ≡ []
  due-nil k a = elim (Bool-cases (eq_str (address (partition_of k)) a)) [
    | inl here ↦ if_true _ _ here
    | inr there ↦ if_false _ _ there
  ]

  pub due-cons :
      (k : Bytes) (a : Str) (pair : Option Bytes × Option Bytes)
      (pairs : List (Option Bytes × Option Bytes))
      → due k a (pair ∷ pairs) ≡ due k a (pair ∷ []) ++ due k a pairs
  due-cons k a pair pairs = elim (Bool-cases (is_key k pair.0)) [
    | inr other ↦
        due-other k a pair pairs other
        ∙ ap (λ l. l ++ due k a pairs) (sym (due-other k a pair [] other ∙ due-nil k a))
    | inl same ↦ elim (Bool-cases (eq_str (address (partition_of k)) a)) [
      | inl here ↦
          due-key k a pair pairs same here
          ∙ ap (λ l. l ++ due k a pairs)
              (sym (
                due-key k a pair [] same here
                ∙ ap (λ l. request_for (pair_for topic pair) (partition_of k) ∷ l) (due-nil k a)))
      | inr there ↦
          due-elsewhere k a (pair ∷ pairs) there
          ∙ sym (
              ap (λ l. l ++ due k a pairs) (due-elsewhere k a (pair ∷ []) there)
              ∙ due-elsewhere k a pairs there)
    ]
  ]

  -- The request of a record is added to what its address is sent of the record's key.
  pub requests_with-add_request :
      (k : Bytes) (a : Str) (pair : Option Bytes × Option Bytes) (p : ℕ) (groups : Groups)
      → ((k' : Bytes) → pair.0 ≡ some k' → p ≡ partition_of k')
      → requests_with k
          (sent_to a (add_request groups (address p) (request_for (pair_for topic pair) p)))
        ≡ requests_with k (sent_to a groups) ++ due k a (pair ∷ [])
  unfolding request_for
  requests_with-add_request k a pair p groups chosen =
      let q = request_for (pair_for topic pair) p in
      let before = requests_with k (sent_to a groups) in
      let unchanged : due k a (pair ∷ []) ≡ [] → before ≡ before ++ due k a (pair ∷ []) =
        λ nothing. sym (ap (λ l. before ++ l) nothing ∙ append-nil before) in
      elim (Bool-cases (eq_str (address p) a)) [
        | inl here ↦
            ap (requests_with k) (sent_to-add_request (address p) a groups q ∙ if_true _ _ here)
            ∙ keep-append (λ q. is_key k q.key) (sent_to a groups) (q ∷ [])
            ∙ elim (Bool-cases (is_key k pair.0)) [
              | inl same ↦
                  let at : p ≡ partition_of k = chosen k (is_key-some k pair.0 same) in
                  ap (λ l. before ++ l)
                    (one_kept (λ q. is_key k q.key) q same
                      ∙ ap (λ n. request_for (pair_for topic pair) n ∷ []) at
                      ∙ sym (
                          due-key k a pair [] same
                            (subst (λ n. eq_str (address n) a ≡ true) at here)
                          ∙ ap (λ l. request_for (pair_for topic pair) (partition_of k) ∷ l)
                              (due-nil k a)))
              | inr other ↦
                  ap (λ l. before ++ l)
                    (if_false {b = is_key k pair.0} _ _ other
                      ∙ sym (due-other k a pair [] other ∙ due-nil k a))
            ]
        | inr there ↦
            ap (requests_with k) (sent_to-add_request (address p) a groups q ∙ if_false _ _ there)
            ∙ elim (Bool-cases (is_key k pair.0)) [
              | inl same ↦
                  let at : p ≡ partition_of k = chosen k (is_key-some k pair.0 same) in
                  unchanged (
                    due-elsewhere k a (pair ∷ [])
                      (subst (λ n. eq_str (address n) a ≡ false) at there))
              | inr other ↦ unchanged (due-other k a pair [] other ∙ due-nil k a)
            ]
      ]
