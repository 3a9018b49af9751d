-- ===== src/Storage/Log/Growth.antt =====
-- Every append to a log adds its record at the end, or leaves the records as they are.
use pyka.Common.{
  ℕ, ◌<◌, ◌≡◌, refl, sym, ap, ◌∙◌, List, [], ◌∷◌, ◌++◌, append-nil, true, Option, Result, ok, err,
  Error, arith, length, Bool-cases, Result-cases, inl, inr, ◌⊎◌, if_true, ◌==◌,
}
use mathlib.Core.Path.{subst}
use pyka.Common.Int.{ℤ, pos, ◌+ℤ◌, eq_ℤ, eq_ℤ_iff}
use pyka.Python.Struct.{Bytes}
use pyka.Storage.Record.{Record, encode}
use pyka.Storage.Record.Layout.{encode_inv}
use pyka.Storage.Segment.{has_room_for, size_bytes}
use pyka.Storage.Log.Reopening.{sync-Holds}
use pyka.Storage.Segment
use pyka.Storage.Segment.Runs.{IsRun}
use pyka.Storage.Log.{Log, append, append_active, stamp, roll, sync}
use pyka.Storage.Log.Chain.{Holds, concat-append_one, records, Holds-IsRun}
use pyka.Storage.Log.Append.{append-ok, append_room, append_rolled, roll_full, no_room}

-- The log begins at `base` and holds these records, however they are cut into segments.
pub record Carries (l : Log) (base : ℤ) (rs : List Record) : Type 0 where
  pub parts : List (List Record)
  pub last : List Record
  pub holds : Holds l base parts last
  pub all : records parts last ≡ rs

pub Carries-IsRun : (l : Log) (base : ℤ) (rs : List Record) → Carries l base rs → IsRun base rs
Carries-IsRun l base rs h = subst (IsRun base) h.all (Holds-IsRun l base h.parts h.last h.holds)

-- What has become of a log that held `rs`, and was given the record `r`.
abbrev pub Outcome : ℤ → List Record → Record → Result ℤ → Log → Type 0
Outcome base rs r result l =
    ((result ≡ ok (base +ℤ pos (length rs))) × Carries l base (rs ++ (r ∷ [])))
    ⊎ ((e : Error) × (result ≡ err e) × Carries l base rs)

is_refused :
    (s : Segment.Segment) (r : Record) (e : Error)
    → eq_ℤ r.offset s.next_offset ≡ true
    → encode r ≡ err e
    → Segment.append s r ≡ (err e, s)
unfolding Segment.append
is_refused s r e same refused = if_true _ _ same ∙ rw refused refl

append_active-refused :
    (l : Log) (r : Record) (e : Error)
    → r.offset ≡ l.active.next_offset
    → encode r ≡ err e
    → append_active l r ≡ (err e, l)
append_active-refused l r e same refused =
    ap
      (λ (a : Result ℕ × Segment.Segment).
        (elim a.0 [ ok _ ↦ ok r.offset | err e ↦ err e ], record l { active = a.1 }))
      (is_refused l.active r e ((eq_ℤ_iff r.offset l.active.next_offset).1 same) refused)

-- An append returns the offset one past the last and adds its record at the end, or it raises and
-- leaves the records as they are.
pub append-Outcome :
    (l : Log) (base : ℤ) (rs : List Record) (key value : Option Bytes) (timestamp : Option ℤ)
    (now : ℤ)
    → Carries l base rs
    → Outcome base rs
        (stamp l key value timestamp now)
        (append l key value timestamp now).0
        (append l key value timestamp now).1
append-Outcome l base rs key value timestamp now h =
    let r = stamp l key value timestamp now in
    let settled =
      λ (e : Error) (l' : Log) (is_l : append l key value timestamp now ≡ (err e, l'))
          (h' : Carries l' base rs).
        subst (λ (a : Result ℤ × Log). Outcome base rs r a.0 a.1) (sym is_l) (inr (e, refl, h')) in
    elim (Result-cases (encode r)) [
      | inl (bytes, encoded) ↦
          let (l', parts, last, added, h', all) =
            append-ok l base h.parts h.last key value timestamp now h.holds
              (encode_inv r bytes encoded).0 in
          subst (λ (a : Result ℤ × Log). Outcome base rs r a.0 a.1) (sym added)
            (inl (
              ap (λ q. ok (base +ℤ pos (length q))) h.all,
              record {
                parts = parts;
                last = last;
                holds = h';
                all = all ∙ ap (λ q. q ++ (r ∷ [])) h.all;
              },
            ))
      | inr (e, refused) ↦ elim (Bool-cases (has_room_for l.active r)) [
        | inl has ↦
            settled e l
              (append_room l key value timestamp now has ∙ append_active-refused l r e refl refused)
              h
        | inr full ↦
            let (l₁, rolled, h₁, _, same_next) =
              roll_full l base h.parts h.last h.holds (no_room l.active r full) in
            settled e l₁
              (append_rolled l key value timestamp now l₁.active l₁ full rolled
                ∙ append_active-refused l₁ r e (sym same_next) refused)
              (record {
                parts = h.parts ++ (h.last ∷ []);
                last = [];
                holds = h₁;
                all = append-nil _ ∙ concat-append_one h.parts h.last ∙ h.all;
              })
      ]
    ]

zero-or_more : (n : ℕ) → ((n == 0) ≡ true) ⊎ (0 < n)
zero-or_more n = ground arith

-- Beginning a new segment leaves the records as they are.
pub roll-Carries :
    (l : Log) (base : ℤ) (rs : List Record) → Carries l base rs → Carries (roll l).1 base rs
unfolding roll
roll-Carries l base rs h = elim (zero-or_more (size_bytes l.active)) [
  | inl empty ↦
      subst (λ (a : Result Segment.Segment × Log). Carries a.1 base rs) (sym (if_true _ _ empty)) h
  | inr more ↦
      let (l', rolled, h', _, _) = roll_full l base h.parts h.last h.holds more in
      subst (λ (a : Result Segment.Segment × Log). Carries a.1 base rs) (sym rolled)
        (record {
          parts = h.parts ++ (h.last ∷ []);
          last = [];
          holds = h';
          all = append-nil _ ∙ concat-append_one h.parts h.last ∙ h.all;
        })
]

-- So does making them durable.
pub sync-Carries :
    (l : Log) (base : ℤ) (rs : List Record)
    → Carries l base rs
    → (sync l ≡ (ok tt, (sync l).1)) × Carries (sync l).1 base rs
sync-Carries l base rs h =
    let (synced, h', _) = sync-Holds l base h.parts h.last h.holds in
    (synced, record { parts = h.parts; last = h.last; holds = h'; all = h.all })
