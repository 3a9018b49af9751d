-- ===== src/Storage/Segment/Pointing.antt =====
-- Index entries that point at the records of a run, and when `maybe_append` adds one more.
use pyka.Common.{
  ℕ, ◌≤◌, ◌<◌, ◌≡◌, ◌⊎◌, inl, inr, ◌∙◌, refl, ap, List, [], ◌∷◌, ◌++◌, append_assoc, true, false,
  Result, ok, arith, length, length-append, All,
}
use pyka.Common.Int.{ℤ, pos, pos_part, ◌+ℤ◌, ◌-ℤ◌, int_laws}
use pyka.Storage.Record.{Record}
use pyka.Storage.Index.{Index, maybe_append, max_u32, follows_last}
use pyka.Storage.Index.Entries.{Entries, IsValid, maybe_append-IsValid}
use pyka.Storage.Segment.Runs.{frames, length-frames-ge}

-- The entry names a record of the run: how many come before it, and at which byte it starts.
pub record PointsInto (rs : List Record) (e : ℕ × ℕ) : Type 0 where
  pub front : List Record
  pub here : Record
  pub back : List Record
  pub split : rs ≡ front ++ (here ∷ back)
  pub number : e.0 ≡ length front
  pub start : e.1 ≡ length (frames front)

-- The index of an open segment that begins at `base`, over the records `rs`.
pub record Indexes (base : ℤ) (rs : List Record) (x : Index) : Type 0 where
  pub same_base : x.base_offset ≡ base
  pub valid : IsValid x
  pub pointing : All (PointsInto rs) x.entries

PointsInto-append :
    {rs : List Record} (qs : List Record) {e : ℕ × ℕ} → PointsInto rs e → PointsInto (rs ++ qs) e
PointsInto-append qs p = record {
  front = p.front;
  here = p.here;
  back = p.back ++ qs;
  split = rw p.split (append_assoc p.front (p.here ∷ p.back) qs);
  number = p.number;
  start = p.start;
}

All-PointsInto-append :
    (rs qs : List Record) (es : Entries) → All (PointsInto rs) es → All (PointsInto (rs ++ qs)) es
All-PointsInto-append rs qs [] h = tt
All-PointsInto-append rs qs (e ∷ es) h =
    (PointsInto-append qs h.0, All-PointsInto-append rs qs es h.1)

All-append_one {ℓ κ} :
    {A : Type ℓ} (P : A → Type κ) (es : List A) (d : A) → All P es → P d → All P (es ++ d ∷ [])
All-append_one P [] d h p = (p, tt)
All-append_one P (e ∷ es) d h p = (h.0, All-append_one P es d h.1 p)

pub PointsInto-lt : {rs : List Record} {e : ℕ × ℕ} → PointsInto rs e → e.0 < length rs
PointsInto-lt p =
    omega (arith, p.number, ap length p.split, length-append p.front (p.here ∷ p.back))

follows_last-All :
    (rs : List Record) (es : Entries) → All (PointsInto rs) es → follows_last es (length rs) ≡ true
follows_last-All rs [] h = refl
follows_last-All rs (e ∷ []) h = ground (arith, PointsInto-lt h.0)
follows_last-All rs (e ∷ d ∷ es) h = follows_last-All rs (d ∷ es) h.1

-- The entry of a record that is added at the end of a run.
new_entry :
    (rs : List Record) (r : Record) → PointsInto (rs ++ (r ∷ [])) (length rs, length (frames rs))
new_entry rs r = record {
  front = rs;
  here = r;
  back = [];
  split = refl;
  number = refl;
  start = refl;
}

sub_back : (base : ℤ) (n : ℕ) → base +ℤ pos n -ℤ base ≡ pos n
sub_back base n = omega int_laws

-- Offered the record that comes next, an open index raises nothing.
maybe_append-next_ok :
    (base : ℤ) (rs : List Record) (x : Index)
    → Indexes base rs x
    → x.closed ≡ false
    → length (frames rs) ≤ max_u32
    → (maybe_append x (base +ℤ pos (length rs)) (length (frames rs))).0 ≡ ok tt
unfolding maybe_append
maybe_append-next_ok base rs x h o fits =
    rw (h.same_base, sub_back base (length rs))
      (ground (arith, o, follows_last-All rs x.entries h.pointing, length-frames-ge rs, fits))

maybe_append_entries :
    (x : Index) (offset : ℤ) (position : ℕ)
    → ((maybe_append x offset position).1.entries ≡ x.entries)
      ⊎ ((maybe_append x offset position).1.entries
          ≡ x.entries ++ (pos_part (offset -ℤ x.base_offset), position) ∷ [])
unfolding maybe_append
maybe_append_entries x offset position = ground arith

maybe_append_kept :
    (x : Index) (offset : ℤ) (position : ℕ)
    → ((maybe_append x offset position).1.base_offset ≡ x.base_offset)
      × ((maybe_append x offset position).1.closed ≡ x.closed)
unfolding maybe_append
maybe_append_kept x offset position = ground arith

maybe_append-Indexes :
    (base : ℤ) (rs : List Record) (r : Record) (x : Index)
    → Indexes base rs x
    → Indexes base
        (rs ++ (r ∷ []))
        (maybe_append x (base +ℤ pos (length rs)) (length (frames rs))).1
maybe_append-Indexes base rs r x h =
    let offset = base +ℤ pos (length rs) in
    let position = length (frames rs) in
    record {
      same_base = (maybe_append_kept x offset position).0 ∙ h.same_base;
      valid = maybe_append-IsValid x offset position h.valid;
      pointing = elim (maybe_append_entries x offset position) [
        | inl same ↦ rw same (All-PointsInto-append rs (r ∷ []) x.entries h.pointing)
        | inr more ↦
            rw (more, h.same_base, sub_back base (length rs))
              (All-append_one (PointsInto (rs ++ (r ∷ []))) x.entries (length rs, position)
                (All-PointsInto-append rs (r ∷ []) x.entries h.pointing) (new_entry rs r))
      ];
    }

-- Offered the next record, an open index raises nothing, stays open, and covers one record more.
pub maybe_append-next :
    (base : ℤ) (rs : List Record) (r : Record) (x : Index)
    → Indexes base rs x
    → x.closed ≡ false
    → length (frames rs) ≤ max_u32
    → (y : Index) × (maybe_append x (base +ℤ pos (length rs)) (length (frames rs)) ≡ (ok tt, y))
      × Indexes base (rs ++ (r ∷ [])) y
      × (y.closed ≡ false)
maybe_append-next base rs r x h o fits =
    let offset = base +ℤ pos (length rs) in
    let position = length (frames rs) in
    (
      (maybe_append x offset position).1,
      ap (λ (a : Result (Unit {0})). (a, (maybe_append x offset position).1))
          (maybe_append-next_ok base rs x h o fits),
      maybe_append-Indexes base rs r x h,
      (maybe_append_kept x offset position).1 ∙ o,
    )
