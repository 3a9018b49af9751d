-- ===== src/Storage/Index/Entries.antt =====
-- What the entries of an index look like, and that every operation keeps it so.
use pyka.Common.{
  ℕ, ◌+◌, ◌-◌, ◌*◌, ◌%◌, ◌≤◌, ◌<◌, ◌≡◌, ◌⊎◌, ◌∙◌, refl, sym, inl, inr, List, [], ◌∷◌, ◌++◌,
  append_assoc, append-nil, true, false, some, Result, arith, length, length-append, take,
  take-append, get_last?, get_last?-in, All, if_elim,
}
use mathlib.Core.Path.{subst}
use mathlib.Core.Option.{some-injective}
use pyka.Common.Int.{ℤ, pos_part, ◌-ℤ◌}
use pyka.Python.Struct.{Bytes, to_bytes}
use pyka.Python.Struct.Laws.{from_bytes-to_bytes, length-to_bytes}
use pyka.Storage.Index.{
  Index, unpack_entries, pack_entry, open_index, last_position, follows_last, maybe_append, clear,
  sync, close, max_u32,
}

abbrev pub Entries : Type 0
Entries = List (ℕ × ℕ)

-- `d` was added after `e`.
abbrev pub Follows : ℕ → ℕ × ℕ → ℕ × ℕ → Type 0
Follows interval e d = (e.0 < d.0) × (e.1 + interval ≤ d.1)

abbrev pub IsIncreasing : ℕ → Entries → Type 0
IsIncreasing interval [] = Unit
IsIncreasing interval (e ∷ es) = All (Follows interval e) es × IsIncreasing interval es

abbrev pub IsU32Entry : ℕ × ℕ → Type 0
IsU32Entry e = (e.0 ≤ max_u32) × (e.1 ≤ max_u32)

abbrev pub pack_entries : Entries → Bytes
pack_entries [] = []
pack_entries (e ∷ es) = pack_entry e.0 e.1 ++ pack_entries es

-- Entries go up in both fields, `interval` bytes apart; each fits its two u32; and the file, with
-- what is still to be flushed, is their encoding.
pub record IsValid (x : Index) : Type 0 where
  pub increasing : IsIncreasing x.interval_bytes x.entries
  pub bounded : All IsU32Entry x.entries
  pub stored : x.disk ++ x.pending ≡ pack_entries x.entries

All-append_one {ℓ κ} :
    {A : Type ℓ} (P : A → Type κ) (es : List A) (d : A) → All P es → P d → All P (es ++ d ∷ [])
All-append_one P [] d h p = (p, tt)
All-append_one P (e ∷ es) d h p = (h.0, All-append_one P es d h.1 p)

Follows-last :
    (i : ℕ) (e : ℕ × ℕ) (es : Entries) (l : ℕ × ℕ)
    → All (Follows i e) es
    → get_last? es ≡ some l
    → Follows i e l
Follows-last i e [] l h q = cc
Follows-last i e (a ∷ []) l h q = subst (Follows i e) (some-injective a l q) h.0
Follows-last i e (a ∷ b ∷ es) l h q = Follows-last i e (b ∷ es) l h.1 q

-- A new entry needs to follow the last one only.
IsIncreasing-append_one :
    (i : ℕ) (es : Entries) (d : ℕ × ℕ)
    → IsIncreasing i es
    → ((l : ℕ × ℕ) → get_last? es ≡ some l → Follows i l d)
    → IsIncreasing i (es ++ d ∷ [])
IsIncreasing-append_one i [] d h f = (tt, tt)
IsIncreasing-append_one i (e ∷ []) d h f = ((f e refl, tt), (tt, tt))
IsIncreasing-append_one i (e ∷ e' ∷ es) d h f =
    let (l, q) = get_last?-in e' es in
    let near : Follows i e l = Follows-last i e (e' ∷ es) l h.0 q in
    let far : Follows i l d = f l q in
    (
      All-append_one (Follows i e) (e' ∷ es) d h.0 (omega arith),
      IsIncreasing-append_one i (e' ∷ es) d h.1 f,
    )

pack_entries-append_one :
    (es : Entries) (d : ℕ × ℕ) → pack_entries (es ++ d ∷ []) ≡ pack_entries es ++ pack_entry d.0 d.1
pack_entries-append_one [] d = append-nil (pack_entry d.0 d.1)
pack_entries-append_one (e ∷ es) d =
    rw (pack_entries-append_one es d)
      (sym (append_assoc (pack_entry e.0 e.1) (pack_entries es) (pack_entry d.0 d.1)))

-- What `maybe_append` adds, where it adds an entry.
abbrev added : Index → ℕ → ℕ → Index
added x relative position = record x {
  pending = x.pending ++ pack_entry relative position;
  entries = x.entries ++ (relative, position) ∷ [];
}

record Adds (x : Index) (relative position : ℕ) : Type 0 where
  far : last_position x.entries + x.interval_bytes ≤ position
  relative_fits : relative ≤ max_u32
  position_fits : position ≤ max_u32
  follows : follows_last x.entries relative ≡ true

maybe_append-cases :
    (x : Index) (offset : ℤ) (position : ℕ)
    → ((maybe_append x offset position).1 ≡ x)
      ⊎ (((maybe_append x offset position).1
            ≡ added x (pos_part (offset -ℤ x.base_offset)) position)
          × Adds x (pos_part (offset -ℤ x.base_offset)) position)
unfolding maybe_append
maybe_append-cases x offset position = ground arith

added-IsValid : (x : Index) {r p : ℕ} → IsValid x → Adds x r p → IsValid (added x r p)
added-IsValid x {r} {p} v a = record {
  increasing =
      IsIncreasing-append_one x.interval_bytes x.entries (r, p) v.increasing
        (λ l q. ground (arith, a.far, a.follows));
  bounded = All-append_one IsU32Entry x.entries (r, p) v.bounded (a.relative_fits, a.position_fits);
  stored = rw (
    pack_entries-append_one x.entries (r, p),
    ← append_assoc x.disk x.pending (pack_entry r p),
    v.stored,
  );
}

-- Whatever offset and position it is given, and whether it raises or not, `maybe_append` leaves a
-- valid index valid.
pub maybe_append-IsValid :
    (x : Index) (offset : ℤ) (position : ℕ) → IsValid x → IsValid (maybe_append x offset position).1
maybe_append-IsValid x offset position v = elim (maybe_append-cases x offset position) [
  | inl same ↦ subst IsValid (sym same) v
  | inr (extended, a) ↦ subst IsValid (sym extended) (added-IsValid x v a)
]

pub clear-IsValid : (x : Index) → IsValid (clear x)
unfolding clear
clear-IsValid x = record { increasing = tt; bounded = tt; stored = refl }

pub sync-IsValid : (x : Index) → IsValid x → IsValid (sync x).1
unfolding sync
sync-IsValid x v =
    if_elim (λ (s : Result (Unit {0}) × Index). IsValid s.1) x.closed v
      (record {
        increasing = v.increasing;
        bounded = v.bounded;
        stored = append-nil (x.disk ++ x.pending) ∙ v.stored;
      })

pub close-IsValid : (x : Index) → IsValid x → IsValid (close x)
unfolding close
close-IsValid x v =
    let s : IsValid (sync x).1 = sync-IsValid x v in
    if_elim IsValid x.closed v
      (record { increasing = s.increasing; bounded = s.bounded; stored = s.stored })

unpack-pack : (es : Entries) → All IsU32Entry es → unpack_entries (pack_entries es) ≡ es
unfolding unpack_entries to_bytes
unpack-pack [] h = refl
unpack-pack ((r, p) ∷ es) h = cc (
  from_bytes-to_bytes 4 r (omega (arith, h.0)),
  from_bytes-to_bytes 4 p (omega (arith, h.0)),
  unpack-pack es h.1,
)

length-pack_entries : (es : Entries) → length (pack_entries es) ≡ 8 * length es
length-pack_entries [] = omega arith
length-pack_entries (e ∷ es) = omega (
  arith,
  length-append (pack_entry e.0 e.1) (pack_entries es),
  length-append (to_bytes 4 e.0) (to_bytes 4 e.1),
  length-to_bytes 4 e.0,
  length-to_bytes 4 e.1,
  length-pack_entries es,
)

whole_entries :
    (es : Entries) (torn : Bytes)
    → length torn < 8
    → (let content = pack_entries es ++ torn in take (length content - length content % 8) content)
      ≡ pack_entries es
whole_entries es torn h =
    take-append _ (pack_entries es) torn
      (omega (arith, length-append (pack_entries es) torn, length-pack_entries es))

disk-sync : (x : Index) → x.closed ≡ false → (sync x).1.disk ≡ x.disk ++ x.pending
unfolding sync
disk-sync x o = rw o

-- An index that was flushed is read back with the same entries, also where a torn entry of fewer
-- than eight bytes follows them; the torn bytes are cut off the file.
pub open_index-sync :
    (x : Index) (torn : Bytes) (base : ℤ) (interval : ℕ)
    → IsValid x
    → x.closed ≡ false
    → length torn < 8
    → let y = open_index base interval ((sync x).1.disk ++ torn) in
      (y.entries ≡ x.entries) × (y.disk ≡ (sync x).1.disk)
unfolding open_index
open_index-sync x torn base interval v o h =
    rw (disk-sync x o, v.stored, whole_entries x.entries torn h)
      (unpack-pack x.entries v.bounded, refl)
