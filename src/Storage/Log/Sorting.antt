-- ===== src/Storage/Log/Sorting.antt =====
-- The directory of a log, listed in any order: opening sorts the files by their base offsets.
use mathlib.Core.List.{Permᴰ}
use mathlib.Core.List.Permᴰ
use mathlib.Core.Path.{subst}
use pyka.Common.{
  ◌≡◌, ◌≢◌, ◌∙◌, refl, sym, ap, List, [], ◌∷◌, All, true, false, some, ok, ok-injective, err-ne-ok,
  arith, Bool-cases, inl, inr, Option-cases, Result-cases, ltb→ge, ◌⊎◌, if_true, if_false,
}
use pyka.Common.Int.{ℤ, ltb_ℤ, eq_of_parts}
use pyka.Storage.Log.{LogFile, Base, bases_of, insert, sort}

-- Different base offsets: the names of the files of a directory are different.
abbrev pub IsDistinct : List Base → Type 0
IsDistinct [] = Unit
IsDistinct (b ∷ bs) = All (λ c. b.0 ≢ c.0) bs × IsDistinct bs

All-perm : (P : Base → Type 0) {bs cs : List Base} → Permᴰ bs cs → All P cs → All P bs
All-perm P Permᴰ.nil h = tt
All-perm P (Permᴰ.cons e d) h = (rw e h.0, All-perm P d h.1)
All-perm P (Permᴰ.swap e e') h = (rw e h.1.0, (rw e' h.0, h.1.1))
All-perm P (Permᴰ.trans d d') h = All-perm P d (All-perm P d' h)

IsDistinct-perm : {bs cs : List Base} → Permᴰ bs cs → IsDistinct cs → IsDistinct bs
IsDistinct-perm Permᴰ.nil h = tt
IsDistinct-perm (Permᴰ.cons e d) h = (rw e (All-perm _ d h.0), IsDistinct-perm d h.1)
IsDistinct-perm (Permᴰ.swap {a = a} {b = b} {l = l} e e') h = (
  (
    λ same. h.0.0 (ap (λ x. x.0) (sym e') ∙ sym same ∙ ap (λ x. x.0) e),
    subst (λ x. All (λ c. x.0 ≢ c.0) l) (sym e) h.1.0,
  ),
  (subst (λ x. All (λ c. x.0 ≢ c.0) l) (sym e') h.0.1, h.1.1),
)
IsDistinct-perm (Permᴰ.trans d d') h = IsDistinct-perm d (IsDistinct-perm d' h)

less_trans : (a b c : ℤ) → ltb_ℤ a b ≡ true → ltb_ℤ c a ≡ true → ltb_ℤ c b ≡ true
less_trans a b c h k = ground arith

less_or_more :
    (a b : ℤ)
    → a ≢ b
    → ((ltb_ℤ a b ≡ true) × (ltb_ℤ b a ≡ false)) ⊎ ((ltb_ℤ b a ≡ true) × (ltb_ℤ a b ≡ false))
less_or_more a b h = elim (Bool-cases (ltb_ℤ a b)) [
  | inl less ↦ inl (less, ground arith)
  | inr other ↦ elim (Bool-cases (ltb_ℤ b a)) [
    | inl more ↦ inr (more, other)
    | inr same ↦ absurd (h (eq_of_parts a b (omega (arith, ltb→ge _ _ other, ltb→ge _ _ same))))
  ]
]

insert-before :
    (b c : Base) (cs : List Base) → ltb_ℤ c.0 b.0 ≡ false → insert b (c ∷ cs) ≡ b ∷ c ∷ cs
unfolding insert
insert-before b c cs h = if_false _ _ h

insert-after :
    (b c : Base) (cs : List Base) → ltb_ℤ c.0 b.0 ≡ true → insert b (c ∷ cs) ≡ c ∷ insert b cs
unfolding insert
insert-after b c cs h = if_true _ _ h

-- Two files with different offsets find the same places, whichever is sorted in first.
insert_less :
    (a b : Base) (cs : List Base)
    → ltb_ℤ a.0 b.0 ≡ true
    → ltb_ℤ b.0 a.0 ≡ false
    → insert a (insert b cs) ≡ insert b (insert a cs)
unfolding insert
insert_less a b [] h k = insert-before a b [] k ∙ sym (insert-after b a [] h)
insert_less a b (c ∷ cs) h k = elim (Bool-cases (ltb_ℤ c.0 a.0)) [
  | inl first ↦
      rw (insert-after b c cs (less_trans a.0 b.0 c.0 h first), insert-after a c cs first)
        (insert-after a c (insert b cs) first
          ∙ ap (λ l. c ∷ l) (insert_less a b cs h k)
          ∙ sym (insert-after b c (insert a cs) (less_trans a.0 b.0 c.0 h first)))
  | inr before ↦
      rw (insert-before a c cs before, insert-after b a (c ∷ cs) h)
        (elim (Bool-cases (ltb_ℤ c.0 b.0)) [
          | inl between ↦ rw (insert-after b c cs between) (insert-before a c (insert b cs) before)
          | inr last ↦ rw (insert-before b c cs last) (insert-before a b (c ∷ cs) k)
        ])
]

insert_swap :
    (a b : Base) (cs : List Base) → a.0 ≢ b.0 → insert a (insert b cs) ≡ insert b (insert a cs)
insert_swap a b cs h = elim (less_or_more a.0 b.0 h) [
  | inl less ↦ insert_less a b cs less.0 less.1
  | inr more ↦ sym (insert_less b a cs more.0 more.1)
]

pub sort-perm : {bs cs : List Base} → Permᴰ bs cs → IsDistinct cs → sort bs ≡ sort cs
unfolding sort
sort-perm Permᴰ.nil h = refl
sort-perm (Permᴰ.cons e d) h = rw e (ap (insert _) (sort-perm d h.1))
sort-perm (Permᴰ.swap {l = l} e e') h = rw (e, e') (sym (insert_swap _ _ (sort l) h.0.0))
sort-perm (Permᴰ.trans d d') h = sort-perm d (IsDistinct-perm d' h) ∙ sort-perm d' h

-- The base offset of a file, with the bytes of its two files.
abbrev based : LogFile → ℤ → Base
based f b = (b, f.content, f.index_content)

bases_of-cons :
    (f : LogFile) (fs : List LogFile) (b : ℤ) (bs : List Base)
    → f.stem ≡ some b
    → bases_of fs ≡ ok bs
    → bases_of (f ∷ fs) ≡ ok (based f b ∷ bs)
unfolding bases_of
bases_of-cons f fs b bs h k = rw (h, k) refl

bases_of-inv :
    (f : LogFile) (fs : List LogFile) (cs : List Base)
    → bases_of (f ∷ fs) ≡ ok cs
    → (b : ℤ) × (bs : List Base) × (f.stem ≡ some b) × (bases_of fs ≡ ok bs) × (based f b ∷ bs ≡ cs)
unfolding bases_of
bases_of-inv f fs cs h = elim (Option-cases f.stem) [
  | inl missing ↦ absurd (err-ne-ok (rw missing at h))
  | inr (b, numbered) ↦ elim (Result-cases (bases_of fs)) [
    | inr (e, failed) ↦ absurd (err-ne-ok (rw (numbered, failed) at h))
    | inl (bs, rest) ↦ (b, bs, numbered, rest, ok-injective (rw (numbered, rest) at h))
  ]
]

-- The base offsets of the same files, in another order.
pub bases_of-perm :
    {fs gs : List LogFile}
    → Permᴰ fs gs
    → (cs : List Base) → bases_of gs ≡ ok cs
    → (bs : List Base) × (bases_of fs ≡ ok bs) × Permᴰ bs cs
bases_of-perm Permᴰ.nil cs h = (cs, h, Permᴰ.refl cs)
bases_of-perm (Permᴰ.cons {a = f} {b = g} {l₁ = fs} {l₂ = gs} e d) cs h =
    let (b, ds, numbered, rest, same) = bases_of-inv g gs cs h in
    let (bs, found, moved) = bases_of-perm d ds rest in
    (
      based f b ∷ bs,
      bases_of-cons f fs b bs (ap (λ f. f.stem) e ∙ numbered) found,
      subst (Permᴰ (based f b ∷ bs)) same (Permᴰ.cons (ap (λ f. based f b) e) moved),
    )
bases_of-perm (Permᴰ.swap {a = f} {b = g} {a' = g'} {b' = f'} {l = fs} e e') cs h =
    let (b, ds, numbered, rest, same) = bases_of-inv g' (f' ∷ fs) cs h in
    let (b', ds', numbered', rest', same') = bases_of-inv f' fs ds rest in
    (
      based f b' ∷ based g b ∷ ds',
      bases_of-cons f (g ∷ fs) b' (based g b ∷ ds') (ap (λ f. f.stem) e ∙ numbered')
          (bases_of-cons g fs b ds' (ap (λ f. f.stem) e' ∙ numbered) rest'),
      subst (Permᴰ (based f b' ∷ based g b ∷ ds')) (ap (λ l. based g' b ∷ l) same' ∙ same)
          (Permᴰ.swap (ap (λ f. based f b') e) (ap (λ f. based f b) e')),
    )
bases_of-perm (Permᴰ.trans d d') cs h =
    let (ds, found, moved) = bases_of-perm d' cs h in
    let (bs, found', moved') = bases_of-perm d ds found in (bs, found', Permᴰ.trans moved' moved)
