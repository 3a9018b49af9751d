-- ===== src/Storage/Log/Files.antt =====
-- The files of a log after a power cut: what is left of them, and the order in which opening takes
-- them.
use mathlib.Core.List.{Permᴰ}
use mathlib.Core.Path.{ap₂, subst}
use pyka.Common.{
  ℕ, suc, ◌+◌, ◌-◌, ◌≤◌, ◌<◌, ◌≢◌, All, ◌≡◌, ◌∙◌, refl, sym, ap, List, [], ◌∷◌, ◌++◌, map, false,
  some, ok, arith, length, length-append, take, ltb-false, if_false,
}
use pyka.Common.Int.{ℤ, pos, pos_part, neg_part, ◌+ℤ◌, ltb_ℤ, +ℤ_parts, +ℤ_zero, int_laws}
use pyka.Python.Struct.{Bytes}
use pyka.Storage.Record.{Record}
use pyka.Storage.Segment.{Segment}
use pyka.Storage.Log.{LogFile, Base, bases_of, insert, sort, or_first}
use pyka.Storage.Segment.Recovery.{IsWellFormed}
use pyka.Storage.Log.Sorting.{IsDistinct, sort-perm, bases_of-perm}
use pyka.Storage.Log.Chain.{IsSealed, AllFormed, concat, offset_add}

-- Where the rest of a chain ends, counted from its first part's end.
pub tail_after :
    (o : ℤ) (p ps : List Record) (b : ℤ)
    → b ≡ o +ℤ pos (length (p ++ ps))
    → b ≡ o +ℤ pos (length p) +ℤ pos (length ps)
tail_after o p ps b h =
    h ∙ ap (λ n. o +ℤ pos n) (length-append p ps) ∙ sym (offset_add o (length p) (length ps))

-- Of a file, the bytes that fsync has made durable survive a power cut. `left` is how many bytes are
-- left of the file of a segment, by its base offset.
abbrev pub Survives : (ℤ → ℕ) → Segment → Type 0
Survives left s = s.synced ≤ left s.base_offset

-- The bytes that are left of the file of a segment, and what its index file holds, both by the base
-- offset of the segment.
module _ (left : ℤ → ℕ) (index_of : ℤ → Bytes) where
  abbrev pub content_left : Segment → Bytes
  content_left s = take (left s.base_offset) s.content

  abbrev pub file_of : Segment → LogFile
  file_of s = record {
    stem = some s.base_offset;
    content = content_left s;
    index_content = index_of s.base_offset;
  }

  -- The files of a log after a power cut, in the order of the segments.
  abbrev pub files_left : List Segment → Segment → List LogFile
  files_left ss t = map file_of ss ++ (file_of t ∷ [])

  abbrev pub base_of : Segment → Base
  base_of s = (s.base_offset, content_left s, index_of s.base_offset)

  abbrev pub bases_left : List Segment → Segment → List Base
  bases_left ss t = map base_of ss ++ (base_of t ∷ [])

  pub bases_of-files_left :
      (ss : List Segment) (t : Segment) → bases_of (files_left ss t) ≡ ok (bases_left ss t)
  unfolding bases_of
  bases_of-files_left [] t = refl
  bases_of-files_left (s ∷ ss) t = rw (bases_of-files_left ss t)

  -- The first of the files of a chain.
  not_before : (o : ℤ) (n : ℕ) → ltb_ℤ (o +ℤ pos n) o ≡ false
  not_before o n = ltb-false _ _ (omega (arith, +ℤ_parts o (pos n)))

  insert-first :
      (b c : Base) (cs : List Base) → ltb_ℤ c.0 b.0 ≡ false → insert b (c ∷ cs) ≡ b ∷ c ∷ cs
  unfolding insert
  insert-first b c cs h = if_false _ _ h

  insert-chain :
      (o : ℤ) (b : Base) (k : ℕ) (ss : List Segment) (ps : List (List Record)) (t : Segment)
      → b.0 ≡ o
      → AllFormed (o +ℤ pos k) ss ps
      → t.base_offset ≡ o +ℤ pos k +ℤ pos (length (concat ps))
      → insert b (bases_left ss t) ≡ b ∷ bases_left ss t
  insert-chain o b k [] [] t same h last =
      insert-first b _ [] (ap₂ ltb_ℤ (last ∙ offset_add o k 0) same ∙ not_before o (k + 0))
  insert-chain o b k [] (p ∷ ps) t same h last = absurd h
  insert-chain o b k (s ∷ ss) [] t same h last = absurd h
  insert-chain o b k (s ∷ ss) (p ∷ ps) t same h last =
      insert-first b _ _ (ap₂ ltb_ℤ h.0 same ∙ not_before o k)

  pub sort-chain :
      (o : ℤ) (ss : List Segment) (ps : List (List Record)) (t : Segment)
      → AllFormed o ss ps
      → t.base_offset ≡ o +ℤ pos (length (concat ps))
      → sort (bases_left ss t) ≡ bases_left ss t
  unfolding sort
  sort-chain o [] [] t h last = refl
  sort-chain o [] (p ∷ ps) t h last = absurd h
  sort-chain o (s ∷ ss) [] t h last = absurd h
  sort-chain o (s ∷ ss) (p ∷ ps) t h last =
      let last' = tail_after o p (concat ps) t.base_offset last in
      ap (insert (base_of s)) (sort-chain (o +ℤ pos (length p)) ss ps t h.3 last')
      ∙ insert-chain o (base_of s) (length p) ss ps t h.0 h.3 last'

  pub or_first-left :
      (ss : List Segment) (t : Segment) → or_first (bases_left ss t) ≡ bases_left ss t
  unfolding or_first
  or_first-left [] t = refl
  or_first-left (s ∷ ss) t = refl

  -- The files have different names: a sealed segment has a record, and the next one begins after it.
  not_same : (o : ℤ) (k : ℕ) (b : ℤ) → b ≡ o +ℤ pos (suc k) → o ≢ b
  not_same o k b later same =
      let e = same ∙ later in omega (arith, +ℤ_parts o (pos (suc k)), ap pos_part e, ap neg_part e)

  all_later :
      (o : ℤ) (k : ℕ) (ss : List Segment) (ps : List (List Record)) (t : Segment)
      → AllFormed (o +ℤ pos (suc k)) ss ps
      → t.base_offset ≡ o +ℤ pos (suc k) +ℤ pos (length (concat ps))
      → All (λ c. o ≢ c.0) (bases_left ss t)
  all_later o k [] [] t h last =
      (not_same o k t.base_offset (last ∙ +ℤ_zero (o +ℤ pos (suc k))), tt)
  all_later o k [] (p ∷ ps) t h last = absurd h
  all_later o k (s ∷ ss) [] t h last = absurd h
  all_later o k (s ∷ ss) (p ∷ ps) t h last =
      let last' = tail_after (o +ℤ pos (suc k)) p (concat ps) t.base_offset last in
      let there : o +ℤ pos (suc k) +ℤ pos (length p) ≡ o +ℤ pos (suc (k + length p)) =
        omega int_laws in
      (
        not_same o k s.base_offset h.0,
        all_later o (k + length p) ss ps t (subst (λ b. AllFormed b ss ps) there h.3)
            (last' ∙ ap (λ b. b +ℤ pos (length (concat ps))) there),
      )

  some_records : (s : Segment) (p : List Record) → IsWellFormed s p → IsSealed s → 0 < length p
  some_records s [] w h = absurd (omega (arith, w.end, h.full))
  some_records s (r ∷ p) w h = omega arith

  pub bases_left-IsDistinct :
      (o : ℤ) (ss : List Segment) (ps : List (List Record)) (t : Segment)
      → AllFormed o ss ps
      → t.base_offset ≡ o +ℤ pos (length (concat ps))
      → IsDistinct (bases_left ss t)
  bases_left-IsDistinct o [] [] t h last = (tt, tt)
  bases_left-IsDistinct o [] (p ∷ ps) t h last = absurd h
  bases_left-IsDistinct o (s ∷ ss) [] t h last = absurd h
  bases_left-IsDistinct o (s ∷ ss) (p ∷ ps) t h last =
      let last' = tail_after o p (concat ps) t.base_offset last in
      let some : length p ≡ suc (length p - 1) = omega (arith, some_records s p h.1 h.2) in
      (
        subst (λ b. All (λ c. b ≢ c.0) (bases_left ss t)) (sym h.0)
            (all_later o (length p - 1) ss ps t (subst (λ n. AllFormed (o +ℤ pos n) ss ps) some h.3)
              (last' ∙ ap (λ n. o +ℤ pos n +ℤ pos (length (concat ps))) some)),
        bases_left-IsDistinct (o +ℤ pos (length p)) ss ps t h.3 last',
      )

  -- However the directory is listed, opening takes the files in the order of the segments.
  pub bases_of-listed :
      (o : ℤ) (ss : List Segment) (ps : List (List Record)) (t : Segment) (listed : List LogFile)
      → AllFormed o ss ps
      → t.base_offset ≡ o +ℤ pos (length (concat ps))
      → Permᴰ listed (files_left ss t)
      → (bs : List Base) × (bases_of listed ≡ ok bs) × (or_first (sort bs) ≡ bases_left ss t)
  bases_of-listed o ss ps t listed h last same =
      let (bs, found, moved) = bases_of-perm same (bases_left ss t) (bases_of-files_left ss t) in
      (
        bs,
        found,
        ap or_first (
              sort-perm moved (bases_left-IsDistinct o ss ps t h last)
              ∙ sort-chain o ss ps t h last)
            ∙ or_first-left ss t,
      )
