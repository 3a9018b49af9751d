-- ===== src/Storage/Log/Reopening.antt =====
-- A log whose process has stopped, opened again over what its files hold.
use mathlib.Core.List.{Permᴰ}
use mathlib.Core.Path.{subst}
use pyka.Common.{
  ℕ, All, ◌+◌, ◌≤◌, ◌≡◌, ◌∙◌, sym, ap, List, [], ◌∷◌, ◌++◌, append-nil, map, false, Result, ok,
  arith, length, ◌>>=◌, take_all,
}
use pyka.Common.Int.{ℤ, pos, ◌+ℤ◌}
use pyka.Python.Struct.{Bytes}
use pyka.Storage.Record.{Record}
use pyka.Storage.Index.{max_u32}
use pyka.Storage.Segment.{Segment, open_segment}
use pyka.Storage.Segment
use pyka.Storage.Segment.Runs.{frames}
use pyka.Storage.Segment.Recovery.{IsWellFormed, open_segment-run}
use pyka.Storage.Segment.Crash.{IsTorn-nil, kept, kept-append, open_segment_crash}
use pyka.Storage.Segment.Append.{sync-IsWellFormed}
use pyka.Storage.Log.{
  Log, LogFile, Base, sort, or_first, open_all, check_chain, seal_opened, open_log, sync,
}
use pyka.Storage.Log.Files.{Survives, content_left, files_left, bases_left, bases_of-listed}
use pyka.Storage.Log.Chain.{Holds, IsSealed, AllFormed}
use pyka.Storage.Log.Opened.{
  IsFresh, AllOpened, check_chain-opened, AllFormed-close, seal_opened-lem,
}

-- A segment whose positions the index can hold.
abbrev pub IsIndexable : Segment → Type 0
IsIndexable s = s.position ≤ max_u32 + 1

module _ (left : ℤ → ℕ) (index_of : ℤ → Bytes) (t : Segment) (last : List Record)
    (formed : IsWellFormed t last) (fits : IsIndexable t) where
  -- The file of a sealed segment, which was synced when it was closed, is whole.
  open_whole :
      (s : Segment) (p : List Record)
      → IsWellFormed s p
      → IsSealed s
      → IsIndexable s
      → Survives left s
      → (s' : Segment) × (open_segment s.base_offset t.max_bytes
            (content_left left index_of s)
            (index_of s.base_offset)
          ≡ ok s')
        × (s'.base_offset ≡ s.base_offset)
        × IsWellFormed s' p
        × IsFresh s'
  open_whole s p w shut small survives =
      let (s', opened, w', still_open, same_base, _) =
        open_segment-run s.base_offset t.max_bytes p [] (index_of s.base_offset) formed.limit.0
          formed.limit.1 w.run IsTorn-nil (omega (arith, w.end, small)) in
      (
        s',
        ap (λ c. open_segment s.base_offset t.max_bytes c (index_of s.base_offset))
              (take_all (left s.base_offset) s.content (omega (arith, shut.durable, survives))
                ∙ w.stored
                ∙ sym (append-nil (frames p)))
            ∙ opened,
        same_base,
        w',
        (still_open, omega (arith, w.end, w'.end, shut.full)),
      )

  open_all-left :
      (o : ℤ) (ss : List Segment) (ps : List (List Record))
      → AllFormed o ss ps
      → All IsIndexable ss
      → All (Survives left) ss
      → (ts : List Segment) × (t' : Segment) × (open_all t.max_bytes (bases_left left index_of ss t)
          ≡ ok (ts ++ (t' ∷ [])))
        × AllOpened o ts ps
        × IsWellFormed t' (kept (left t.base_offset) last)
        × (t'.closed ≡ false)
        × (t'.base_offset ≡ t.base_offset)
        × (t'.max_bytes ≡ t.max_bytes)
  unfolding open_all
  open_all-left o [] [] h small survive =
      let (t', opened, w, still_open, same_base, same_limit) =
        open_segment_crash t last (left t.base_offset) (index_of t.base_offset) formed fits in
      ([], t', rw opened, tt, w, still_open, same_base, same_limit)
  open_all-left o [] (p ∷ ps) h small survive = absurd h
  open_all-left o (s ∷ ss) [] h small survive = absurd h
  open_all-left o (s ∷ ss) (p ∷ ps) h small survive =
      let (s', opened, same_base, w, fresh) = open_whole s p h.1 h.2 small.0 survive.0 in
      let (ts, t', rest, all_opened, tail, still_open, at_base, limit) =
        open_all-left (o +ℤ pos (length p)) ss ps h.3 small.1 survive.1 in
      (
        s' ∷ ts,
        t',
        rw (opened, rest),
        (same_base ∙ h.0, w, fresh, all_opened),
        tail,
        still_open,
        at_base,
        limit,
      )

-- After a power cut the directory, which still has the files of all the segments, is opened
-- again as a log, in whatever order it is listed: the log holds the records of every sealed
-- segment, segment by segment, and those of the tail that lie whole in the bytes that are left
-- of its file, however many these are. Of the files of the sealed segments the bytes that fsync
-- has made durable are left; the index files hold whatever they do. The positions of the
-- segments are ones that an index can hold.
pub open_log_crash :
    (l : Log) (base : ℤ) (parts : List (List Record)) (last : List Record) (left : ℤ → ℕ)
    (index_of : ℤ → Bytes) (listed : List LogFile)
    → Holds l base parts last
    → All IsIndexable l.sealed
    → IsIndexable l.active
    → All (Survives left) l.sealed
    → Permᴰ listed (files_left left index_of l.sealed l.active)
    → (l' : Log) × (open_log l.max_segment_bytes listed ≡ ok l')
      × Holds l' base parts (kept (left l.active.base_offset) last)
unfolding open_log
open_log_crash l base parts last left index_of listed h small fits survive same =
    let (ts, t', opened, all_opened, w, still_open, same_base, same_limit) =
      open_all-left left index_of l.active last h.tail fits base l.sealed parts h.sealed small
        survive in
    let (bs, found, sorted) =
      bases_of-listed left index_of base l.sealed parts l.active listed h.sealed h.tail_base same in
    let m = l.active.max_bytes in
    let finish : List Segment → Result Log =
      λ opened. check_chain opened >>= λ _. seal_opened m opened in
    let read : List Base → Result Log = λ bases. open_all m (or_first (sort bases)) >>= finish in
    let l' : Log = record {
      sealed = map Segment.close ts;
      active = t';
      max_segment_bytes = l.active.max_bytes;
    } in
    (
      l',
      ap (λ m. open_log m listed) (sym h.tail_limit)
          ∙ ap (λ bases. bases >>= read) found
          ∙ ap (λ bases. open_all m bases >>= finish) sorted
          ∙ ap (λ opened. opened >>= finish) opened
          ∙ ap (λ (checked : Result (Unit {0})). checked >>= λ _. seal_opened m (ts ++ (t' ∷ [])))
              (check_chain-opened base ts parts t' all_opened (same_base ∙ h.tail_base))
          ∙ seal_opened-lem m ts t',
      record {
        sealed = AllFormed-close base ts parts all_opened;
        tail = w;
        tail_base = same_base ∙ h.tail_base;
        tail_open = still_open;
        tail_limit = same_limit;
      },
    )

kept_all : (n : ℕ) (rs : List Record) → length (frames rs) ≤ n → kept n rs ≡ rs
kept_all n rs h = ap (kept n) (sym (append-nil rs)) ∙ kept-append n rs [] h ∙ append-nil rs

sync_numbers :
    (s : Segment)
    → ((Segment.sync s).1.base_offset ≡ s.base_offset)
      × ((Segment.sync s).1.max_bytes ≡ s.max_bytes)
      × ((Segment.sync s).1.position ≡ s.position)
unfolding Segment.sync
sync_numbers s = ground arith

pub sync-Holds :
    (l : Log) (base : ℤ) (parts : List (List Record)) (last : List Record)
    → Holds l base parts last
    → (sync l ≡ (ok tt, (sync l).1))
      × Holds (sync l).1 base parts last
      × (length (frames last) ≤ (sync l).1.active.synced)
unfolding sync
sync-Holds l base parts last h =
    let (s, synced, w, still_open, all) = sync-IsWellFormed l.active last h.tail h.tail_open in
    let (same_base, same_limit, _) = sync_numbers l.active in
    let is_s : (Segment.sync l.active).1 ≡ s = ap (λ x. x.1) synced in
    (
      ap (λ r. (r, record l { active = (Segment.sync l.active).1 })) (ap (λ x. x.0) synced),
      record {
        sealed = h.sealed;
        tail = subst (λ t. IsWellFormed t last) (sym is_s) w;
        tail_base = same_base ∙ h.tail_base;
        tail_open = ap (λ t. t.closed) is_s ∙ still_open;
        tail_limit = same_limit ∙ h.tail_limit;
      },
      subst (λ t. length (frames last) ≤ t.synced) (sym is_s) all,
    )

-- What `sync` has made durable survives: it succeeds and keeps what the log holds, and when the
-- power then fails, the directory, which still has the files of all the segments, is opened
-- again as a log with all the records, in whatever order it is listed. Of each file, the tail's
-- and the sealed ones', the bytes that fsync has made durable are left, with any number of
-- others; the index files hold whatever they do. The positions of the segments are ones that an
-- index can hold.
pub sync-open_log :
    (l : Log) (base : ℤ) (parts : List (List Record)) (last : List Record) (left : ℤ → ℕ)
    (index_of : ℤ → Bytes) (listed : List LogFile)
    → Holds l base parts last
    → All IsIndexable l.sealed
    → IsIndexable l.active
    → All (Survives left) (sync l).1.sealed
    → Survives left (sync l).1.active
    → Permᴰ listed (files_left left index_of (sync l).1.sealed (sync l).1.active)
    → (l' : Log) × (sync l ≡ (ok tt, l'))
      × Holds l' base parts last
      × (l'' : Log) × (open_log l'.max_segment_bytes listed ≡ ok l'')
      × Holds l'' base parts last
unfolding sync
sync-open_log l base parts last left index_of listed h small fits survive tail_survives same =
    let l' = (sync l).1 in
    let (synced, h', all) = sync-Holds l base parts last h in
    let (l'', opened, h'') =
      open_log_crash l' base parts last left index_of listed h' small
        (omega (arith, (sync_numbers l.active).2, fits)) survive same in
    (
      l',
      synced,
      h',
      l'',
      opened,
      subst (λ rs. Holds l'' base parts rs)
          (kept_all (left l'.active.base_offset) last (omega (arith, all, tail_survives))) h'',
    )
