-- ===== src/Broker/Admin/Described.antt =====
-- The description of a partition against what its log holds.
use pyka.Common.{
  suc, ◌≡◌, refl, sym, ap, ◌∙◌, List, [], ◌∷◌, ◌++◌, map, append_assoc, arith, length,
  length-append,
}
use pyka.Common.Int.{ℤ, pos, ◌+ℤ◌}
use pyka.Storage.Record.{Record}
use pyka.Storage.Segment.{Segment}
use pyka.Storage.Segment.Runs.{frames, length-frames-append}
use pyka.Storage.Segment.Recovery.{IsWellFormed}
use pyka.Storage.Log.{Log}
use pyka.Storage.Log.Chain.{AllFormed, Holds, records, concat, offset_add}
use pyka.Storage.Log.Reading.{begins_first}
use pyka.Broker.Admin.{segment_info, partition_info, total_size}

size-sealed :
    (o : ℤ) (ss : List Segment) (ps : List (List Record)) (s : Segment) (p : List Record)
    → AllFormed o ss ps
    → IsWellFormed s p
    → total_size (map segment_info (ss ++ (s ∷ []))) ≡ length (frames (concat ps ++ p))
unfolding segment_info
size-sealed o [] [] s p h w = omega (arith, w.end)
size-sealed o [] (q ∷ ps) s p h w = absurd h
size-sealed o (t ∷ ss) [] s p h w = absurd h
size-sealed o (t ∷ ss) (q ∷ ps) s p h w = omega (
  arith,
  h.1.end,
  ap (λ l. length (frames l)) (append_assoc q (concat ps) p),
  length-frames-append q (concat ps ++ p),
  size-sealed (o +ℤ pos (length q)) ss ps s p h.3 w,
)

length-infos :
    (o : ℤ) (ss : List Segment) (ps : List (List Record)) (s : Segment)
    → AllFormed o ss ps
    → length (map segment_info (ss ++ (s ∷ []))) ≡ suc (length ps)
length-infos o [] [] s h = refl
length-infos o [] (q ∷ ps) s h = absurd h
length-infos o (t ∷ ss) [] s h = absurd h
length-infos o (t ∷ ss) (q ∷ ps) s h = ap suc (length-infos (o +ℤ pos (length q)) ss ps s h.3)

-- What the endpoint says of a log: its first offset, one past its last, the bytes of all its records,
-- and one segment more than those that are sealed.
pub partition_info-Holds :
    (partition : ℤ) (l : Log) (base : ℤ) (parts : List (List Record)) (last : List Record)
    → Holds l base parts last
    → let info = partition_info partition l in
      (info.base_offset ≡ base)
      × (info.next_offset ≡ base +ℤ pos (length (records parts last)))
      × (info.size_bytes ≡ length (frames (records parts last)))
      × (length info.segments ≡ suc (length parts))
unfolding partition_info
partition_info-Holds partition l base parts last h = (
  begins_first base l.sealed parts l.active h.sealed h.tail_base,
  h.tail.next
      ∙ ap (λ o. o +ℤ pos (length last)) h.tail_base
      ∙ offset_add base (length (concat parts)) (length last)
      ∙ ap (λ n. base +ℤ pos n) (sym (length-append (concat parts) last)),
  size-sealed base l.sealed parts l.active last h.sealed h.tail,
  length-infos base l.sealed parts l.active h.sealed,
)
