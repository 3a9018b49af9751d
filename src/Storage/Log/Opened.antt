-- ===== src/Storage/Log/Opened.antt =====
-- Segments that were opened one after the other, before and after all but the last are sealed.
use mathlib.Core.Path.{ap₂}
use pyka.Common.{
  ℕ, ◌<◌, arith, false, ◌≡◌, ◌∙◌, refl, sym, ap, List, [], ◌∷◌, ◌++◌, append-nil, append_assoc, map,
  true, ok, length,
}
use pyka.Common.Int.{ℤ, pos, ◌+ℤ◌, eq_ℤ, eq_ℤ_refl}
use pyka.Storage.Record.{Record}
use pyka.Storage.Segment.{Segment, open_segment}
use pyka.Storage.Segment
use pyka.Storage.Segment.Recovery.{IsWellFormed}
use pyka.Storage.Segment.Append.{close-IsWellFormed, close-durable}
use pyka.Storage.Log.{check_chain, seal, seal_opened}
use pyka.Storage.Log.Files.{tail_after}
use pyka.Storage.Log.Chain.{AllFormed, concat}

-- A segment that was opened from a file that is not empty, as yet not sealed.
abbrev pub IsFresh : Segment → Type 0
IsFresh s = (s.closed ≡ false) × (0 < s.position)

-- Segments that were opened one after the other.
abbrev pub AllOpened : ℤ → List Segment → List (List Record) → Type 0
AllOpened o [] [] = Unit
AllOpened o [] (p ∷ ps) = ⊥
AllOpened o (s ∷ ss) [] = ⊥
AllOpened o (s ∷ ss) (p ∷ ps) =
    (s.base_offset ≡ o) × IsWellFormed s p × IsFresh s × AllOpened (o +ℤ pos (length p)) ss ps

-- A segment that ends where the next begins.
next_base :
    (o : ℤ) (s : Segment) (p : List Record) (b : ℤ)
    → s.base_offset ≡ o
    → IsWellFormed s p
    → b ≡ o +ℤ pos (length p)
    → eq_ℤ b s.next_offset ≡ true
next_base o s p b same w h =
    ap₂ eq_ℤ (h ∙ ap (λ a. a +ℤ pos (length p)) (sym same) ∙ sym w.next) refl
    ∙ eq_ℤ_refl s.next_offset

pub check_chain-opened :
    (o : ℤ) (ss : List Segment) (ps : List (List Record)) (t : Segment)
    → AllOpened o ss ps
    → t.base_offset ≡ o +ℤ pos (length (concat ps))
    → check_chain (ss ++ (t ∷ [])) ≡ ok tt
unfolding check_chain
check_chain-opened o [] [] t h last = refl
check_chain-opened o [] (p ∷ ps) t h last = absurd h
check_chain-opened o (s ∷ ss) [] t h last = absurd h
check_chain-opened o (s ∷ []) (p ∷ []) t h last =
    rw (next_base o s p t.base_offset h.0 h.1 (last ∙ ap (λ l. o +ℤ pos (length l)) (append-nil p)))
check_chain-opened o (s ∷ []) (p ∷ q ∷ ps) t h last = absurd h.3
check_chain-opened o (s ∷ s' ∷ ss) (p ∷ []) t h last = absurd h.3
check_chain-opened o (s ∷ s' ∷ ss) (p ∷ q ∷ ps) t h last =
    rw (next_base o s p s'.base_offset h.0 h.1 h.3.0) (
      check_chain-opened (o +ℤ pos (length p)) (s' ∷ ss) (q ∷ ps) t h.3
        (tail_after o p (concat (q ∷ ps)) t.base_offset last))

pub AllFormed-close :
    (o : ℤ) (ss : List Segment) (ps : List (List Record))
    → AllOpened o ss ps
    → AllFormed o (map Segment.close ss) ps
AllFormed-close o [] [] h = tt
AllFormed-close o [] (p ∷ ps) h = absurd h
AllFormed-close o (s ∷ ss) [] h = absurd h
AllFormed-close o (s ∷ ss) (p ∷ ps) h =
    let (w, shut, same_base, _) = close-IsWellFormed s p h.1 in
    let (durable, same_position) = close-durable s h.2.0 in
    (
      same_base ∙ h.0,
      w,
      record { shut = shut; durable = durable; full = omega (arith, same_position, h.2.1) },
      AllFormed-close (o +ℤ pos (length p)) ss ps h.3,
    )

-- All but the last are sealed.
seal-opened :
    (max_bytes : ℕ) (done : List Segment) (s : Segment) (ss : List Segment) (t : Segment)
    → seal max_bytes done s (ss ++ (t ∷ [])) ≡ record {
      sealed = done ++ map Segment.close (s ∷ ss);
      active = t;
      max_segment_bytes = max_bytes;
    }
unfolding seal
seal-opened max_bytes done s [] t = refl
seal-opened max_bytes done s (s' ∷ ss) t =
    seal-opened max_bytes (done ++ (Segment.close s ∷ [])) s' ss t
    ∙ ap (λ l. record { sealed = l; active = t; max_segment_bytes = max_bytes })
        (append_assoc done (Segment.close s ∷ []) (map Segment.close (s' ∷ ss)))

pub seal_opened-lem :
    (max_bytes : ℕ) (ss : List Segment) (t : Segment)
    → seal_opened max_bytes (ss ++ (t ∷ []))
      ≡ ok (record { sealed = map Segment.close ss; active = t; max_segment_bytes = max_bytes })
unfolding seal_opened seal
seal_opened-lem max_bytes [] t = refl
seal_opened-lem max_bytes (s ∷ ss) t = ap ok (seal-opened max_bytes [] s ss t)
