-- ===== src/Storage/Log/Chain.antt =====
-- What a log holds: one run of records, cut into segments that follow one another without a gap.
use mathlib.Core.Path.{subst}
use pyka.Common.{
  ℕ, ◌+◌, ◌≤◌, ◌<◌, ◌≡◌, ◌∙◌, sym, List, [], ◌∷◌, ◌++◌, append_assoc, append-nil, true, false,
  length, length-append,
}
use pyka.Common.Int.{ℤ, pos, ◌+ℤ◌, +ℤ_zero, int_laws}
use pyka.Storage.Record.{Record}
use pyka.Storage.Segment.{Segment}
use pyka.Storage.Segment.Runs.{IsRun, IsRun-append}
use pyka.Storage.Segment.Recovery.{IsWellFormed}
use pyka.Storage.Log.{Log}

-- A sealed segment: `close` has made its whole file durable, and `roll` seals none that is empty.
pub record IsSealed (s : Segment) : Type 0 where
  pub shut : s.closed ≡ true
  pub durable : length s.content ≤ s.synced
  pub full : 0 < s.position

-- Sealed segments from the offset `o` on, with the records of each.
abbrev pub AllFormed : ℤ → List Segment → List (List Record) → Type 0
AllFormed o [] [] = Unit
AllFormed o [] (p ∷ ps) = ⊥
AllFormed o (s ∷ ss) [] = ⊥
AllFormed o (s ∷ ss) (p ∷ ps) =
    (s.base_offset ≡ o) × IsWellFormed s p × IsSealed s × AllFormed (o +ℤ pos (length p)) ss ps

abbrev pub concat : List (List Record) → List Record
concat [] = []
concat (p ∷ ps) = p ++ concat ps

-- A log that begins at `base`: its sealed segments hold `parts`, and the tail, which is open, holds
-- `last`.
pub record Holds (l : Log) (base : ℤ) (parts : List (List Record)) (last : List Record)
    : Type 0 where
  pub sealed : AllFormed base l.sealed parts
  pub tail : IsWellFormed l.active last
  pub tail_base : l.active.base_offset ≡ base +ℤ pos (length (concat parts))
  pub tail_open : l.active.closed ≡ false
  pub tail_limit : l.active.max_bytes ≡ l.max_segment_bytes

-- The records of the log, as readers see them.
abbrev pub records : List (List Record) → List Record → List Record
records parts last = concat parts ++ last

pub concat-append_one :
    (ps : List (List Record)) (p : List Record) → concat (ps ++ (p ∷ [])) ≡ concat ps ++ p
concat-append_one [] p = append-nil p
concat-append_one (q ∷ ps) p = rw (concat-append_one ps p) (sym (append_assoc q (concat ps) p))

pub offset_add : (o : ℤ) (n m : ℕ) → o +ℤ pos n +ℤ pos m ≡ o +ℤ pos (n + m)
offset_add o n m = omega int_laws

-- One more segment is sealed.
pub AllFormed-append_one :
    (o : ℤ) (ss : List Segment) (ps : List (List Record)) (s : Segment) (p : List Record)
    → AllFormed o ss ps
    → s.base_offset ≡ o +ℤ pos (length (concat ps))
    → IsWellFormed s p
    → IsSealed s
    → AllFormed o (ss ++ (s ∷ [])) (ps ++ (p ∷ []))
AllFormed-append_one o [] [] s p h b w c = (b ∙ +ℤ_zero o, w, c, tt)
AllFormed-append_one o [] (q ∷ ps) s p h b w c = absurd h
AllFormed-append_one o (t ∷ ss) [] s p h b w c = absurd h
AllFormed-append_one o (t ∷ ss) (q ∷ ps) s p h b w c = (
  h.0,
  h.1,
  h.2,
  AllFormed-append_one (o +ℤ pos (length q)) ss ps s p h.3
      (b ∙ rw (length-append q (concat ps)) (sym (offset_add o (length q) (length (concat ps))))) w
      c,
)

-- The records of a log are one run.
pub AllFormed-IsRun :
    (o : ℤ) (ss : List Segment) (ps : List (List Record)) → AllFormed o ss ps → IsRun o (concat ps)
AllFormed-IsRun o [] [] h = tt
AllFormed-IsRun o [] (p ∷ ps) h = absurd h
AllFormed-IsRun o (s ∷ ss) [] h = absurd h
AllFormed-IsRun o (s ∷ ss) (p ∷ ps) h =
    IsRun-append o p (concat ps) (subst (λ b. IsRun b p) h.0 h.1.run)
      (AllFormed-IsRun (o +ℤ pos (length p)) ss ps h.3)

-- The records of a log, the tail's included, are one run.
pub Holds-IsRun :
    (l : Log) (base : ℤ) (parts : List (List Record)) (last : List Record)
    → Holds l base parts last
    → IsRun base (records parts last)
Holds-IsRun l base parts last h =
    IsRun-append base (concat parts) last (AllFormed-IsRun base l.sealed parts h.sealed)
      (subst (λ b. IsRun b last) h.tail_base h.tail.run)
