-- ===== src/Process/Shutdown/Quiet.antt =====
-- When the logs are closed, nothing else touches the store.
use pyka.Common.{◌≡◌, refl, sym, ap, ◌∙◌, [], true, false, none, ◌⊎◌, inl, inr, false-ne-true}
use pyka.Broker.Store.{Store}
use pyka.Broker.Server.{HealthService, stopped}
use pyka.Process.Steps.{closing, Process, Reach, Step, closed, ended, stops, stop_returns}
use pyka.Process.Invariant.{is_over, has_http, split-ne-nil, Inv, Reach-Inv}

module _ (H : HealthService) where
  -- Nothing is in flight, and no call is taken any more.
  pub record IsQuiet (p : Process H) : Type 0 where
    pub refusing : p.server.phase ≡ stopped
    pub calls : p.calls ≡ []
    pub http : p.http ≡ []
    pub left : p.admin ≡ ended none

  over-IsQuiet : {p : Process H} → Inv H p → is_over p.main ≡ true → IsQuiet p
  over-IsQuiet h o =
      let (refusing, left) = h.over o in
      record {
        refusing = refusing;
        calls = h.drained refusing;
        http = h.idle (ap has_http left);
        left = left;
      }

  -- One step on from the closing of the logs: it is that closing, or it leaves the store as it is.
  abbrev pub LeavesStore : Process H → Process H → Type 0
  LeavesStore p q = ((p.main ≡ closing) × (q ≡ closed H p)) ⊎ (q.store ≡ p.store)

  quiet_step :
      {p q : Process H}
      → Step H p q
      → is_over p.main ≡ true
      → IsQuiet p
      → p.threads ≡ []
      → LeavesStore p q
  unfolding stops stop_returns
  quiet_step (Step.starts e) o h u = absurd (false-ne-true (ap is_over (sym e) ∙ o))
  quiet_step (Step.opens e a names) o h u = absurd (false-ne-true (ap is_over (sym e) ∙ o))
  quiet_step (Step.fails e r a) o h u = inr refl
  quiet_step (Step.recovers d ds names now e) o h u =
      absurd (false-ne-true (ap is_over (sym e) ∙ o))
  quiet_step (Step.judges names e) o h u = absurd (false-ne-true (ap is_over (sym e) ∙ o))
  quiet_step (Step.signalled e) o h u = absurd (false-ne-true (ap is_over (sym e) ∙ o))
  quiet_step (Step.refuses e s) o h u = inr refl
  quiet_step (Step.drains s none_left) o h u = inr refl
  quiet_step (Step.expires s) o h u = inr refl
  quiet_step (Step.gathers e s a) o h u = absurd (false-ne-true (ap is_over (sym e) ∙ o))
  quiet_step (Step.misreads e l) o h u = inr refl
  quiet_step (Step.raises e x a) o h u = inr refl
  quiet_step (Step.closes e) o h u = inl (e, refl)
  quiet_step (Step.arrives s r) o h u = inr refl
  quiet_step (Step.turns before c after now monotonic e) o h u =
      absurd (split-ne-nil before c after (sym e ∙ h.calls))
  quiet_step (Step.cancels before c after e) o h u = inr refl
  quiet_step (Step.lands before c after now monotonic e running) o h u =
      absurd (split-ne-nil before c after (sym e ∙ u))
  quiet_step (Step.admin_moves a move) o h u = inr refl
  quiet_step (Step.http_arrives a c) o h u = inr refl
  quiet_step (Step.http_turns before c after now e) o h u =
      absurd (split-ne-nil before c after (sym e ∙ h.http))

  -- Once the gather of the shutdown is done, and until the process ends, no call is in flight on
  -- either server and neither takes another.
  pub Reach-IsQuiet :
      {s : Store} {p : Process H}
      → s.ready ≡ false
      → Reach H s p
      → is_over p.main ≡ true
      → IsQuiet p
  Reach-IsQuiet unready r o = over-IsQuiet (Reach-Inv H unready r) o

  -- Once the gather of the shutdown is done, and if no call was ever cancelled, by its client or by
  -- the end of the grace, every step that is possible is the closing of the logs or leaves the store
  -- as it is: no append meets a closed log.
  pub over-LeavesStore :
      {s : Store} {p q : Process H}
      → s.ready ≡ false
      → Reach H s p
      → is_over p.main ≡ true
      → p.cut ≡ false
      → Step H p q
      → LeavesStore p q
  over-LeavesStore unready r o uncut step =
      let h = Reach-Inv H unready r in quiet_step step o (over-IsQuiet h o) (h.uncut uncut)
