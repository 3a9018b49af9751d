-- ===== src/Process/Invariant.antt =====
-- What holds of the process at every step: what its probes say, and what is in flight.
mod Defs
mod Serve
mod Traffic
pub use Defs.*
use pyka.Common.{
  ℕ, ◌≡◌, refl, sym, ap, ◌∙◌, List, [], ◌∷◌, ◌++◌, Bool, true, false, Option, none, some, Result,
  ok, err, Error, value_error, false-ne-true,
}
use mathlib.Core.Path.{subst}
use pyka.Broker.Tail
use pyka.Topic.Topics.{Topics, create}
use pyka.Broker.Store.{Store, Directory, find_orphans, judge, release, close_topics}
use pyka.Broker.Server.{
  HealthService, BrokerServer, Phase, unstarted, listening, stopping, stopped, set_serving, start,
  begin_stop, Shows, set_serving-Shows, set_serving-phase, status_of, not_serving,
}
use pyka.Process.Calls.{Call, opened, call_step, thread_step, HttpCall, http_step}
use pyka.Process.Kept.{Keeps, call_step-Keeps, thread_step-Keeps, http_step-Keeps}
use pyka.Process.Steps.{
  Main, starting, binding, recovering, waiting, draining, closing, finished, failed, Admin, pending,
  up, ended, AdminMove, Process, begin, started, opening, recovered, judged, shut_down, stops,
  stop_returns, gathered, after_create, startup_error, closed, turned, Step, Reach, here, then,
}
use pyka.Process.Steps
use Serve.{
  Inv-begin, Inv-started, Inv-opening, Inv-failed, Inv-recovered, Inv-judged, Inv-shut_down,
  Inv-stops, Inv-gathered, Inv-closed, Inv-stop_returns,
}
use Traffic.{Inv-calls, Inv-store, Inv-http, Inv-admin, AdminMove-ended, AdminMove-idle}

pub split-ne-nil {ℓ} :
    {A : Type ℓ} (before : List A) (x : A) (after : List A) → before ++ x ∷ after ≡ [] → ⊥
split-ne-nil [] x after h = cc
split-ne-nil (y ∷ before) x after h = cc

module _ (H : HealthService) where
  -- Every step keeps the invariant.
  pub Step-Inv : {p q : Process H} → Step H p q → Inv H p → Inv H q
  unfolding turned stop_returns
  Step-Inv (Step.starts e) h = Inv-started H e h
  Step-Inv (Step.opens e a names) h = Inv-opening H names e h
  Step-Inv {p} (Step.fails e r a) h =
      Inv-failed H (startup_error r) (subst (HealthIs H p.server p.store.ready) e h.health) h
  Step-Inv (Step.recovers d ds names now e) h = Inv-recovered H d ds names now e h
  Step-Inv (Step.judges names e) h = Inv-judged H names e h
  Step-Inv (Step.signalled e) h = Inv-shut_down H e h
  Step-Inv (Step.refuses e s) h = Inv-stops H e h
  Step-Inv {p} (Step.drains s none_left) h = Inv-stop_returns H p.threads p.cut s h.uncut h
  Step-Inv {p} (Step.expires s) h =
      Inv-stop_returns H (p.calls ++ p.threads) true s (λ e. absurd (false-ne-true (sym e))) h
  Step-Inv (Step.gathers e s a) h = Inv-gathered H e s a h
  Step-Inv {p} (Step.misreads e l) h =
      Inv-failed H value_error (subst (HealthIs H p.server p.store.ready) e h.health) h
  Step-Inv {p} (Step.raises e x a) h =
      Inv-failed H x (subst (HealthIs H p.server p.store.ready) e h.health) h
  Step-Inv (Step.closes e) h = Inv-closed H e h
  Step-Inv {p} (Step.arrives s r) h =
      Inv-calls H (opened r ∷ p.calls) p.threads p.cut
        (λ e. absurd (listening-ne-stopped (sym s ∙ e))) h.uncut h
  Step-Inv {p} (Step.turns before c after now monotonic e) h =
      Inv-store H (call_step p.store c now monotonic).1 (call_step-Keeps p.store c now monotonic) (
        Inv-calls H (before ++ (call_step p.store c now monotonic).0 ++ after) p.threads p.cut
          (λ s. absurd (split-ne-nil before c after (sym e ∙ h.drained s))) h.uncut h)
  Step-Inv {p} (Step.cancels before c after e) h =
      Inv-calls H (before ++ after) (c ∷ p.threads) true
        (λ s. absurd (split-ne-nil before c after (sym e ∙ h.drained s)))
        (λ f. absurd (false-ne-true (sym f))) h
  Step-Inv {p} (Step.lands before c after now monotonic e running) h =
      Inv-store H (thread_step p.store c now monotonic) (thread_step-Keeps p.store c now monotonic)
        (Inv-calls H p.calls (before ++ after) p.cut h.drained
          (λ u. absurd (split-ne-nil before c after (sym e ∙ h.uncut u))) h)
  Step-Inv (Step.admin_moves a move) h =
      Inv-admin H a (AdminMove-ended H move) (AdminMove-idle H move h.idle) h
  Step-Inv {p} (Step.http_arrives a c) h =
      Inv-http H (c ∷ p.http) (λ e. absurd (false-ne-true (sym e ∙ ap has_http a))) h
  Step-Inv {p} (Step.http_turns before c after now e) h =
      Inv-store H (http_step p.store c now) (http_step-Keeps p.store c now) (
        Inv-http H (before ++ after) (λ i. absurd (split-ne-nil before c after (sym e ∙ h.idle i)))
          h)

  pub Reach-Inv : {s : Store} {p : Process H} → s.ready ≡ false → Reach H s p → Inv H p
  Reach-Inv {s} unready here = Inv-begin H s unready
  Reach-Inv unready (then r step) = Step-Inv step (Reach-Inv unready r)
