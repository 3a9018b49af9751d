-- ===== src/Process/Probes.antt =====
-- What the probes of Kubernetes are told while the process runs, over gRPC and over HTTP.
use pyka.Common.{
  ◌≡◌, ◌≢◌, refl, sym, ap, ◌∙◌, Bool, true, false, some, ◌⊎◌, inl, inr, false-ne-true,
}
use mathlib.Core.Path.{subst}
use mathlib.Core.Option.{some-injective}
use pyka.Broker.Store.{Store}
use pyka.Broker.Admin.{readyz}
use pyka.Broker.Server.{
  HealthService, BrokerServer, unstarted, Status, serving, not_serving, status_of, Shows, overall,
  service_name,
}
use pyka.Process.Steps.{
  Main, starting, binding, recovering, waiting, draining, closing, finished, failed, Process, Reach,
}
use pyka.Process.Invariant.{is_unready, has_begun, is_started, HealthIs, Reach-Inv}

serving_ready : (b : Bool) → status_of b ≡ serving → b ≡ true
serving_ready true h = refl
serving_ready false h = cc

not_serving-ne-serving : not_serving ≡ serving → ⊥
not_serving-ne-serving h = cc

unstarted-ne-started : is_started unstarted ≡ true → ⊥
unstarted-ne-started h = cc

module _ (H : HealthService) where
  -- One of the two names is told that the broker serves.
  abbrev pub IsAdvertised : BrokerServer H → Type 0
  IsAdvertised s =
      (H.check s.health overall ≡ some serving) ⊎ (H.check s.health service_name ≡ some serving)

  shown_serving : (s : BrokerServer H) (st : Status) → Shows H s st → IsAdvertised s → st ≡ serving
  shown_serving s st (all, name) (inl h) = some-injective st serving (sym all ∙ h)
  shown_serving s st (all, name) (inr h) = some-injective st serving (sym name ∙ h)

  advertised_waiting :
      (s : BrokerServer H) (ready : Bool) (m : Main)
      → HealthIs H s ready m
      → is_started s.phase ≡ true
      → IsAdvertised s
      → (m ≡ waiting) × (ready ≡ true)
  advertised_waiting s ready starting h begun a =
      absurd (unstarted-ne-started (ap is_started (sym h) ∙ begun))
  advertised_waiting s ready waiting h begun a =
      (refl, serving_ready ready (shown_serving s (status_of ready) h a))
  advertised_waiting s ready binding h begun a =
      absurd (not_serving-ne-serving (shown_serving s not_serving h a))
  advertised_waiting s ready (recovering ds names) h begun a =
      absurd (not_serving-ne-serving (shown_serving s not_serving h a))
  advertised_waiting s ready draining h begun a =
      absurd (not_serving-ne-serving (shown_serving s not_serving h a))
  advertised_waiting s ready closing h begun a =
      absurd (not_serving-ne-serving (shown_serving s not_serving h a))
  advertised_waiting s ready finished h begun a =
      absurd (not_serving-ne-serving (shown_serving s not_serving h a))
  advertised_waiting s ready (failed e) h begun a =
      absurd (not_serving-ne-serving (shown_serving s not_serving h a))

  -- Whatever the clients, uvicorn and the worker threads do: once the gRPC server has started, its
  -- health service says SERVING, of the server or of the Broker service, only while `serve` waits for
  -- a signal with a store that is ready, so that `readyz` answers 200.
  pub advertised-IsReady :
      {s : Store} {p : Process H}
      → s.ready ≡ false
      → Reach H s p
      → is_started p.server.phase ≡ true
      → IsAdvertised p.server
      → (p.main ≡ waiting) × (readyz p.store ≡ (200, true))
  unfolding readyz
  advertised-IsReady {s} {p} unready r begun a =
      let (m, ready) =
        advertised_waiting p.server p.store.ready p.main (Reach-Inv H unready r).health begun a in
      (m, rw ready refl)

  agree_where :
      (s : BrokerServer H) (ready : Bool) (m : Main)
      → HealthIs H s ready m
      → (is_unready m ≡ true → ready ≡ false)
      → has_begun m ≡ true
      → m ≢ draining
      → Shows H s (status_of ready)
  agree_where s ready starting h u b d = absurd (false-ne-true b)
  agree_where s ready (failed e) h u b d = absurd (false-ne-true b)
  agree_where s ready draining h u b d = absurd (d refl)
  agree_where s ready waiting h u b d = h
  agree_where s ready binding h u b d = subst (λ r. Shows H s (status_of r)) (sym (u refl)) h
  agree_where s ready (recovering ds names) h u b d =
      subst (λ r. Shows H s (status_of r)) (sym (u refl)) h
  agree_where s ready closing h u b d = subst (λ r. Shows H s (status_of r)) (sym (u refl)) h
  agree_where s ready finished h u b d = subst (λ r. Shows H s (status_of r)) (sym (u refl)) h

  -- From the start of the gRPC server on, unless an exception has left `serve` and except while it
  -- drains its calls, the health service shows for both names what `readyz` answers.
  pub probes_agree :
      {s : Store} {p : Process H}
      → s.ready ≡ false
      → Reach H s p
      → has_begun p.main ≡ true
      → p.main ≢ draining
      → Shows H p.server (status_of (readyz p.store).1)
  unfolding readyz
  probes_agree {s} {p} unready r begun calm =
      let h = Reach-Inv H unready r in
      agree_where p.server p.store.ready p.main h.health h.unready begun calm
