-- ===== src/ExecMonitor/Refusing.antt =====
-- The thread of a `cpu_hopper` monitor with at least as many processes as it has CPUs.
use aser.Prelude.{
  ℕ, suc, ◌<◌, ◌≤◌, ◌≡◌, refl, ap, ◌∙◌, List, [], ◌∷◌, some, length, replicate, arith, inl, inr,
  Bool-cases, ◌==◌,
}
use aser.Outcome.{Exception, ok, stop, thrown, runtime_error}
use aser.Libc.{Posix}
use aser.Hopper.Cpus.{free}
use aser.Hopper.Invariant.{Inv}
use aser.Hopper.Adding.{add_process-Placed, init-Inv}
use aser.Hopper.{Running, init, hop_processes, loop_impl}
use aser.ExecMonitor.{ExecEvent, ExecMonitor, run_thread}
use aser.ExecMonitor.Events.{handle_all, handle_all-cons, dispatch, with, outcome}
use aser.ExecMonitor.Rounds.{all_rounds, all_rounds-stops, run_thread-all_rounds}
use aser.ExecMonitor.Queued.{Fits-queued, run_thread-queued}
use aser.ExecMonitor.Hopping.{cpu_hopper, handlers, Fresh, dispatch_lem, verdict-ok, Placed-Fresh}

module _ {W : Type 0} (posix : Posix W) where
  handle_all-stops :
      (e : ExecEvent) (es : List ExecEvent) (s s' : Running W) (x : Exception)
      → dispatch (handlers posix) e s ≡ (stop (thrown x), s')
      → (handle_all (handlers posix) (e ∷ es) s).0 ≡ stop (thrown x)
  unfolding handle_all
  handle_all-stops e es s s' x stops = rw (stops, handle_all) refl

  -- The process that takes the last free CPU is refused, or the first one if there is no CPU.
  handle_all-refused :
      (es : List ExecEvent) (s : Running W)
      → Inv s.self
      → Fresh s.self es
      → 0 < length es
      → free s.self.allocated_cpus ≤ length es
      → (x : Exception) × ((handle_all (handlers posix) es s).0 ≡ stop (thrown x))
  handle_all-refused [] s v f some_event many = absurd (omega arith)
  handle_all-refused (e ∷ es) s v f some_event many =
      elim (add_process-Placed posix e.pid s v f.0) [
        | inl (full, throws) ↦ (_, handle_all-stops e es s _ _ (dispatch_lem posix e s ∙ throws))
        | inr (room, (s₁, added, p, _)) ↦ elim (Bool-cases (free s.self.allocated_cpus == 1)) [
          | inl last ↦ (
            runtime_error "Too many processes",
            handle_all-stops e es s s₁ _ (dispatch_lem posix e s ∙ added ∙ rw last refl),
          )
          | inr more ↦
              let two : 1 < free s.self.allocated_cpus = ground arith in
              let (x, stops) =
                handle_all-refused es s₁ p.kept (Placed-Fresh e.pid s.self s₁.self es p f.1 f.2)
                  (omega (arith, p.one_less)) (omega (arith, p.one_less)) in
              (
                x,
                ap (λ o. o.0)
                      (handle_all-cons (handlers posix) e es s s₁ (
                        dispatch_lem posix e s
                        ∙ added
                        ∙ ap (λ r. (r, s₁)) (verdict-ok posix (free s.self.allocated_cpus) two)))
                    ∙ stops,
              )
        ]
      ]

  idle_loop :
      (ms cpus : ℕ) (w : W)
      → loop_impl posix (record { self = init ms cpus; world = w })
        ≡ (ok tt, record { self = init ms cpus; world = w })
  unfolding loop_impl hop_processes init
  idle_loop ms cpus w = refl

  -- A new monitor whose queue has events of new processes, at least one, and no fewer than there are
  -- CPUs: with more fuel than events, its thread ends by an exception in the first round.
  pub run_thread-refused :
      (fuel n ms cpus : ℕ) (es : List ExecEvent) (w : W) (m : ExecMonitor (Running W))
      → m.event_handlers ≡ handlers posix
      → Fresh (init ms cpus) es
      → 0 < length es
      → cpus ≤ length es
      → length es < fuel
      → let s : Running W = record { self = init ms cpus; world = w } in
        (x : Exception) × (m' : ExecMonitor (Running W)) × (run_thread
            (cpu_hopper posix)
            fuel
            (replicate (suc n) [])
            (with es s m)
          ≡ some (stop (thrown x), m'))
  unfolding cpu_hopper
  run_thread-refused fuel n ms cpus es w m same f some_event many room =
      let s : Running W = record { self = init ms cpus; world = w } in
      let (v, all_free) = init-Inv ms cpus in
      let (x, stops) = handle_all-refused es s v f some_event (omega (arith, all_free)) in
      let rounds = es ∷ replicate n [] in
      let throws =
        all_rounds-stops (loop_impl posix) (handlers posix) es (replicate n []) s s (thrown x)
          (idle_loop ms cpus w) stops in
      let o = all_rounds (loop_impl posix) (handlers posix) rounds s in
      (
        x,
        with o.1 o.2 m,
        run_thread-queued (cpu_hopper posix) fuel n es s m
            ∙ run_thread-all_rounds (cpu_hopper posix) fuel rounds s m (Fits-queued fuel n es room)
            ∙ ap (λ hs. some (outcome m (all_rounds (loop_impl posix) hs rounds s))) same
            ∙ ap (λ r. some (r, with o.1 o.2 m)) throws,
      )
