-- ===== src/SimpleManager/Aborting.antt =====
-- `start_impl` when an exception leaves the thread of the monitor.
use aser.Prelude.{
  ℕ, ℤ, ◌≡◌, refl, ap, ◌∙◌, inl, inr, true, List, [], ◌++◌, some, get_elem?, replicate,
}
use aser.Outcome.{Stop, aborted, ok, stop}
use aser.ProcessClass.{ProcessClass}
use aser.ProcessClass.Contract.{Contract}
use aser.ProcessClass.Watching.{Watched}
use aser.ExecMonitor.{ExecMonitor, Virtual, running, run_thread}
use aser.Manager.{ExecManager, execution_end}
use aser.SimpleManager.Assumptions.{MonitorReady, Complete}
use aser.SimpleManager.Execution.{
  Derived, Schedule, Session, run_monitor, joined, cleaned_up, body_after, waited, execute, on_base,
  body, leave_scope, start_impl,
}
use aser.SimpleManager.Indices.{AllDifferent, contains}
use aser.SimpleManager.Setup.{setup_lem}
use aser.SimpleManager.Threads.{wait_for_any_returns}
use aser.SimpleManager.Completion.{Aligned}
use aser.SimpleManager.{SimpleManager, prepare_benches}

module _ {P D W : Type 0} {c : ProcessClass P W} (k : Contract c) (virtual : Virtual D)
    (derived : Derived D W) (schedule : Schedule) (Went : P → W → Type 0) (Q : W → Type 0)
    (watched : Watched k Went Q) where
  open k use {Prepared, Started}

  module _ (pids : List ℤ) (different : AllDifferent pids) (complete : Complete pids schedule) where
    aborts_lem :
        (t : Session P D W)
        → ((w : W)
            → (x : Stop) × (m' : ExecMonitor D) × (run_thread virtual schedule.fuel
                  (replicate schedule.rounds [])
                  (record (t.manager.base.exec_monitor) {
                    derived = derived.enter w t.manager.base.exec_monitor.derived;
                  })
                ≡ some (stop x, m')))
        → leave_scope c virtual derived schedule
            (cleaned_up c virtual derived schedule (run_monitor c virtual derived schedule t))
          ≡ some (stop aborted, t.manager)
    unfolding leave_scope cleaned_up run_monitor joined
    aborts_lem t throws = let (x, m', run) = throws t.manager.system in rw run refl

    -- The manager has called `start_exec_monitor`, and one of the processes has ended; then the program
    -- ends, the other processes are as they were started, and the system is as the calls of `start` and
    -- `wait` have left it.
    pub start_impl-aborted :
        (s s₁ : SimpleManager P D W)
        → prepare_benches c s.benchs s ≡ (ok tt, s₁)
        → Aligned Prepared pids s₁.processes
        → (v : MonitorReady virtual s₁.base.exec_monitor)
        → ((w : W)
            → (x : Stop) × (m' : ExecMonitor D) × (run_thread virtual schedule.fuel
                  (replicate schedule.rounds [])
                  (record (s₁.base.exec_monitor) {
                    thread = running;
                    derived = derived.enter w v.ready;
                  })
                ≡ some (stop x, m')))
        → (s' : SimpleManager P D W) × (start_impl c virtual derived schedule s
            ≡ some (stop aborted, s'))
          × ((i : ℕ) (pid : ℤ)
              → get_elem? pids i ≡ some pid
              → contains i (schedule.second ++ schedule.third) ≡ true
              → (p : P) × (get_elem? s'.processes i ≡ some (some p)) × Started pid p)
          × (Q s₁.system → Q s'.system)
    unfolding start_impl execute body body_after waited on_base execution_end
    start_impl-aborted s s₁ prepared a v throws =
        let (t, sets, inv, ready, long, base, _, quiet) =
          setup_lem k virtual derived schedule pids different complete Went Q watched s₁ a v in
        let (r, m, waits, inv₂) = wait_for_any_returns k pids different _ t ready long inv in
        let over : ExecManager D = record (s₁.base) {
          exec_monitor = record (s₁.base.exec_monitor) { thread = running; derived = v.ready };
          execution_ended = true;
        } in
        let t₂ : Session P D W = record {
          manager = record (t.manager) { base = over };
          monitor = m;
        } in
        (
          t₂.manager,
          rw (prepared, sets, waits)
              (ap
                  (λ b. leave_scope c virtual derived schedule (
                    cleaned_up c virtual derived schedule (
                      run_monitor c virtual derived schedule (record {
                        manager = record (t.manager) { base = record b { execution_ended = true } };
                        monitor = m;
                      }))))
                  base
                ∙ aborts_lem t₂ throws),
          λ i pid at left.
              let (p, here, phase) = inv₂.slots i pid at in
              (
                p,
                here,
                elim phase [
                  | inl (_, run, _) ↦ run
                  | inr (absent, _, _) ↦ absurd (let both = left in cc)
                ],
              ),
          quiet,
        )
