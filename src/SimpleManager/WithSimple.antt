-- ===== src/SimpleManager/WithSimple.antt =====
-- The program with the monitor of exec_monitor/simple.cc: `start` of the manager on a new object.
use aser.Prelude.{
  ℕ, zero, suc, ◌<◌, ◌≡◌, ◌⊎◌, inl, inr, refl, ◌∙◌, true, List, [], ◌∷◌, some, length, replicate,
}
use aser.Outcome.{ok}
use aser.Benchmark.{Benchmark}
use aser.ExecMonitor.{ExecMonitor, ExecEvent, Virtual, running, run_thread}
use aser.ExecMonitor
use aser.ExecMonitor.Events.{with}
use aser.ExecMonitor.Queued.{Fits-queued, run_thread-queued, run_thread-no_round}
use aser.SimpleMonitor.{SimpleMonitor, simple_monitor}
use aser.SimpleMonitor
use aser.SimpleMonitor.Idling.{construct-handlers, run_thread-idle}
use aser.Manager
use aser.SimpleManager.Execution.{Derived, Schedule}
use aser.SimpleManager.{SimpleManager, construct}

-- The monitor sees nothing of the system.
abbrev pub apart : {W : Type 0} → Derived SimpleMonitor W
apart = record { enter = λ w d. d; leave = λ d w. w }

-- A new monitor, initialized.
abbrev pub initialized : ℕ → ExecMonitor SimpleMonitor
initialized sampling_length = record ((SimpleMonitor.construct sampling_length).1) {
  initialized = true;
}

module _ (sampling_length : ℕ) where
  abbrev settings : SimpleMonitor
  settings = record { sampling_interval = sampling_length }

  abbrev in_thread : ExecMonitor SimpleMonitor
  in_thread = record (initialized sampling_length) { thread = running }

  thread_ends :
      (fuel rounds : ℕ) (events : List ExecEvent)
      → length events < fuel
      → (left : List ExecEvent) × (run_thread simple_monitor fuel
            (replicate rounds [])
            (with events settings in_thread)
          ≡ some (ok tt, with left settings in_thread))
        × ((rounds ≡ 0) ⊎ (left ≡ []))
  thread_ends fuel zero events room =
      (events, run_thread-no_round simple_monitor fuel events settings in_thread, inl refl)
  thread_ends fuel (suc n) events room = (
    [],
    run_thread-queued simple_monitor fuel n events settings in_thread
        ∙ run_thread-idle fuel (events ∷ replicate n []) settings in_thread
            (construct-handlers sampling_length) (Fits-queued fuel n events room),
    inr refl,
  )

  -- Without a round no event is taken from the queue.
  abbrev pub Emptied : Schedule → ExecMonitor SimpleMonitor → Type 0
  Emptied schedule m = (schedule.rounds ≡ 0) ⊎ (m.event_queue.queue ≡ [])
