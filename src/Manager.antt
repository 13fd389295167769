-- ===== src/Manager.antt =====
-- core/exec_manager.h and core/exec_manager.cc: the base class of the managers, with the monitor that
-- it owns. The constructor takes the monitor that the factory has made.
use aser.Prelude.{ℤ, Bool, true, false}
use aser.Outcome.{Exec, ok, ◌>>◌}
use aser.ExecMonitor.{
  ExecMonitor, Virtual, process_created, initialize, finalize, prepare, join, enqueue_event,
}
use aser.ExecMonitor

pub record ExecManager (D : Type 0) : Type 0 where
  pub exec_monitor : ExecMonitor D
  pub execution_ended : Bool

module _ {D : Type 0} where
  unfoldable pub construct : ExecMonitor D → ExecManager D
  construct monitor = record { exec_monitor = monitor; execution_ended = false }

  abbrev on_monitor : Exec (ExecMonitor D) (Unit {0}) → Exec (ExecManager D) (Unit {0})
  on_monitor call s = let (r, m) = call s.exec_monitor in (r, record s { exec_monitor = m })

  unfoldable pub is_execution_over : ExecManager D → Bool
  is_execution_over s = s.execution_ended

  unfoldable pub execution_end : Exec (ExecManager D) (Unit {0})
  execution_end s = (ok tt, record s { execution_ended = true })

  unfoldable pub start_exec_monitor : Exec (ExecManager D) (Unit {0})
  start_exec_monitor = on_monitor ExecMonitor.start

  unfoldable pub notify_process_creation : ℤ → Exec (ExecManager D) (Unit {0})
  notify_process_creation pid s = (
    ok tt,
    record s {
      exec_monitor = enqueue_event (record { type = process_created; pid = pid }) s.exec_monitor;
    },
  )

  module _ (virtual : Virtual D) where
    unfoldable pub prepare_exec_monitor : Exec (ExecManager D) (Unit {0})
    prepare_exec_monitor = on_monitor (prepare virtual)

    unfoldable pub stop_exec_monitor : Exec (ExecManager D) (Unit {0})
    stop_exec_monitor = on_monitor join >> on_monitor (finalize virtual)

    -- `start`, over the `start_impl` of the derived class.
    unfoldable pub start : Exec (ExecManager D) (Unit {0}) → Exec (ExecManager D) (Unit {0})
    start start_impl = on_monitor (initialize virtual) >> start_impl
