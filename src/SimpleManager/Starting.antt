-- ===== src/SimpleManager/Starting.antt =====
-- `exec_manager::start` of core/exec_manager.cc on an object of the simple manager.
use aser.Prelude.{◌≡◌, Option, some}
use aser.Outcome.{Result, ok, stop}
use aser.ProcessClass.{ProcessClass}
use aser.ExecMonitor.{ExecMonitor, Virtual, initialize}
use aser.SimpleManager.Execution.{Derived, Schedule, start_impl}
use aser.SimpleManager.{SimpleManager}

module _ {P D W : Type 0} (c : ProcessClass P W) (virtual : Virtual D) (derived : Derived D W)
    (schedule : Schedule) where
  abbrev pub on_monitor : ExecMonitor D → SimpleManager P D W → SimpleManager P D W
  on_monitor m s = record s { base = record (s.base) { exec_monitor = m } }

  begun :
      Result (Unit {0}) × ExecMonitor D
      → SimpleManager P D W
      → Option (Result (Unit {0}) × SimpleManager P D W)
  begun (stop x, m) s = some (stop x, on_monitor m s)
  begun (ok _, m) s = start_impl c virtual derived schedule (on_monitor m s)

  -- `none`: the call waits forever.
  unfoldable pub start : SimpleManager P D W → Option (Result (Unit {0}) × SimpleManager P D W)
  unfolding begun
  start s = begun (initialize virtual s.base.exec_monitor) s

  -- After the monitor is initialized, the rest is `start_impl`.
  pub start-start_impl :
      (s : SimpleManager P D W) (m : ExecMonitor D)
      → initialize virtual s.base.exec_monitor ≡ (ok tt, m)
      → start s ≡ start_impl c virtual derived schedule (on_monitor m s)
  unfolding start begun
  start-start_impl s m returns = rw (returns, begun)
