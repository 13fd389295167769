-- ===== src/SimpleMonitor.antt =====
-- exec_monitor/simple.h and exec_monitor/simple.cc: a monitor that only waits between two rounds.
-- `sleep_for`, which is all that its loop body calls, has no effect on the state.
pub mod Idling
use aser.Prelude.{ℕ, ℤ}
use aser.Outcome.{Exec, Result, pure}
use aser.ExecMonitor.{ExecMonitor, Virtual, Handler, process_created, register_event_handler}
use aser.ExecMonitor

pub record SimpleMonitor : Type 0 where
  pub sampling_interval : ℕ

unfoldable pub add_process : ℤ → Exec SimpleMonitor (Unit {0})
add_process pid = pure tt

unfoldable pub loop_impl : Exec SimpleMonitor (Unit {0})
loop_impl = pure tt

-- The handler that the constructor registers.
unfoldable pub on_created : Handler SimpleMonitor
unfolding add_process
on_created event = add_process event.pid

-- The constructor; `sampling_length` is what it reads from the properties.
unfoldable pub construct : ℕ → Result (Unit {0}) × ExecMonitor SimpleMonitor
construct sampling_length =
    register_event_handler process_created on_created
      (ExecMonitor.construct (record { sampling_interval = sampling_length }))

unfoldable pub simple_monitor : Virtual SimpleMonitor
unfolding loop_impl
simple_monitor = record {
  initialize_impl = pure tt;
  finalize_impl = pure tt;
  prepare_impl = pure tt;
  loop_impl = loop_impl;
}
