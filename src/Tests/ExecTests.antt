-- ===== src/Tests/ExecTests.antt =====
-- Runs of the threads of monitors.
use aser.Prelude.{ℕ, ℤ, pos, ◌+◌, ◌≡◌, refl, List, [], ◌∷◌, some, lookup, arith}
use aser.Outcome.{ok, pure}
use aser.Tests.Logging.{State, at, logging as placing, affinity}
use aser.Hopper.Adding.{init-Inv}
use aser.Hopper.{Running, init}
use aser.ExecMonitor.{
  ExecEvent, process_created, Handler, Virtual, ExecMonitor, construct, process_events, run_thread,
}
use aser.ExecMonitor.Events.{handle_all, with, outcome, process_events-handle_all}
use aser.ExecMonitor.Rounds.{all_rounds, run_thread-all_rounds}
use aser.ExecMonitor.Hopping.{cpu_hopper, handlers, concat, Served, run_thread-Served}

abbrev created : ℕ → ExecEvent
created n = record { type = process_created; pid = pos n }

-- A derived object that lists the processes it has been told of, and counts its rounds.
abbrev Log : Type 0
Log = ℕ × List ℤ

abbrev log : Handler Log
log e (n, pids) = (ok tt, (n, e.pid ∷ pids))

abbrev logging : Virtual Log
logging = record {
  initialize_impl = pure tt;
  finalize_impl = pure tt;
  prepare_impl = pure tt;
  loop_impl = λ (n, pids). (ok tt, (n + 1, pids));
}

abbrev monitor : ExecMonitor Log
monitor = record (construct (0, [])) { event_handlers = (process_created, log) ∷ [] }

abbrev two_events : ExecMonitor Log
two_events = with (created 1 ∷ created 2 ∷ []) (0, []) monitor

process_events-handle_all_example :
    process_events 3 two_events
    ≡ some (
        outcome two_events
          (handle_all two_events.event_handlers (created 1 ∷ created 2 ∷ []) (0, [])))
process_events-handle_all_example = process_events-handle_all two_events 3 (omega arith)

run_thread-all_rounds_example :
    run_thread logging 2 ((created 1 ∷ []) ∷ [] ∷ []) (with [] (0, []) monitor)
    ≡ some (
        outcome monitor (
          all_rounds logging.loop_impl monitor.event_handlers ((created 1 ∷ []) ∷ [] ∷ []) (0, [])))
run_thread-all_rounds_example =
    run_thread-all_rounds logging 2 ((created 1 ∷ []) ∷ [] ∷ []) (0, []) monitor
      (omega arith, (omega arith, tt))

-- Three CPUs, no process yet, and two that arrive in different rounds.
abbrev hopper : Running State
hopper = record { self = init 500 3; world = at 3 }

abbrev hopper_monitor : ExecMonitor (Running State)
hopper_monitor = record (construct hopper) { event_handlers = handlers (placing (pos 1)) }

abbrev arrivals : List (List ExecEvent)
arrivals = (created 1 ∷ []) ∷ [] ∷ (created 2 ∷ []) ∷ []

run_thread-Served_example :
    (s' : Running State) × (run_thread
        (cpu_hopper (placing (pos 1)))
        2
        arrivals
        (with [] hopper hopper_monitor)
      ≡ some (ok tt, with [] s' hopper_monitor))
    × Served
        (placing (pos 1))
        (affinity (pos 1))
        (λ w. Unit {0})
        (λ pid cpu w q. q)
        (concat arrivals)
        hopper
        s'
unfolding init lookup
run_thread-Served_example =
    run_thread-Served (placing (pos 1)) (affinity (pos 1)) (λ w. Unit {0}) (λ pid cpu w q. q) 2
      arrivals hopper hopper_monitor refl (omega arith, (omega arith, (omega arith, tt)))
      (init-Inv 500 3).0 (λ pid cpu at. cc) tt (refl, ((λ e. cc), tt), (refl, tt, tt))
      (omega (arith, (init-Inv 500 3).1))
