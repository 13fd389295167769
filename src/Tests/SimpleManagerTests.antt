-- ===== src/Tests/SimpleManagerTests.antt =====
-- A simple manager with two benchmarks of the class `sync_process`, on a system that makes every call.
use aser.Prelude.{
  false, true, arith, eqb_ℤ_iff, ℕ, ℤ, pos, minus_one, ◌≡◌, refl, List, [], ◌∷◌, none, some, length,
}
use aser.Outcome.{Result, ok, stop, thrown, system_error, pure}
use aser.Queue.{push_rvalue}
use aser.Process
use aser.Process.Pipe
use aser.Process.Sync.{sync_config, wait_for_child, on_ready, on_go}
use aser.Process.Sync as SyncM
use aser.Process.Sync.Object.{SyncObject, sync_class, on_object, attach, detach}
use aser.ExecMonitor.{ExecMonitor, Virtual, ExecEvent, process_created, no_thread, enqueue_event}
use aser.Manager.{ExecManager, notify_process_creation}
use aser.SimpleManager.Execution.{Derived, Schedule, start_impl}
use aser.SimpleManager.Indices.{AllDifferent}
use aser.SimpleManager.Slots.{start_slots}
use aser.SimpleManager.Preparing.{AllBelow, Progress, Filled, prepare_benches-Filled}
use aser.Process.Sync.Succeeding.{Obliging}
use aser.Process.Sync.Preparing.{Opens}
use aser.SimpleManager.Succeeding.{prepare_benches-sync_class}
use aser.SimpleManager.Unwinding.{start_impl-start_slots}
use aser.SimpleManager.{SimpleManager, construct, assign_ids, prepare_bench, prepare_benches}
use aser.Tests.Logging.{State, at}
use aser.Tests.TwoBenchmarks.{
  benchs, system, class, ready, made_one, prepared_one, made_two, prepared_two, pid_lem,
}

abbrev virtual : Virtual ℕ
virtual = record {
  initialize_impl = pure tt;
  finalize_impl = pure tt;
  prepare_impl = pure tt;
  loop_impl = pure tt;
}

abbrev derived : Derived ℕ State
derived = record { enter = λ w d. d; leave = λ d w. w }

abbrev schedule : Schedule
schedule = record { first = 0 ∷ []; second = []; third = 1 ∷ []; rounds = 1; fuel = 3 }

abbrev monitor : List ExecEvent → ExecMonitor ℕ
monitor events = record {
  initialized = true;
  thread = no_thread;
  event_queue = record { queue = events };
  event_handlers = [];
  derived = 7;
}

abbrev base : ExecManager ℕ
base = record { exec_monitor = monitor []; execution_ended = false }

abbrev manager : SimpleManager (SyncObject State) ℕ State
manager = construct base benchs (at 3)

abbrev pids : List ℤ
pids = pos 107 ∷ pos 112 ∷ []

abbrev prepared : ℤ → SimpleManager (SyncObject State) ℕ State
prepared r = record {
  benchs = assign_ids 0 benchs;
  processes = some (ready r "a" 3) ∷ some (ready r "b" 8) ∷ [];
  base = record {
    exec_monitor = monitor (
        record { type = process_created; pid = pos 107 }
        ∷ record { type = process_created; pid = pos 112 }
        ∷ []);
    execution_ended = false;
  };
  system = at 13;
}

all_prepared : (r : ℤ) → prepare_benches (class r) manager.benchs manager ≡ (ok tt, prepared r)
unfolding prepare_benches prepare_bench construct assign_ids notify_process_creation enqueue_event
    push_rvalue
all_prepared r = rw (
  made_one r "a",
  prepared_one r "a",
  pid_lem r "a" 3,
  made_two r "b",
  prepared_two r "b",
  pid_lem r "b" 8,
)

-- What the monitor is at the end.
abbrev Leaves : ExecMonitor ℕ → Type 0
Leaves m = m.derived ≡ 7

different : AllDifferent pids
different = (((λ e. let yes = (eqb_ℤ_iff (pos 112) (pos 107)).1 e in cc), tt), (tt, tt))

start_throws : start_slots (class minus_one) (prepared minus_one).processes (at 13) ≡ (
  stop (thrown (system_error (pos 0) "Error writing to pipe")),
  (prepared minus_one).processes,
  record (at 13) { written = pos 4 ∷ [] },
)
unfolding start_slots sync_class SyncM.start on_object attach detach on_go Pipe.write Pipe.is_open
    Process.started
start_throws = refl

abbrev no_end : Schedule
no_end = record { first = []; second = []; third = []; rounds = 1; fuel = 3 }

start_impl-start_slots_example : start_impl (class minus_one) virtual derived no_end manager ≡ none
start_impl-start_slots_example =
    start_impl-start_slots (class minus_one) virtual derived no_end pids manager
      (prepared minus_one) 7 (prepared minus_one).processes
      (record (at 13) { written = pos 4 ∷ [] }) (system_error (pos 0) "Error writing to pipe")
      (omega arith) different (all_prepared minus_one)
      (pid_lem minus_one "a" 3, (pid_lem minus_one "b" 8, tt)) refl refl start_throws refl

prepare_benches-Filled_example :
    AllBelow (length manager.processes) manager.benchs
    × ((k : ℕ) × (r : Result (Unit {0})) × (s' : SimpleManager (SyncObject State) ℕ State)
        × (prepare_benches (class (pos 1)) manager.benchs manager ≡ (r, s'))
        × Progress (class (pos 1)) benchs k r
        × Filled (class (pos 1)) 0 k benchs s')
prepare_benches-Filled_example =
    prepare_benches-Filled (class (pos 1)) base benchs (at 3) (omega arith)

obliging : Obliging (system (pos 1))
obliging = record {
  pipes = λ fd w. refl;
  end_to_read = λ fd w. refl;
  pipes2 = λ flags fd w. refl;
  closes = λ fd w. refl;
  reads = λ fd n w e. cc;
  forks = λ w. refl;
  in_parent = λ w. ground arith;
}

opens : Opens (system (pos 1))
opens = record { opens = λ flags fd w succeeds. refl }

prepare_benches-sync_class_example :
    (s' : SimpleManager (SyncObject State) ℕ State) × (prepare_benches
        (class (pos 1))
        (assign_ids 0 benchs)
        (construct base benchs (at 3))
      ≡ (ok tt, s'))
    × Filled (class (pos 1)) 0 2 benchs s'
prepare_benches-sync_class_example =
    prepare_benches-sync_class (system (pos 1)) obliging opens (pos 1) (pos 0) 0 base benchs (at 3)
      (omega arith) (omega arith, (λ w. refl), (omega arith, (λ w. refl), tt))
