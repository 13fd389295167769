-- ===== src/Tests/EndTests.antt =====
-- The end of an execution: the loop that kills the processes, and the destruction of the manager.
use aser.Prelude.{ℕ, pos, ◌≡◌, refl, List, [], ◌∷◌, some, map, ◌+◌, true}
use aser.Outcome.{ok}
use aser.Libc.{Posix}
use aser.ExecMonitor.{no_thread}
use aser.Process.Sync.Object.{SyncObject, sync_class}
use aser.SimpleManager.Slots.{kill_slots}
use aser.SimpleManager.Killing.{kill_slots-all_signalled}
use aser.SimpleManager.Destroying.{destroy, destroy-close_all}
use aser.SimpleManager.{SimpleManager}
use aser.Tests.Logging.{State, at}
use aser.Tests.TwoBenchmarks.{benchs, system, ready}

-- The state counts the signals.
abbrev counting : Posix State
counting = record (system (pos 1)) { kill = λ pid sig w. (pos 0, record w { next = w.next + 1 }) }

kill_slots-all_signalled_example :
    kill_slots
      (sync_class counting (pos 1) (pos 0) 0)
      (some (ready (pos 1) "a" 3) ∷ some (ready (pos 1) "b" 8) ∷ [])
      (at 13)
    ≡ (ok tt, some (ready (pos 1) "a" 3) ∷ some (ready (pos 1) "b" 8) ∷ [], at 15)
kill_slots-all_signalled_example =
    kill_slots-all_signalled counting (pos 1) (pos 0) 0
      (ready (pos 1) "a" 3 ∷ ready (pos 1) "b" 8 ∷ []) (at 13) (refl, (refl, tt))

-- The state counts the descriptors that are closed.
abbrev closing : Posix State
closing = record (system (pos 1)) { close = λ fd w. (pos 0, record w { next = w.next + 1 }) }

abbrev ended : SyncObject State → SyncObject State
ended o = record o { process = record (o.process) { terminated = true } }

abbrev objects : List (SyncObject State)
objects = ended (ready (pos 1) "a" 3) ∷ ended (ready (pos 1) "b" 8) ∷ []

abbrev over : SimpleManager (SyncObject State) ℕ State
over = record {
  benchs = benchs;
  processes = map some objects;
  base = record {
    exec_monitor = record {
      initialized = true;
      thread = no_thread;
      event_queue = record { queue = [] };
      event_handlers = [];
      derived = 7;
    };
    execution_ended = true;
  };
  system = at 13;
}

destroy-close_all_example :
    destroy (sync_class closing (pos 1) (pos 0) 0) (λ d w. w) over ≡ (ok tt, at 15)
destroy-close_all_example =
    destroy-close_all closing (λ fd w. refl) (pos 1) (pos 0) 0 (λ d w. w) over objects refl
      (refl, (refl, tt)) refl
