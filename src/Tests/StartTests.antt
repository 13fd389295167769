-- ===== src/Tests/StartTests.antt =====
-- The whole program on two benchmarks, with each of the monitors that only wait or move processes.
use aser.Prelude.{ℕ, ℤ, pos, List, [], ◌∷◌, ◌++◌, some, false}
use aser.ExecMonitor.{ExecMonitor, process_created}
use aser.Hopper.{Running}
use aser.SimpleMonitor.{SimpleMonitor}
use aser.SimpleMonitor
use aser.Manager
use aser.Process.Sync.Object.{SyncObject}
use aser.SimpleManager.Execution.{Schedule}
use aser.SimpleManager.WithSimple
use aser.SimpleManager.HopperRuns
use aser.SimpleManager.SamplerRuns
use aser.Perf.{GenericEvents, no_count}
use aser.Sampler as SamplerM
use aser.Tests.PerfTests.{fractions}
use aser.SimpleManager.{SimpleManager, assign_ids}
use aser.Tests.Logging.{State, at}
use aser.Tests.TwoBenchmarks.{benchs, system, ready}

abbrev prepared_on : {D : Type 0} → ExecMonitor D → SimpleManager (SyncObject State) D State
prepared_on m = record {
  benchs = assign_ids 0 benchs;
  processes = some (ready (pos 1) "a" 3) ∷ some (ready (pos 1) "b" 8) ∷ [];
  base = record {
    exec_monitor = record m {
      event_queue = record {
        queue =
            (m.event_queue.queue ++ record { type = process_created; pid = pos 107 } ∷ [])
            ++ record { type = process_created; pid = pos 112 } ∷ [];
      };
    };
    execution_ended = false;
  };
  system = at 13;
}

abbrev pids : List ℤ
pids = pos 107 ∷ pos 112 ∷ []

abbrev schedule : Schedule
schedule = record { first = 0 ∷ []; second = []; third = 1 ∷ []; rounds = 2; fuel = 3 }

abbrev dummy : GenericEvents
dummy = record { cycles = 0; instructions = 0 }

abbrev sampler_at : ExecMonitor (SamplerM.Running (Unit {0}) (ℕ × ℕ) State)
sampler_at = SamplerRuns.initialized fractions no_count 500 dummy (at 3)
