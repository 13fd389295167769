-- ===== src/Tests/SamplerTests.antt =====
-- A sampler with the dummy implementation.
use aser.Prelude.{List, true, ℕ, pos, [], ◌∷◌, ℤ_key}
use aser.Perf.{GenericEvents, no_count}
use aser.Perf.Dummy.{event_dummy_impl}
use aser.Sampler.{Running, default_events}
use aser.ExecMonitor.{ExecEvent, ExecMonitor, process_created, running}
use aser.ExecMonitor.Sampling.{handlers}
use aser.Tests.PerfTests.{fractions, manager}

abbrev dummy : GenericEvents
dummy = record { cycles = 0; instructions = 0 }

-- It measures process 1, on a system whose state is a number.
abbrev sampler : Running (Unit {0}) (ℕ × ℕ) ℕ
sampler = record {
  sampler = record {
    sampling_interval = 100;
    events = default_events dummy;
    event_managers = (pos 1, manager) ∷ [];
  };
  world = 5;
}

-- Two processes are created, in different rounds.
abbrev rounds : List (List ExecEvent)
rounds =
    (record { type = process_created; pid = pos 2 } ∷ [])
    ∷ []
    ∷ (record { type = process_created; pid = pos 3 } ∷ [])
    ∷ []

abbrev monitor : ExecMonitor (Running (Unit {0}) (ℕ × ℕ) ℕ)
monitor = record {
  initialized = true;
  thread = running;
  event_queue = record { queue = [] };
  event_handlers = handlers fractions event_dummy_impl no_count tt;
  derived = sampler;
}
