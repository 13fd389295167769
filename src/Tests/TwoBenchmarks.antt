-- ===== src/Tests/TwoBenchmarks.antt =====
-- Two benchmarks of the class `sync_process`, on a system that makes every call.
use aser.Prelude.{false, ◌+◌, eqb_ℤ_iff, ℕ, ℤ, pos, minus_one, ◌≡◌, refl, String, List, [], ◌∷◌}
use aser.Outcome.{ok}
use aser.Benchmark.{Benchmark}
use aser.ProcessClass.{ProcessClass}
use aser.Libc.{Posix}
use aser.Os
use aser.Process
use aser.Process.Pipe
use aser.Process.Config.{
  default_config, set_exec_error, set_fork_error, set_fork_success, set_exec_setup, on_fork_setup,
  on_fork_success,
}
use aser.Process.Sync.{sync_config, wait_for_child, on_ready, on_go}
use aser.Process.Sync as SyncM
use aser.Process.Sync.Object.{SyncObject, sync_class, on_object, attach, detach, if_started}
use aser.Process.Sync.Keeping.{Willing}
use aser.Tests.Logging.{State, at, logging}

abbrev pub benchs : List Benchmark
benchs =
    record { id = 0; name = "one"; args = "a" ∷ [] }
    ∷ record { id = 0; name = "two"; args = "b" ∷ [] }
    ∷ []

-- The system with what it returns to a write.
abbrev pub system : ℤ → Posix State
system r = logging r

pub willing : Willing (system (pos 1))
willing = record {
  writes = λ fd bytes w e. cc;
  closes = λ fd w. refl;
  waits = λ pid st w e same. let yes = (eqb_ℤ_iff pid minus_one).1 same in cc;
  reports = λ pid st w. refl;
}

abbrev pub class : ℤ → ProcessClass (SyncObject State) State
class r = sync_class (system r) (pos 1) (pos 0) 0

-- A new object, whose descriptors are the numbers from `n` on, and the object after its preparation.
abbrev pub new : ℤ → String → ℕ → SyncObject State
new r path n = record {
  process = record {
    config = sync_config (system r) 0 default_config;
    args = path ∷ [];
    pid = minus_one;
    termination_status = pos 0;
    terminated = false;
  };
  go_pipe = record { read_fd = pos n; write_fd = pos (n + 1) };
  child_ready_pipe = record { read_fd = pos (n + 2); write_fd = pos (n + 3) };
}

abbrev pub ready : ℤ → String → ℕ → SyncObject State
ready r path n = record (new r path n) {
  process = record ((new r path n).process) { pid = pos (n + 104) };
  go_pipe = record { read_fd = minus_one; write_fd = pos (n + 1) };
  child_ready_pipe = record { read_fd = minus_one; write_fd = minus_one };
}

pub made_one :
    (r : ℤ) (path : String) → (class r).make (path ∷ []) (at 3) ≡ (ok (new r path 3), at 7)
unfolding sync_class SyncM.construct Process.make Pipe.make_with Pipe.make Os.pipe2 detach
made_one r path = refl

pub prepared_one :
    (r : ℤ) (path : String)
    → (class r).prepare (new r path 3) (at 7) ≡ (ok tt, ready r path 3, at 8)
unfolding sync_class SyncM.prepare SyncM.lift Process.start Process.started on_object attach detach
    sync_config set_exec_error set_fork_error set_fork_success set_exec_setup on_fork_setup
    on_fork_success wait_for_child on_ready on_go Pipe.close Pipe.read Pipe.is_open Pipe.descriptor
    Pipe.forget Process.forked
prepared_one r path = refl

pub made_two :
    (r : ℤ) (path : String) → (class r).make (path ∷ []) (at 8) ≡ (ok (new r path 8), at 12)
unfolding sync_class SyncM.construct Process.make Pipe.make_with Pipe.make Os.pipe2 detach
made_two r path = refl

pub prepared_two :
    (r : ℤ) (path : String)
    → (class r).prepare (new r path 8) (at 12) ≡ (ok tt, ready r path 8, at 13)
unfolding sync_class SyncM.prepare SyncM.lift Process.start Process.started on_object attach detach
    sync_config set_exec_error set_fork_error set_fork_success set_exec_setup on_fork_setup
    on_fork_success wait_for_child on_ready on_go Pipe.close Pipe.read Pipe.is_open Pipe.descriptor
    Pipe.forget Process.forked
prepared_two r path = refl

pub pid_lem : (r : ℤ) (path : String) (n : ℕ) → (class r).pid (ready r path n) ≡ ok (pos (n + 104))
unfolding sync_class if_started Process.started
pid_lem r path n = refl
