-- ===== src/Process/Sync/Object.antt =====
-- An object of class `sync_process` next to the system, and what a manager uses of it.
use aser.Prelude.{ℕ, ℤ, Bool, true, false}
use aser.Outcome.{Exec, Result, ok, stop, aborted, ◌>>◌}
use aser.Libc.{Posix}
use aser.Process.Pipe
use aser.Process.Pipe.{Pipe}
use aser.Process.{Process, KillMode, proc, started}
use aser.Process
use aser.Process.Sync.{Channels, lift, on_go, on_ready, construct, prepare, start, wait}
use aser.ProcessClass.{ProcessClass}

pub record SyncObject (W : Type 0) : Type 0 where
  pub process : Process (Channels W)
  pub go_pipe : Pipe
  pub child_ready_pipe : Pipe

-- Both together, as the operations of the class take it.
abbrev pub Attached : Type 0 → Type 0
Attached W = Process.Running (Channels W)

-- `pid()` and `termination_status()` assert that the process has started.
unfoldable pub if_started : {A : Type 0} → Bool → A → Result A
if_started true a = ok a
if_started false a = stop aborted

module _ {W : Type 0} where
  unfoldable pub attach : SyncObject W → W → Attached W
  attach o w = record {
    process = o.process;
    world = record { go_pipe = o.go_pipe; child_ready_pipe = o.child_ready_pipe; system = w };
  }

  unfoldable pub detach : Attached W → SyncObject W × W
  detach s = (
    record {
      process = s.process;
      go_pipe = s.world.go_pipe;
      child_ready_pipe = s.world.child_ready_pipe;
    },
    s.world.system,
  )

  unfoldable pub on_object :
      {A : Type 0} → Exec (Attached W) A → SyncObject W → W → Result A × SyncObject W × W
  unfolding attach detach
  on_object call o w = let (r, s) = call (attach o w) in (r, (detach s).0, (detach s).1)

  unfoldable pub constructed : Result (Attached W) × W → Result (SyncObject W) × W
  unfolding detach
  constructed (ok s, w) = (ok (detach s).0, w)
  constructed (stop x, w) = (stop x, w)

  on_channels : {A : Type 0} → Exec (Channels W) A → Exec (Attached W) A
  on_channels m s = let (r, c) = m s.world in (r, record s { world = c })

  module _ (posix : Posix W) where
    -- The destructor that the class has by default: its members, the last one first.
    unfoldable pub destroy : Exec (Attached W) (Unit {0})
    unfolding on_channels
    destroy =
        on_channels (on_ready (Pipe.destroy posix))
        >> (on_channels (on_go (Pipe.destroy posix)) >> Process.destroy (lift posix))

    -- `cloexec` is `O_CLOEXEC`; `status` and `garbage` stand in variables that are not set.
    unfoldable pub sync_class : ℤ → ℤ → ℕ → ProcessClass (SyncObject W) W
    unfolding constructed on_object destroy if_started
    sync_class cloexec status garbage = record {
      make = λ args w. constructed (construct posix cloexec status garbage args w);
      prepare = on_object (prepare posix);
      start = on_object (start posix);
      wait = on_object (wait posix);
      kill_process = on_object (Process.kill_process (lift posix) proc);
      pid = λ o. if_started (started o.process) o.process.pid;
      termination_status = λ o. if_started (started o.process) o.process.termination_status;
      destroy = λ o w. let (r, o', w') = on_object destroy o w in (r, w');
    }
