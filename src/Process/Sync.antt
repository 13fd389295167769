-- ===== src/Process/Sync.antt =====
-- The class `sync_process` of util/process.h and util/process.cc.
pub mod Object
pub mod Keeping
pub mod Recording
pub mod Preparing
pub mod Succeeding
use aser.Prelude.{ℕ, ℤ, pos, String, List, [], ◌∷◌}
use mathlib.Core.Option
use aser.Outcome.{Exec, Result, ok, stop, pure, assert, ◌>>=◌, ◌>>◌}
use aser.Libc.{Posix, libc_error_code}
use aser.Process.Pipe
use aser.Process.Pipe.{Pipe, EndPoint, read_end, write_end}
use aser.Process.Config.{
  ProcessConfig, default_config, set_exec_setup, set_fork_success, set_fork_error, set_exec_error,
}
use aser.Process.{Process, started}
use aser.Process

-- What the callbacks work on: the pipes of the object, and the system.
pub record Channels (W : Type 0) : Type 0 where
  pub go_pipe : Pipe
  pub child_ready_pipe : Pipe
  pub system : W

module _ {W : Type 0} where
  abbrev at_system : {A : Type 0} → (W → A × W) → Channels W → A × Channels W
  at_system f c = let (a, w) = f c.system in (a, record c { system = w })

  abbrev at_system₂ : {A B : Type 0} → (W → A × B × W) → Channels W → A × B × Channels W
  at_system₂ f c = let (a, b, w) = f c.system in (a, b, record c { system = w })

  -- The calls of the system, next to the pipes.
  unfoldable pub lift : Posix W → Posix (Channels W)
  lift posix = record {
    errno = λ c. posix.errno c.system;
    sigkill = posix.sigkill;
    kill = λ pid sig. at_system (posix.kill pid sig);
    getpid = λ c. posix.getpid c.system;
    getpgid = λ pid. at_system (posix.getpgid pid);
    setpgid = λ pid pgid. at_system (posix.setpgid pid pgid);
    pipe = λ fd. at_system₂ (posix.pipe fd);
    pipe2 = λ flags fd. at_system₂ (posix.pipe2 flags fd);
    close = λ fd. at_system (posix.close fd);
    read = λ fd n. at_system₂ (posix.read fd n);
    write = λ fd bytes. at_system (posix.write fd bytes);
    fork = at_system posix.fork;
    execvp = λ args c. Option.map (λ w. record c { system = w }) (posix.execvp args c.system);
    waitpid = λ pid status. at_system₂ (posix.waitpid pid status);
    wifexited = posix.wifexited;
    wifsignaled = posix.wifsignaled;
    sched_setaffinity = λ pid cpus. at_system (posix.sched_setaffinity pid cpus);
    exists = λ path c. posix.exists path c.system;
  }

  -- An operation of one pipe, on the object.
  unfoldable pub on_go : {A : Type 0} → Exec (Pipe.Running W) A → Exec (Channels W) A
  on_go m c =
      let (r, s) = m (record { pipe = c.go_pipe; world = c.system }) in
      (r, record c { go_pipe = s.pipe; system = s.world })

  unfoldable pub on_ready : {A : Type 0} → Exec (Pipe.Running W) A → Exec (Channels W) A
  on_ready m c =
      let (r, s) = m (record { pipe = c.child_ready_pipe; world = c.system }) in
      (r, record c { child_ready_pipe = s.pipe; system = s.world })

  abbrev unchecked :
      {A B : Type 0} → Exec (Channels W) A → Exec (Channels W) B → Exec (Channels W) B
  unchecked m n = m >>= λ _. n

  module _ (posix : Posix W) where
    set_group : Exec (Channels W) (Unit {0})
    set_group c =
        let (r, w) = posix.setpgid (posix.getpid c.system) (pos 0) c.system in
        (ok tt, record c { system = w })

    -- In the child, before `exec`. `garbage` is the byte of `buf`, which is not set.
    unfoldable pub wait_for_parent : ℕ → Exec (Channels W) (Unit {0})
    unfolding set_group
    wait_for_parent garbage =
        set_group
        >> (on_ready (Pipe.close posix read_end)
            >> (on_go (Pipe.close posix write_end)
                >> (unchecked (on_ready (Pipe.write posix (garbage ∷ []))) (
                    on_ready (Pipe.close posix write_end)
                    >> (unchecked (on_go (Pipe.read posix 1)) (pure tt))))))

    -- In the parent, after `fork`.
    unfoldable pub wait_for_child : Exec (Channels W) (Unit {0})
    wait_for_child =
        on_ready (Pipe.close posix write_end)
        >> (on_go (Pipe.close posix read_end)
            >> (unchecked (on_ready (Pipe.read posix 1)) (on_ready (Pipe.close posix read_end))))

    unfoldable pub sync_config : ℕ → ProcessConfig (Channels W) → ProcessConfig (Channels W)
    sync_config garbage config =
        set_exec_error (λ code. libc_error_code code "Exec failed")
          (set_fork_error (λ code. libc_error_code code "Error forking process")
            (set_fork_success wait_for_child (set_exec_setup (wait_for_parent garbage) config)))

    -- The state of the object.
    abbrev pub SyncProcess : Type 0
    SyncProcess = Process.Running (Channels W)

    ready_made : ℕ → Process (Channels W) → Pipe → Result Pipe × W → Result SyncProcess × W
    ready_made garbage p go (ok ready, w) = (
      ok (record {
        process = record p { config = sync_config garbage p.config };
        world = record { go_pipe = go; child_ready_pipe = ready; system = w };
      }),
      w,
    )
    ready_made garbage p go (stop x, w) =
        (stop x, (Pipe.destroy posix (record { pipe = go; world = w })).1.world)

    go_made : ℕ → Process (Channels W) → Result Pipe × W → Result SyncProcess × W
    unfolding ready_made
    go_made garbage p (ok go, w) = ready_made garbage p go (Pipe.make posix w)
    go_made garbage p (stop x, w) = (stop x, w)

    process_made : ℤ → ℕ → Result (Process (Channels W)) → W → Result SyncProcess × W
    unfolding go_made
    process_made cloexec garbage (ok p) w = go_made garbage p (Pipe.make_with posix cloexec w)
    process_made cloexec garbage (stop x) w = (stop x, w)

    -- The constructor; `cloexec` is `O_CLOEXEC`.
    unfoldable pub construct : ℤ → ℤ → ℕ → List String → W → Result SyncProcess × W
    unfolding process_made
    construct cloexec status garbage args =
        process_made cloexec garbage (Process.make status args default_config)

    unfoldable pub prepare : Exec SyncProcess (Unit {0})
    prepare = Process.start (lift posix)

    on_channels : {A : Type 0} → Exec (Channels W) A → Exec SyncProcess A
    on_channels m s = let (r, c) = m s.world in (r, record s { world = c })

    unfoldable pub start : Exec SyncProcess (Unit {0})
    unfolding on_channels
    start s =
        (assert (started s.process)
            >> (on_channels (on_go (Pipe.write posix (0 ∷ []))) >>= λ n.
                on_channels (on_go (Pipe.close posix write_end))))
          s

    unfoldable pub wait : Exec SyncProcess (Unit {0})
    wait = Process.wait (lift posix)
