-- ===== src/Process.antt =====
-- The class template `process` of util/process.h and util/impl/process.h. The class `pipe`, the
-- configuration, util/kill.cc and the class `sync_process` are in the modules below.
pub mod Pipe
pub mod Config
pub mod Kill
pub mod Child
pub mod Sync
pub mod Lifecycle
pub mod Starting
use aser.Prelude.{
  ℕ, ℤ, pos, minus_one, String, Bool, true, false, not, ◌||◌, List, [], ◌∷◌, Option, none, some,
  eqb_ℤ, if◌then◌else◌,
}
use aser.Outcome.{
  Exec, Result, ok, stop, thrown, exited, replaced, Exception, invalid_argument, pure, halt, throw,
  gets, assert, try, ◌>>=◌, ◌>>◌,
}
use aser.Libc.{Posix, error_if_equal}
use Config.{
  ProcessConfig, on_fork_setup, on_exec_setup, on_fork_success, on_fork_error, on_exec_error,
}
use Kill.{kill, kill_group}

pub record Process (V : Type 0) : Type 0 where
  pub config : ProcessConfig V
  pub args : List String
  pub pid : ℤ
  pub termination_status : ℤ
  pub terminated : Bool

pub data KillMode : Type 0 where
  proc tree : KillMode

-- A process with the state that its callbacks and the calls of the system work on.
pub record Running (V : Type 0) : Type 0 where
  pub process : Process V
  pub world : V

module _ {V : Type 0} where
  -- The constructor; `garbage` is what stands in `termination_status_`, which it does not write.
  unfoldable pub make : ℤ → List String → ProcessConfig V → Result (Process V)
  make garbage [] config = stop (thrown (invalid_argument "Argument list is empty"))
  make garbage (path ∷ rest) config = ok (record {
    config = config;
    args = path ∷ rest;
    pid = minus_one;
    termination_status = garbage;
    terminated = false;
  })

  unfoldable pub started : Process V → Bool
  started p = not (eqb_ℤ p.pid minus_one)

  on_world : {A : Type 0} → Exec V A → Exec (Running V) A
  on_world m s = let (r, v) = m s.world in (r, record s { world = v })

  set_pid : ℤ → Exec (Running V) (Unit {0})
  set_pid pid s = (ok tt, record s { process = record p { pid = pid } })
    where
      p : Process V
      p = s.process

  -- `pid()` and `termination_status()` assert that the process has started.
  unfoldable pub get_pid : Exec (Running V) ℤ
  unfolding started
  get_pid s = (assert (started s.process) >> gets (λ t. t.process.pid)) s

  unfoldable pub get_termination_status : Exec (Running V) ℤ
  unfolding started
  get_termination_status s =
      (assert (started s.process) >> gets (λ t. t.process.termination_status)) s

  module _ (posix : Posix V) where
    image_replaced : Option V → Exec (Running V) (Unit {0})
    image_replaced none s = (stop replaced, s)
    image_replaced (some v) s = (ok tt, record s { world = v })

    exec_args : Exec (Running V) (Unit {0})
    unfolding image_replaced
    exec_args s = image_replaced (posix.execvp s.process.args s.world) s

    -- `case 0` of the switch: the child.
    unfoldable pub child : Exec (Running V) (Unit {0})
    unfolding on_world exec_args
    child s =
        let config = s.process.config in
        (on_world (on_exec_setup config)
            >> (exec_args
                >> ((λ t. on_world (on_exec_error config (posix.errno t.world)) t)
                    >> halt (exited 1))))
          s

    -- The switch, on what `fork` has returned.
    unfoldable pub forked : ℤ → Exec (Running V) (Unit {0})
    unfolding child set_pid on_world
    forked pid s =
        if eqb_ℤ pid minus_one
        then on_world (on_fork_error s.process.config (posix.errno s.world)) s
        else if eqb_ℤ pid (pos 0)
        then child s
        else (set_pid pid >> on_world (on_fork_success s.process.config)) s

    fork_now : Exec (Running V) (Unit {0})
    unfolding forked
    fork_now s = let (pid, v) = posix.fork s.world in forked pid (record s { world = v })

    path_exists : List String → V → Bool
    path_exists [] v = false
    path_exists (path ∷ rest) v = posix.exists path v

    unfoldable pub start : Exec (Running V) (Unit {0})
    unfolding started path_exists on_world fork_now
    start s =
        (assert (not (started s.process))
            >> (if path_exists s.process.args s.world
                then on_world (on_fork_setup s.process.config) >> fork_now
                else throw (invalid_argument "Path does not exist")))
          s

    set_waited : ℤ → Exec (Running V) (Unit {0})
    set_waited status s = (
      ok tt,
      record s {
        process = record p {
          terminated =
              if posix.wifexited status || posix.wifsignaled status then true else p.terminated;
        };
      },
    )
      where
        p : Process V
        p = s.process

    waited : Exec (Running V) (Unit {0})
    unfolding set_waited
    waited s =
        let (r, status, v) = posix.waitpid p.pid p.termination_status s.world in
        (error_if_equal (λ t. posix.errno t.world) r minus_one "Error waiting for process"
            >> set_waited status)
          (record { process = record p { termination_status = status }; world = v })
      where
        p : Process V
        p = s.process

    unfoldable pub wait : Exec (Running V) (Unit {0})
    unfolding started waited
    wait s = (assert (started s.process) >> (assert (not s.process.terminated) >> waited)) s

    kill_by : KillMode → ℤ → Exec V (Unit {0})
    kill_by proc pid = kill posix pid
    kill_by tree pid = kill_group posix pid

    unfoldable pub kill_process : KillMode → Exec (Running V) (Unit {0})
    unfolding started on_world kill_by
    kill_process mode s =
        (assert (started s.process)
            >> (if s.process.terminated then pure tt else on_world (kill_by mode s.process.pid)))
          s

    -- The destructor; `catch (...)` drops every exception.
    unfoldable pub destroy : Exec (Running V) (Unit {0})
    unfolding started
    destroy s =
        if not (started s.process) || s.process.terminated
        then (ok tt, s)
        else try (kill_process proc >> wait) (λ e. pure tt) s

-- The defaulted move: the new process, and what is left of the old one. The arguments and the
-- callbacks go over, the numbers and the flag are copied.
unfoldable pub move :
    {V : Type 0} → Process V → ProcessConfig V → List String → Process V × Process V
move other config args = (other, record other { config = config; args = args })
