-- ===== src/Process/Child.antt =====
-- The child of a `fork`: it never returns to the caller of `start` by a normal return.
use aser.Prelude.{ℕ, pos, ◌≡◌, ◌≢◌, some}
use aser.Outcome.{Exec, Result, ok, stop, thrown, exited, halt, ◌>>◌, continue, system_error}
use aser.Libc.{Posix}
use aser.Process.Config.{
  ProcessConfig, on_exec_setup, on_exec_error, set_exec_setup, set_exec_error, set_fork_error,
  set_fork_success,
}
use aser.Process.{Running, forked, exec_args, on_world}
use aser.Process.Sync.{Channels, lift, sync_config, wait_for_parent}

abbrev Never : {S : Type 0} → Exec S (Unit {0}) → Type 0
Never {S} n = (s : S) → (n s).0 ≢ ok tt

continue-Never :
    {S : Type 0} (r : Result (Unit {0})) (n : Exec S (Unit {0})) (t : S)
    → Never n
    → (continue r (λ _. n) t).0 ≢ ok tt
continue-Never (ok a) n t never = never t
continue-Never (stop x) n t never = λ h. cc

-- A call that is followed by one that never returns never returns.
>>-Never : {S : Type 0} (m n : Exec S (Unit {0})) → Never n → Never (m >> n)
>>-Never m n never s = continue-Never (m s).0 n (m s).1 never

module _ {V : Type 0} (posix : Posix V) where
  -- In the child, whatever the callbacks do and whether or not `exec` succeeds, `start` never
  -- returns normally.
  pub child_never_returns : (s : Running V) → (forked posix (pos 0) s).0 ≢ ok tt
  unfolding forked
  child_never_returns s =
      >>-Never (on_world (on_exec_setup config)) (exec_args posix >> (on_error >> halt (exited 1)))
        (>>-Never (exec_args posix) (on_error >> halt (exited 1))
          (>>-Never on_error (halt (exited 1)) (λ t h. cc)))
        s
    where
      config : ProcessConfig V
      config = s.process.config

      on_error : Exec (Running V) (Unit {0})
      on_error t = on_world (on_exec_error config (posix.errno t.world)) t

module _ {W : Type 0} (posix : Posix W) (garbage : ℕ) where
  -- Let a child with the callbacks of `sync_process` get through `wait_for_parent`, and let
  -- `execvp` fail. Then `start` throws "Exec failed" in the child, with the error of `execvp`, so
  -- `exit(1)` is not reached and the exception goes up the caller's frames in the child.
  pub sync_exec_error_throws :
      (s : Running (Channels W)) (config : ProcessConfig (Channels W)) (c c' : Channels W)
      → s.process.config ≡ sync_config posix garbage config
      → wait_for_parent posix garbage s.world ≡ (ok tt, c)
      → (lift posix).execvp s.process.args c ≡ some c'
      → forked (lift posix) (pos 0) s ≡ (
        stop (thrown (system_error ((lift posix).errno c') "Exec failed")),
        record s { world = c' },
      )
  unfolding forked sync_config on_exec_setup on_exec_error set_exec_setup set_exec_error
      set_fork_error set_fork_success
  sync_exec_error_throws s config c c' e w x = rw (e, w, x)
