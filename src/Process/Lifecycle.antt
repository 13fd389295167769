-- ===== src/Process/Lifecycle.antt =====
-- The parent's side of a process: waiting, killing, destruction, and what a move does.
use aser.Prelude.{
  minus_one, ◌≡◌, ◌≢◌, ◌⊎◌, inl, inr, refl, Bool-cases, eqb_ℤ, eqb_ℤ_iff, true, false, ◌||◌, String,
  List, arith,
}
use aser.Outcome.{ok, stop, thrown, aborted, system_error}
use aser.Libc.{Posix}
use aser.Process.Config.{ProcessConfig}
use aser.Process.Kill.{kill}
use aser.Process.{Process, Running, KillMode, started, wait, kill_process, destroy, move}

module _ {V : Type 0} (posix : Posix V) where
  -- A started process that has not terminated is waited for: if `waitpid` fails, the call throws and
  -- the process counts as running still; otherwise the call returns, the status is stored, and the
  -- process counts as terminated exactly if the status says that it exited or was killed.
  pub wait_lem :
      (s : Running V)
      → started s.process ≡ true
      → s.process.terminated ≡ false
      → let (r, status, v) = posix.waitpid s.process.pid s.process.termination_status s.world in
        let (result, s') = wait posix s in
        (s'.process.termination_status ≡ status)
        × (((r ≡ minus_one)
              × (result ≡ stop (thrown (system_error (posix.errno v) "Error waiting for process")))
              × (s'.process.terminated ≡ false))
            ⊎ ((r ≢ minus_one)
                × (result ≡ ok tt)
                × (s'.process.terminated ≡ (posix.wifexited status || posix.wifsignaled status))))
  unfolding wait
  wait_lem s st te =
      let (r, _, _) = posix.waitpid s.process.pid s.process.termination_status s.world in
      (
        ground arith,
        elim (Bool-cases (eqb_ℤ r minus_one)) [
          | inl e ↦ inl ((eqb_ℤ_iff r minus_one).0 e, ground arith, ground arith)
          | inr e ↦ inr (λ same. ground (arith, eqb_ℤ_iff r minus_one), ground arith, ground arith)
        ],
      )

  -- Once a started process counts as terminated, no call signals it or waits for it again: to kill
  -- it, in either mode, and to destroy it change nothing, and to wait for it is a failed assertion.
  pub terminated_is_final :
      (s : Running V) (mode : KillMode)
      → started s.process ≡ true
      → s.process.terminated ≡ true
      → (kill_process posix mode s ≡ (ok tt, s))
        × (destroy posix s ≡ (ok tt, s))
        × (wait posix s ≡ (stop aborted, s))
  unfolding kill_process destroy wait
  terminated_is_final s mode st te = (ground arith, ground arith, ground arith)

  -- Let a process run, and let the kill succeed. After a move, the destructor of the old object
  -- kills the process and waits for it, while the new object has its pid and counts it as running.
  pub destroy-moved :
      (p : Process V) (v : V) (config : ProcessConfig V) (args : List String)
      → started p ≡ true
      → p.terminated ≡ false
      → (posix.kill p.pid posix.sigkill v).0 ≢ minus_one
      → let (new, old) = move p config args in
        ((destroy posix (record { process = old; world = v })).1.world
          ≡ (posix.waitpid p.pid p.termination_status (posix.kill p.pid posix.sigkill v).1).2)
        × (new.pid ≡ p.pid)
        × (new.terminated ≡ false)
  unfolding move destroy kill_process wait kill
  destroy-moved p v config args st te k = (ground arith, refl, te)
