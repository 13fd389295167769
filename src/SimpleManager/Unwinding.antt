-- ===== src/SimpleManager/Unwinding.antt =====
-- `start_impl` of the simple manager when it does not come to its end.
use aser.Prelude.{
  ℤ, ◌<◌, ◌≡◌, refl, true, List, [], ◌∷◌, Option, none, some, arith, length, lookup, ℤ_key,
  eqb_ℤ_iff,
}
use aser.Outcome.{Exception, ok, stop, thrown}
use aser.Queue.{empty}
use aser.ProcessClass.{ProcessClass}
use aser.ExecMonitor.{Virtual}
use aser.ExecMonitor.Calls.{prepare_lem}
use aser.ProcessMonitor.{Future, waiting, notified, ready, failed, init, may_be_destroyed}
use aser.Manager.{prepare_exec_monitor}
use aser.SimpleManager.Slots.{start_slots}
use aser.SimpleManager.Execution.{
  Derived, Schedule, threads_end, setup, body, body_after, futures_got, leave_scope, execute,
  start_impl,
}
use aser.SimpleManager.Indices.{AllDifferent, AllAbsent-empty, added, lookup-added, get_of_lt}
use aser.SimpleManager.Completion.{Aligned, add_slots_lem}
use aser.SimpleManager.{SimpleManager, prepare_benches}

still_waits :
    (s : List (ℤ × Future)) (k : ℤ) → lookup k s ≡ some waiting → may_be_destroyed s ≡ none
unfolding may_be_destroyed lookup
still_waits [] k e = cc
still_waits ((q, waiting) ∷ s) k e = refl
still_waits ((q, notified st) ∷ s) k e = refl
still_waits ((q, ready st) ∷ s) k e = still_waits s k (ground (arith, eqb_ℤ_iff q k))
still_waits ((q, failed x) ∷ s) k e = still_waits s k (ground (arith, eqb_ℤ_iff q k))

module _ {P D W : Type 0} (c : ProcessClass P W) (virtual : Virtual D) (derived : Derived D W)
    (schedule : Schedule) where
  -- The object has that pid.
  abbrev HasPid : ℤ → P → Type 0
  HasPid pid p = c.pid p ≡ ok pid

  -- Let the benchmarks be prepared, at least one, each with its pid and no two the same, and let the monitor be
  -- initialized and its `prepare_impl` return. If the call of `start` on one of them throws, and no
  -- wait for a process ends after that, then `start_impl` does not throw: it waits forever, since the
  -- destructor of the process monitor waits for every process.
  pub start_impl-start_slots :
      (pids : List ℤ) (s s₁ : SimpleManager P D W) (prepared : D) (ps : List (Option P)) (w : W)
      (e : Exception)
      → 0 < length pids
      → AllDifferent pids
      → prepare_benches c s.benchs s ≡ (ok tt, s₁)
      → Aligned HasPid pids s₁.processes
      → s₁.base.exec_monitor.initialized ≡ true
      → virtual.prepare_impl s₁.base.exec_monitor.derived ≡ (ok tt, prepared)
      → start_slots c s₁.processes s₁.system ≡ (stop (thrown e), ps, w)
      → schedule.third ≡ []
      → start_impl c virtual derived schedule s ≡ none
  unfolding start_impl execute body setup body_after leave_scope futures_got threads_end
      prepare_exec_monitor init empty
  start_impl-start_slots pids s s₁ d ps w e some_pid different all a ini prep throws no_end =
      let (pid, at) = get_of_lt pids 0 some_pid in
      let waits = still_waits (added pids []) pid (lookup-added pids [] 0 pid at) in
      rw (
        all,
        add_slots_lem c HasPid (λ pid p h. h) pids s₁.processes init a different
            (AllAbsent-empty pids),
        prepare_lem virtual s₁.base.exec_monitor d ini prep,
        throws,
        no_end,
        threads_end,
        futures_got,
        waits,
      )
