-- ===== src/SimpleManager/Assumptions.antt =====
-- What an execution of the simple manager needs of its monitor and of its schedule.
use aser.Prelude.{ℕ, ℤ, ◌<◌, ◌≡◌, true, List, [], ◌++◌, some, length, get_elem?, ℤ_key, replicate}
use aser.Outcome.{ok}
use aser.ExecMonitor.{ExecMonitor, Virtual, no_thread, running, run_thread}
use aser.SimpleManager.Execution.{Derived, Schedule}
use aser.SimpleManager.Indices.{contains, Once, Inside}

-- The monitor is initialized and has no thread, and its `prepare_impl` returns.
pub record MonitorReady {D : Type 0} (virtual : Virtual D) (m : ExecMonitor D) : Type 0 where
  pub initialized : m.initialized ≡ true
  pub idle : m.thread ≡ no_thread
  pub ready : D
  pub prepares : virtual.prepare_impl m.derived ≡ (ok tt, ready)

-- The monitor does its part: it is initialized and has no thread, its functions return, and its
-- thread ends without an exception on whatever system it finds, with the fuel of the schedule. `Leaves`
-- is what is known of it after that, and what the thread does to the system keeps `Q`.
pub record MonitorRuns {D W : Type 0} (virtual : Virtual D) (derived : Derived D W)
    (schedule : Schedule) (Leaves : ExecMonitor D → Type 0) (Q : W → Type 0) (m : ExecMonitor D)
    : Type 0 where
  pub initialized : m.initialized ≡ true
  pub idle : m.thread ≡ no_thread
  pub ready : D
  pub prepares : virtual.prepare_impl m.derived ≡ (ok tt, ready)
  pub runs :
      (w : W)
      → (m' : ExecMonitor D) × (d : D) × (run_thread virtual schedule.fuel
            (replicate schedule.rounds [])
            (record m { thread = running; derived = derived.enter w ready })
          ≡ some (ok tt, m'))
        × (m'.initialized ≡ true)
        × (m'.thread ≡ running)
        × (virtual.finalize_impl m'.derived ≡ (ok tt, d))
        × Leaves (record m' { thread = no_thread; derived = d })
        × (Q w → Q (derived.leave m'.derived w))

abbrev pub ready_of :
    {D W : Type 0} {virtual : Virtual D} {derived : Derived D W} {schedule : Schedule}
    {Leaves : ExecMonitor D → Type 0} {Q : W → Type 0} {m : ExecMonitor D}
    → MonitorRuns virtual derived schedule Leaves Q m
    → MonitorReady virtual m
ready_of v = record {
  initialized = v.initialized;
  idle = v.idle;
  ready = v.ready;
  prepares = v.prepares;
}

-- Every process of the schedule ends once.
pub record Complete (pids : List ℤ) (schedule : Schedule) : Type 0 where
  pub one_ends : 0 < length schedule.first
  pub once : Once (schedule.first ++ (schedule.second ++ schedule.third))
  pub every :
      (i : ℕ) (pid : ℤ)
      → get_elem? pids i ≡ some pid
      → contains i (schedule.first ++ (schedule.second ++ schedule.third)) ≡ true
  pub first_inside : Inside pids schedule.first
  pub second_inside : Inside pids schedule.second
  pub third_inside : Inside pids schedule.third
