-- ===== src/SimpleManager/Slots.antt =====
-- The loops of `start_impl` over the processes, in exec_manager/simple.cc.
use aser.Prelude.{ℤ, List, [], ◌∷◌, Option, none, some}
use aser.Outcome.{Exec, Result, thrown, aborted, ok, stop, ◌>>◌}
use aser.ProcessClass.{ProcessClass}
use aser.ProcessMonitor.{ProcessMonitor}
use aser.ProcessMonitor

module _ {P W : Type 0} (c : ProcessClass P W) where
  -- `monitor.add_process(p)` for each process; a pointer that is null would be undefined.
  add_pid : Result ℤ → Exec ProcessMonitor (Unit {0})
  add_pid (ok pid) m = ProcessMonitor.add_process pid m
  add_pid (stop x) m = (stop x, m)

  unfoldable pub add_slots : List (Option P) → Exec ProcessMonitor (Unit {0})
  unfolding add_pid
  add_slots [] m = (ok tt, m)
  add_slots (none ∷ ps) m = (stop aborted, m)
  add_slots (some p ∷ ps) m = (add_pid (c.pid p) >> add_slots ps) m

  -- `p->start()` for each process.
  started :
      List (Option P)
      → (W → Result (Unit {0}) × List (Option P) × W)
      → Result (Unit {0}) × P × W
      → Result (Unit {0}) × List (Option P) × W
  started ps rest (ok _, p, w) = let (r, ps', w') = rest w in (r, some p ∷ ps', w')
  started ps rest (stop x, p, w) = (stop x, some p ∷ ps, w)

  unfoldable pub start_slots : List (Option P) → W → Result (Unit {0}) × List (Option P) × W
  unfolding started
  start_slots [] w = (ok tt, [], w)
  start_slots (none ∷ ps) w = (stop aborted, none ∷ ps, w)
  start_slots (some p ∷ ps) w = started ps (start_slots ps) (c.start p w)

  -- `kill_process(*p)` for each process; the handlers drop every exception.
  killed :
      List (Option P)
      → (W → Result (Unit {0}) × List (Option P) × W)
      → Result (Unit {0}) × P × W
      → Result (Unit {0}) × List (Option P) × W
  killed ps rest (ok _, p, w) = let (r, ps', w') = rest w in (r, some p ∷ ps', w')
  killed ps rest (stop (thrown e), p, w) = let (r, ps', w') = rest w in (r, some p ∷ ps', w')
  killed ps rest (stop x, p, w) = (stop x, some p ∷ ps, w)

  unfoldable pub kill_slots : List (Option P) → W → Result (Unit {0}) × List (Option P) × W
  unfolding killed
  kill_slots [] w = (ok tt, [], w)
  kill_slots (none ∷ ps) w = (stop aborted, none ∷ ps, w)
  kill_slots (some p ∷ ps) w = killed ps (kill_slots ps) (c.kill_process p w)
