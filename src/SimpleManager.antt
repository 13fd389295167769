-- ===== src/SimpleManager.antt =====
-- exec_manager/simple.h and exec_manager/simple.cc: the manager that runs its benchmarks until the
-- first of them ends. Its class of processes is an argument; Process/Sync/Object has the one that the
-- source names.
pub mod Slots
pub mod Execution
pub mod Indices
pub mod Futures
pub mod Ended
pub mod Threads
pub mod Completion
pub mod Assumptions
pub mod Bench
pub mod Preparing
pub mod Announcing
pub mod Setup
pub mod Whole
pub mod Unwinding
pub mod Telling
pub mod Synced
pub mod Killing
pub mod Aborting
pub mod Destroying
pub mod Starting
pub mod Pids
pub mod Started
pub mod WithSimple
pub mod HopperRuns
pub mod WithHopper
pub mod SamplerRuns
pub mod WithSampler
pub mod Succeeding
pub mod Refused
use aser.Prelude.{
  ℕ, ◌+◌, ◌%◌, ◌^◌, ℤ, List, [], ◌∷◌, Option, none, some, length, replicate, get_elem?, set,
}
use aser.Outcome.{
  Exec, Result, Stop, Exception, thrown, aborted, exited, replaced, ok, stop, ◌>>=◌, ◌>>◌,
}
use aser.Benchmark.{Benchmark}
use aser.ProcessClass.{ProcessClass}
use aser.Manager.{ExecManager, notify_process_creation}

pub record SimpleManager (P D W : Type 0) : Type 0 where
  pub benchs : List Benchmark
  pub processes : List (Option P)
  pub base : ExecManager D
  pub system : W

-- The numbers that the constructor gives to the benchmarks; `id` is an `unsigned`.
unfoldable pub assign_ids : ℕ → List Benchmark → List Benchmark
assign_ids id [] = []
assign_ids id (b ∷ bs) = record b { id = id } ∷ assign_ids ((id + 1) % 2 ^ 32) bs

-- The constructor, on the base that it constructs and the benchmarks that it parses.
unfoldable pub construct :
    {P D W : Type 0} → ExecManager D → List Benchmark → W → SimpleManager P D W
construct base benchs w = record {
  benchs = assign_ids 0 benchs;
  processes = replicate (length benchs) none;
  base = base;
  system = w;
}

-- An exception that meets one of a destructor ends the program.
unfoldable pub after : Result (Unit {0}) → Stop → Result (Unit {0})
after (ok _) x = stop x
after (stop y) x = stop y

module _ {P D W : Type 0} (c : ProcessClass P W) where
  -- An exception leaves the scope of a process.
  dropped : Stop → P → Exec (SimpleManager P D W) (Unit {0})
  unfolding after
  dropped (thrown e) p s =
      let (r, w) = c.destroy p s.system in (after r (thrown e), record s { system = w })
  dropped aborted p s = (stop aborted, s)
  dropped (exited n) p s = (stop (exited n), s)
  dropped replaced p s = (stop replaced, s)

  -- `processes_[id] = …`: to write past the end would be undefined, and a process that was there is
  -- destroyed.
  stored : Option (Option P) → ℕ → P → Exec (SimpleManager P D W) (Unit {0})
  stored none id p s = (stop aborted, s)
  stored (some none) id p s = (ok tt, record s { processes = set s.processes id (some p) })
  stored (some (some old)) id p s =
      let (r, w) = c.destroy old s.system in
      (r, record s { processes = set s.processes id (some p); system = w })

  announced : ℕ → P → Result ℤ → Exec (SimpleManager P D W) (Unit {0})
  unfolding stored notify_process_creation
  announced id p (stop x) s = (stop x, s)
  announced id p (ok pid) s =
      stored (get_elem? s.processes id) id p
        (record s { base = (notify_process_creation pid s.base).1 })

  readied : ℕ → Result (Unit {0}) × P × W → Exec (SimpleManager P D W) (Unit {0})
  unfolding announced dropped
  readied id (ok _, p, w) s = announced id p (c.pid p) (record s { system = w })
  readied id (stop x, p, w) s = dropped x p (record s { system = w })

  made : ℕ → Result P × W → Exec (SimpleManager P D W) (Unit {0})
  unfolding readied
  made id (ok p, w) s = readied id (c.prepare p w) s
  made id (stop x, w) s = (stop x, record s { system = w })

  unfoldable pub prepare_bench : Benchmark → Exec (SimpleManager P D W) (Unit {0})
  unfolding made
  prepare_bench bench s = made bench.id (c.make bench.args s.system) s

  unfoldable pub prepare_benches : List Benchmark → Exec (SimpleManager P D W) (Unit {0})
  unfolding prepare_bench
  prepare_benches [] s = (ok tt, s)
  prepare_benches (b ∷ bs) s = (prepare_bench b >> prepare_benches bs) s
