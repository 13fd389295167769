-- ===== src/SimpleManager/Execution.antt =====
-- `start_impl` of exec_manager/simple.cc, with the threads that run meanwhile.
use aser.Prelude.{ℕ, ℤ, List, [], ◌∷◌, Option, none, some, replicate, get_elem?, set}
use aser.Outcome.{Exec, Result, thrown, aborted, ok, stop, ◌>>◌}
use aser.ProcessClass.{ProcessClass}
use aser.ExecMonitor.{ExecMonitor, Virtual, run_thread}
use aser.ProcessMonitor.{
  ProcessMonitor, Waited, blocked, done, wait_for_process, finish, may_be_destroyed, wait_for_any,
}
use aser.ProcessMonitor
use aser.Manager.{
  ExecManager, execution_end, prepare_exec_monitor, start_exec_monitor, stop_exec_monitor,
}
use aser.SimpleManager.Slots.{add_slots, start_slots, kill_slots}
use aser.SimpleManager.{SimpleManager, prepare_benches}

-- The system as the object of a derived monitor sees it, while its thread runs.
pub record Derived (D W : Type 0) : Type 0 where
  pub enter : W → D → D
  pub leave : D → W → W

-- What other threads do meanwhile: the slots of the processes whose wait ends before `wait_for_any`
-- returns, before the processes are killed, and before the process monitor is destroyed; how often
-- the monitor runs its loop; and fuel for the events of one run.
pub record Schedule : Type 0 where
  pub first : List ℕ
  pub second : List ℕ
  pub third : List ℕ
  pub rounds : ℕ
  pub fuel : ℕ

-- The manager, with the local `monitor` of `start_impl`.
pub record Session (P D W : Type 0) : Type 0 where
  pub manager : SimpleManager P D W
  pub monitor : ProcessMonitor

-- How the thread of a wait ends: its future has the status, or the exception; a failed assertion
-- ends the program.
settle : ℤ → Result ℤ → ProcessMonitor → Result (Unit {0}) × ProcessMonitor
settle pid (ok st) m = (ok tt, finish pid st (wait_for_process pid (ok st) m))
settle pid (stop (thrown e)) m = (ok tt, wait_for_process pid (stop (thrown e)) m)
settle pid (stop x) m = (stop x, m)

settled : Result ℤ → Result ℤ → Exec ProcessMonitor (Unit {0})
unfolding settle
settled (ok pid) status m = settle pid status m
settled (stop x) status m = (stop x, m)

-- `wait_for_process` of the process monitor, on the object in a slot.
status_of : {P W : Type 0} → ProcessClass P W → Result (Unit {0}) → P → Result ℤ
status_of c (ok _) p = c.termination_status p
status_of c (stop x) p = stop x

module _ {P D W : Type 0} where
  unfoldable pub on_base : Exec (ExecManager D) (Unit {0}) → Exec (Session P D W) (Unit {0})
  on_base call s =
      let (r, b) = call s.manager.base in
      (r, record s { manager = record (s.manager) { base = b } })

  on_monitor : Exec ProcessMonitor (Unit {0}) → Exec (Session P D W) (Unit {0})
  on_monitor call s = let (r, m) = call s.monitor in (r, record s { monitor = m })

  unfoldable pub on_slots :
      (List (Option P) → W → Result (Unit {0}) × List (Option P) × W)
      → Exec (Session P D W) (Unit {0})
  on_slots loop s =
      let (r, ps, w) = loop s.manager.processes s.manager.system in
      (r, record s { manager = record (s.manager) { processes = ps; system = w } })

  wait_slot : ProcessClass P W → ℕ → Option (Option P) → Exec (Session P D W) (Unit {0})
  unfolding settled status_of
  wait_slot c i (some (some p)) s =
      let (r, p', w) = c.wait p s.manager.system in
      let (r', m) = settled (c.pid p') (status_of c r p') s.monitor in
      (
        r',
        record {
          manager = record (s.manager) {
            processes = set s.manager.processes i (some p');
            system = w;
          };
          monitor = m;
        },
      )
  wait_slot c i (some none) s = (stop aborted, s)
  wait_slot c i none s = (stop aborted, s)

  unfoldable pub thread_ends : ProcessClass P W → ℕ → Exec (Session P D W) (Unit {0})
  unfolding wait_slot
  thread_ends c i s = wait_slot c i (get_elem? s.manager.processes i) s

  unfoldable pub threads_end : ProcessClass P W → List ℕ → Exec (Session P D W) (Unit {0})
  unfolding thread_ends
  threads_end c [] s = (ok tt, s)
  threads_end c (i ∷ is) s = (thread_ends c i >> threads_end c is) s

module _ {P D W : Type 0} (c : ProcessClass P W) (virtual : Virtual D) (derived : Derived D W)
    (schedule : Schedule) where
  open schedule use {first, second, third, rounds, fuel}

  -- `start_impl` from the declaration of `monitor` to the call of `wait_for_any`.
  unfoldable pub setup : Exec (Session P D W) (Unit {0})
  unfolding on_base on_monitor on_slots
  setup s =
      (on_monitor (add_slots c s.manager.processes)
          >> (on_base (prepare_exec_monitor virtual)
              >> (on_slots (start_slots c) >> (on_base start_exec_monitor >> threads_end c first))))
        s

  -- The thread of the monitor runs until it sees that the execution is over; an exception in it ends
  -- the program. `none`: it has used up its fuel.
  unfoldable pub joined :
      Session P D W
      → Option (Result (Unit {0}) × ExecMonitor D)
      → Option (Result (Unit {0}) × Session P D W)
  joined s none = none
  joined s (some (stop x, m)) = some (stop aborted, s)
  joined s (some (ok _, m)) = some (
    ok tt,
    record s {
      manager = record (s.manager) {
        base = record (s.manager.base) { exec_monitor = m };
        system = derived.leave m.derived s.manager.system;
      };
    },
  )

  unfoldable pub run_monitor : Session P D W → Option (Result (Unit {0}) × Session P D W)
  unfolding joined
  run_monitor s =
      let m = s.manager.base.exec_monitor in
      joined s (
        run_thread virtual fuel (replicate rounds [])
          (record m { derived = derived.enter s.manager.system m.derived }))

  unfoldable pub cleaned_up :
      Option (Result (Unit {0}) × Session P D W) → Option (Result (Unit {0}) × Session P D W)
  unfolding on_base on_slots
  cleaned_up none = none
  cleaned_up (some (stop x, s)) = some (stop x, s)
  cleaned_up (some (ok _, s)) =
      some (
        (on_base (stop_exec_monitor virtual) >> (threads_end c second >> on_slots (kill_slots c)))
          s)

  -- The rest, on what `wait_for_any` does.
  unfoldable pub waited : Waited → Session P D W → Option (Result (Unit {0}) × Session P D W)
  unfolding run_monitor cleaned_up on_base
  waited blocked s = none
  waited (done (stop x) m) s = some (stop x, record s { monitor = m })
  waited (done (ok _) m) s =
      cleaned_up (run_monitor (on_base execution_end (record s { monitor = m })).1)

  unfoldable pub body_after :
      Result (Unit {0}) × Session P D W → Option (Result (Unit {0}) × Session P D W)
  unfolding waited
  body_after (stop x, s) = some (stop x, s)
  body_after (ok _, s) = waited (wait_for_any s.monitor) s

  unfoldable pub body : Session P D W → Option (Result (Unit {0}) × Session P D W)
  unfolding body_after setup
  body s = body_after (setup s)

  -- The destructor of `monitor`, which gets every future: it blocks while one of them waits.
  unfoldable pub futures_got :
      Result (Unit {0})
      → Result (Unit {0}) × Session P D W
      → Option (Result (Unit {0}) × SimpleManager P D W)
  futures_got r (stop x, s) = some (stop x, s.manager)
  futures_got r (ok _, s) = elim (may_be_destroyed s.monitor.status) [
    | none ↦ none
    | some _ ↦ some (r, s.manager)
  ]

  unfoldable pub leave_scope :
      Option (Result (Unit {0}) × Session P D W) → Option (Result (Unit {0}) × SimpleManager P D W)
  unfolding futures_got
  leave_scope none = none
  leave_scope (some (ok _, s)) = futures_got (ok tt) (threads_end c third s)
  leave_scope (some (stop (thrown e), s)) = futures_got (stop (thrown e)) (threads_end c third s)
  leave_scope (some (stop x, s)) = some (stop x, s.manager)

  unfoldable pub execute :
      Result (Unit {0}) × SimpleManager P D W → Option (Result (Unit {0}) × SimpleManager P D W)
  unfolding leave_scope body
  execute (stop x, s) = some (stop x, s)
  execute (ok _, s) = leave_scope (body (record { manager = s; monitor = ProcessMonitor.init }))

  -- `none`: the call waits forever.
  unfoldable pub start_impl : SimpleManager P D W → Option (Result (Unit {0}) × SimpleManager P D W)
  unfolding execute
  start_impl s = execute (prepare_benches c s.benchs s)
