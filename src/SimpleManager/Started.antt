-- ===== src/SimpleManager/Started.antt =====
-- A call of `start` with the class of processes that the source gives the simple manager, from the
-- constructor of the manager on, whatever its monitor.
use aser.Prelude.{
  map, ℕ, ℤ, ◌^◌, ◌<◌, ◌≡◌, sym, ap, ◌∙◌, true, List, [], some, length, get_elem?, replicate, false,
  ◌++◌,
}
use mathlib.Core.Path.{subst}
use aser.Outcome.{Stop, aborted, ok, stop}
use aser.Libc.{Posix}
use aser.Benchmark.{Benchmark}
use aser.ExecMonitor.{ExecMonitor, Virtual, no_thread, running, run_thread, initialize}
use aser.Manager.{ExecManager}
use aser.Manager
use aser.Process.Sync.Object.{SyncObject, sync_class}
use aser.Process.Sync.Keeping.{
  Willing, sync_contract, SyncPrepared, SyncPrepared-Prepared, Started-SyncStarted,
}
use aser.Process.Sync.Preparing.{Opens, Prepared-SyncPrepared}
use aser.ProcessClass.Watching.{AllWent}
use aser.Process.Sync.Recording.{Recorded, Went, Quiet, sync-quiet}
use aser.SimpleManager.Telling.{Told}
use aser.SimpleManager.Execution.{Derived, Schedule}
use aser.SimpleManager.Indices.{contains, AllDifferent}
use aser.SimpleManager.Completion.{Aligned, Aligned-map}
use aser.SimpleManager.Assumptions.{MonitorReady, MonitorRuns, Complete}
use aser.SimpleManager.Announcing.{Announced, notified, prepare_benches-notified}
use aser.SimpleManager.Synced.{start_impl-sync_class}
use aser.SimpleManager.Aborting.{start_impl-aborted}
use aser.SimpleManager.Destroying.{AllTerminated, close_all, destroy, destroy-close_all}
use aser.SimpleManager.Starting.{start, start-start_impl}
use aser.SimpleManager.{SimpleManager, construct, assign_ids, prepare_benches}
use aser.SimpleManager.Pids.{pids_of, pids_of-Aligned, slots_lem}

module _ {D W : Type 0} (virtual : Virtual D) (derived : Derived D W) (schedule : Schedule) where
  -- The monitor can be started, and its thread stops by an exception whatever system it finds.
  abbrev pub Throws : ExecMonitor D → Type 0
  Throws m =
      (v : MonitorReady virtual m) × ((w : W)
        → (x : Stop) × (m' : ExecMonitor D) × (run_thread virtual schedule.fuel
              (replicate schedule.rounds [])
              (record m { thread = running; derived = derived.enter w v.ready })
            ≡ some (stop x, m')))

module _ {D W : Type 0} (posix : Posix W) (willing : Willing posix) (opens : Opens posix)
    (cloexec status : ℤ) (garbage : ℕ) (virtual : Virtual D) (derived : Derived D W)
    (schedule : Schedule) where
  Announced-SyncPrepared :
      (pid : ℤ) (o : SyncObject W)
      → Announced (sync_class posix cloexec status garbage) pid o
      → SyncPrepared pid o
  Announced-SyncPrepared pid o (args, q, same) =
      subst (λ z. SyncPrepared z o) same
        (Prepared-SyncPrepared posix cloexec status garbage opens args o q)

  -- What the preparation has left in the slots and in the queue of the monitor.
  prepared_lem :
      (base : ExecManager D) (benchs : List Benchmark) (w : W)
      (s₁ : SimpleManager (SyncObject W) D W)
      → length benchs < 2 ^ 32
      → prepare_benches
          (sync_class posix cloexec status garbage)
          (assign_ids 0 benchs)
          (construct base benchs w)
        ≡ (ok tt, s₁)
      → Aligned SyncPrepared (pids_of s₁.processes) s₁.processes
        × (s₁.base ≡ notified (pids_of s₁.processes) base)
        × (length (pids_of s₁.processes) ≡ length benchs)
  prepared_lem base benchs w s₁ room prepared =
      let c = sync_class posix cloexec status garbage in
      let (pids, announced, notifies, long) =
        prepare_benches-notified c base benchs w s₁ room prepared in
      let aligned =
        Aligned-map (Announced c) SyncPrepared pids s₁.processes Announced-SyncPrepared announced in
      let same = pids_of-Aligned pids s₁.processes aligned in
      (
        subst (λ l. Aligned SyncPrepared l s₁.processes) same aligned,
        notifies ∙ ap (λ l. notified l base) same,
        ap length (sym same) ∙ long,
      )

  -- `s₁` is the manager, with its initialized monitor, after the preparation of the benchmarks.
  pub start_lem :
      (recorded : Recorded posix) (Leaves : ExecMonitor D → Type 0) (m m' : ExecMonitor D)
      (benchs : List Benchmark) (w : W) (s₁ : SimpleManager (SyncObject W) D W)
      → initialize virtual m ≡ (ok tt, m')
      → length benchs < 2 ^ 32
      → prepare_benches
          (sync_class posix cloexec status garbage)
          (assign_ids 0 benchs)
          (construct (Manager.construct m') benchs w)
        ≡ (ok tt, s₁)
      → AllDifferent (pids_of s₁.processes)
      → Complete (pids_of s₁.processes) schedule
      → (length (pids_of s₁.processes) ≡ length benchs
          → MonitorRuns virtual derived schedule Leaves
              (AllWent (Went recorded) s₁.processes)
              (notified (pids_of s₁.processes) (Manager.construct m')).exec_monitor)
      → (s' : SimpleManager (SyncObject W) D W) × (os : List (SyncObject W)) × (start
            (sync_class posix cloexec status garbage)
            virtual
            derived
            schedule
            (construct (Manager.construct m) benchs w)
          ≡ some (ok tt, s'))
        × (s'.base.execution_ended ≡ true)
        × (s'.base.exec_monitor.thread ≡ no_thread)
        × Leaves s'.base.exec_monitor
        × (s'.processes ≡ map some os)
        × (map (λ o. o.process.pid) os ≡ pids_of s₁.processes)
        × AllTerminated os
        × Told recorded schedule (pids_of s₁.processes) s₁.processes s'.system
        × ((destroy_derived : D → W → W)
            → destroy (sync_class posix cloexec status garbage) destroy_derived s' ≡ (
              ok tt,
              destroy_derived s'.base.exec_monitor.derived (close_all posix os s'.system),
            ))
  unfolding construct Manager.construct
  start_lem recorded Leaves m m' benchs w s₁ initialized room prepared different complete runs =
      let c = sync_class posix cloexec status garbage in
      let (aligned, base, long) = prepared_lem (Manager.construct m') benchs w s₁ room prepared in
      let (s', returns, over, idle, known, size, all, told) =
        start_impl-sync_class posix willing cloexec status garbage virtual derived schedule Leaves
          recorded (pids_of s₁.processes) (construct (Manager.construct m') benchs w) s₁ different
          complete prepared aligned
          (subst
            (λ b.
              MonitorRuns virtual derived schedule Leaves (AllWent (Went recorded) s₁.processes)
                b.exec_monitor)
            (sym base) (runs long)) in
      let (os, slots, same, gone) = slots_lem (pids_of s₁.processes) s'.processes size all in
      (
        s',
        os,
        start-start_impl c virtual derived schedule (construct (Manager.construct m) benchs w) m'
              initialized
            ∙ returns,
        over,
        idle,
        known,
        slots,
        same,
        gone,
        told,
        λ destroy_derived.
            destroy-close_all posix willing.closes cloexec status garbage destroy_derived s' os
              slots gone idle,
      )

  -- The same call, when an exception leaves the thread of the monitor.
  pub start-aborted :
      (Q : W → Type 0)
      → Quiet posix Q
      → (m m' : ExecMonitor D) (benchs : List Benchmark) (w : W)
        (s₁ : SimpleManager (SyncObject W) D W)
      → initialize virtual m ≡ (ok tt, m')
      → length benchs < 2 ^ 32
      → prepare_benches
          (sync_class posix cloexec status garbage)
          (assign_ids 0 benchs)
          (construct (Manager.construct m') benchs w)
        ≡ (ok tt, s₁)
      → AllDifferent (pids_of s₁.processes)
      → Complete (pids_of s₁.processes) schedule
      → (length (pids_of s₁.processes) ≡ length benchs
          → Throws virtual derived schedule
              (notified (pids_of s₁.processes) (Manager.construct m')).exec_monitor)
      → (s' : SimpleManager (SyncObject W) D W) × (start
            (sync_class posix cloexec status garbage)
            virtual
            derived
            schedule
            (construct (Manager.construct m) benchs w)
          ≡ some (stop aborted, s'))
        × ((i : ℕ) (pid : ℤ)
            → get_elem? (pids_of s₁.processes) i ≡ some pid
            → contains i (schedule.second ++ schedule.third) ≡ true
            → (o : SyncObject W) × (get_elem? s'.processes i ≡ some (some o))
              × (o.process.pid ≡ pid)
              × (o.process.terminated ≡ false))
        × (Q s₁.system → Q s'.system)
  unfolding construct Manager.construct
  start-aborted Q quiet m m' benchs w s₁ initialized room prepared different complete throws =
      let c = sync_class posix cloexec status garbage in
      let (aligned, base, long) = prepared_lem (Manager.construct m') benchs w s₁ room prepared in
      let ready =
        Aligned-map SyncPrepared (sync_contract posix willing cloexec status garbage).Prepared
          (pids_of s₁.processes) s₁.processes
          (SyncPrepared-Prepared posix willing cloexec status garbage) aligned in
      let (v, stops) =
        subst (λ b. Throws virtual derived schedule b.exec_monitor) (sym base) (throws long) in
      let (s', aborts, rest, kept) =
        start_impl-aborted (sync_contract posix willing cloexec status garbage) virtual derived
          schedule (λ o w. Unit {0}) Q (sync-quiet posix willing cloexec status garbage Q quiet)
          (pids_of s₁.processes) different complete (construct (Manager.construct m') benchs w) s₁
          prepared ready v stops in
      (
        s',
        start-start_impl c virtual derived schedule (construct (Manager.construct m) benchs w) m'
              initialized
            ∙ aborts,
        λ i pid at left.
            let (o, here, run) = rest i pid at left in
            let (has, live) = Started-SyncStarted posix willing cloexec status garbage pid o run in
            (o, here, has.0, live),
        kept,
      )
