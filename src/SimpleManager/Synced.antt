-- ===== src/SimpleManager/Synced.antt =====
-- The simple manager with the class of processes that the source gives it.
use aser.Prelude.{length, ℕ, ℤ, ◌≡◌, true, List, some, get_elem?}
use aser.Outcome.{ok}
use aser.Libc.{Posix}
use aser.ExecMonitor.{ExecMonitor, Virtual, no_thread}
use aser.Process.Sync.Object.{SyncObject, sync_class}
use aser.Process.Sync.Keeping.{
  Willing, sync_contract, SyncPrepared, SyncPrepared-Prepared, Ended-SyncEnded,
}
use aser.ProcessClass.Watching.{AllWent}
use aser.Process.Sync.Recording.{Recorded, Went, sync-Watched, sync-Signalling}
use aser.SimpleManager.Telling.{Told}
use aser.SimpleManager.Execution.{Derived, Schedule, start_impl}
use aser.SimpleManager.Indices.{AllDifferent}
use aser.SimpleManager.Completion.{Aligned, Aligned-map}
use aser.SimpleManager.Whole.{start_impl_lem}
use aser.SimpleManager.Assumptions.{MonitorRuns, Complete}
use aser.SimpleManager.{SimpleManager, prepare_benches}

module _ {D W : Type 0} (posix : Posix W) (willing : Willing posix) (cloexec status : ℤ)
    (garbage : ℕ) (virtual : Virtual D) (derived : Derived D W) (schedule : Schedule)
    (Leaves : ExecMonitor D → Type 0) (recorded : Recorded posix) where
  pub start_impl-sync_class :
      (pids : List ℤ) (s s₁ : SimpleManager (SyncObject W) D W)
      → AllDifferent pids
      → Complete pids schedule
      → prepare_benches (sync_class posix cloexec status garbage) s.benchs s ≡ (ok tt, s₁)
      → Aligned SyncPrepared pids s₁.processes
      → MonitorRuns virtual derived schedule Leaves
          (AllWent (Went recorded) s₁.processes)
          s₁.base.exec_monitor
      → (s' : SimpleManager (SyncObject W) D W) × (start_impl
            (sync_class posix cloexec status garbage)
            virtual
            derived
            schedule
            s
          ≡ some (ok tt, s'))
        × (s'.base.execution_ended ≡ true)
        × (s'.base.exec_monitor.thread ≡ no_thread)
        × Leaves s'.base.exec_monitor
        × (length s'.processes ≡ length pids)
        × ((i : ℕ) (pid : ℤ)
            → get_elem? pids i ≡ some pid
            → (o : SyncObject W) × (get_elem? s'.processes i ≡ some (some o))
              × (o.process.pid ≡ pid)
              × (o.process.terminated ≡ true))
        × Told recorded schedule pids s₁.processes s'.system
  start_impl-sync_class pids s s₁ different complete prepared aligned runs =
      let k = sync_contract posix willing cloexec status garbage in
      let ready =
        Aligned-map SyncPrepared k.Prepared pids s₁.processes
          (SyncPrepared-Prepared posix willing cloexec status garbage) aligned in
      let (s', returns, over, joined, known, size, all, went, shot) =
        start_impl_lem k virtual derived schedule Leaves (Went recorded) recorded.Signalled
          (sync-Watched posix willing cloexec status garbage recorded)
          (sync-Signalling posix willing cloexec status garbage recorded) pids different complete s
          s₁ prepared ready runs in
      (
        s',
        returns,
        over,
        joined,
        known,
        size,
        λ i pid at.
            let (o, here, ended) = all i pid at in
            let (has, terminated) =
              Ended-SyncEnded posix willing cloexec status garbage pid o ended in
            (o, here, has.0, terminated),
        record { went = went; shot = shot },
      )
