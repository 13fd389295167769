-- ===== src/SimpleManager/Setup.antt =====
-- `start_impl` of the simple manager up to its call of `wait_for_any`.

use aser.Prelude.{
  ℤ, ◌<◌, ◌≡◌, refl, sym, ap, ◌∙◌, inl, inr, List, [], ◌++◌, arith, length, lookup, ℤ_key,
}
use aser.Outcome.{ok}
use aser.Queue.{empty}
use aser.ProcessClass.{ProcessClass}
use aser.ProcessClass.Contract.{Contract}
use aser.ProcessClass.Watching.{Watched, WaitKeeps, AllWent, AllWent-map}
use aser.ExecMonitor.{Virtual, running}
use aser.ExecMonitor.Calls.{prepare_lem, start_lem}
use aser.ProcessMonitor.{init}
use aser.Manager.{prepare_exec_monitor, start_exec_monitor}
use aser.SimpleManager.Assumptions.{MonitorReady, Complete}
use aser.SimpleManager.Execution.{Derived, Schedule, Session, on_slots, setup}
use aser.SimpleManager.Indices.{
  AllDifferent, AllAbsent-empty, added, lookup-added, added_only, Distinct-added,
}
use aser.SimpleManager.Futures.{AllReady}
use aser.SimpleManager.Ended.{Inv}
use aser.SimpleManager.Threads.{threads_end_lem}
use aser.SimpleManager.Completion.{
  Aligned, length-Aligned, Aligned-get, add_slots_lem, start_slots_lem,
}
use aser.SimpleManager.{SimpleManager}

module _ {P D W : Type 0} {c : ProcessClass P W} (k : Contract c) (virtual : Virtual D)
    (derived : Derived D W) (schedule : Schedule) where
  open k use {Prepared, Started, Ended}

  module _ (pids : List ℤ) (different : AllDifferent pids) (complete : Complete pids schedule) where
    -- The state in which every process is started and waited for.
    started-Inv :
        (s : Session P D W)
        → Aligned Started pids s.manager.processes
        → s.monitor.status ≡ added pids []
        → Inv k pids (schedule.first ++ (schedule.second ++ schedule.third)) s
    started-Inv s a e = record {
      size = length-Aligned Started pids s.manager.processes a;
      slots = λ i pid at.
          let (p, here, run) = Aligned-get Started pids s.manager.processes i pid a at in
          (
            p,
            here,
            inl (complete.every i pid at, run, ap (lookup pid) e ∙ lookup-added pids [] i pid at),
          );
      only = λ q f there. elim (added_only pids [] q f (sym (ap (lookup q) e) ∙ there)) [
        | inl no_entry ↦ absurd (unfold lookup in cc)
        | inr found ↦ found
      ];
      distinct = rw e (Distinct-added pids [] tt);
    }

    -- Up to the call of `wait_for_any`, it returns and some process has ended.
    pub setup_lem :
        (Went : P → W → Type 0) (Q : W → Type 0)
        → Watched k Went Q
        → (s : SimpleManager P D W) → Aligned Prepared pids s.processes
        → (v : MonitorReady virtual s.base.exec_monitor)
        → (t : Session P D W) × (setup c virtual derived schedule
              (record { manager = s; monitor = init })
            ≡ (ok tt, t))
          × Inv k pids (schedule.second ++ schedule.third) t
          × AllReady t.monitor
          × (0 < length t.monitor.ended_process_queue.queue)
          × (t.manager.base ≡ record (s.base) {
            exec_monitor = record (s.base.exec_monitor) { thread = running; derived = v.ready };
          })
          × AllWent Went s.processes t.manager.system
          × (Q s.system → Q t.manager.system)
    unfolding setup prepare_exec_monitor start_exec_monitor init empty on_slots
    setup_lem Went Q watched s a v =
        let (ps', w', starts, started, went, quiet, _) =
          start_slots_lem k Went Q watched pids s.processes s.system a in
        let u : Session P D W = record {
          manager = record s {
            processes = ps';
            system = w';
            base = record (s.base) {
              exec_monitor = record (s.base.exec_monitor) { thread = running; derived = v.ready };
            };
          };
          monitor = record { status = added pids []; ended_process_queue = empty };
        } in
        let m = s.base.exec_monitor in
        let base_prepared = prepare_lem virtual m v.ready v.initialized v.prepares in
        let base_started = start_lem (record m { derived = v.ready }) v.initialized v.idle in
        let Both : W → Type 0 = λ x. AllWent Went s.processes x × (Q s.system → Q x) in
        let keeps : WaitKeeps k Both = λ pid p x p' x' run waits both. (
          AllWent-map Went s.processes x x' (λ q g. watched.wait_went q pid p x p' x' run waits g)
              both.0,
          λ q. watched.wait_keeps pid p x p' x' run waits (both.1 q),
        ) in
        let (t, ends, inv, base, ready, long, both) =
          threads_end_lem k pids different Both keeps schedule.first
            (schedule.second ++ schedule.third) u complete.once complete.first_inside
            (started-Inv u started refl) in
        (
          t,
          rw
              (
                add_slots_lem c Prepared k.pid_lem pids s.processes init a different
                    (AllAbsent-empty pids),
                base_prepared,
                starts,
                base_started,
              )
              ends,
          inv,
          ready tt,
          omega (arith, long, complete.one_ends),
          base,
          (both (went, quiet)).0,
          (both (went, quiet)).1,
        )
