-- ===== src/SimpleManager/Whole.antt =====
-- `start_impl` of the simple manager from its call to its return.
use mathlib.Core.List.{append-nil}
use mathlib.Core.Path.{subst}
use aser.Prelude.{
  ℕ, ℤ, ◌<◌, ◌≡◌, ◌⊎◌, sym, ap, ◌∙◌, inl, inr, true, List, [], ◌++◌, Option, some, arith, length,
  get_elem?, ℤ_key,
}
use aser.Outcome.{ok}
use aser.ProcessClass.{ProcessClass}
use aser.ProcessClass.Contract.{Contract}
use aser.ProcessClass.Watching.{WaitKeeps, Watched, Signalling, AllWent, AllWent-map}
use aser.ExecMonitor.{ExecMonitor, Virtual, no_thread, running}
use aser.ExecMonitor.Calls.{join_lem, finalize_lem}
use aser.Manager.{ExecManager, execution_end, stop_exec_monitor}
use aser.SimpleManager.Assumptions.{MonitorRuns, ready_of, Complete}
use aser.SimpleManager.Execution.{
  Derived, Schedule, Session, on_slots, run_monitor, joined, cleaned_up, body_after, waited,
  futures_got, execute, on_base, body, leave_scope, start_impl,
}
use aser.SimpleManager.Indices.{AllDifferent, contains, Once, Once-append_right, get_of_lt}
use aser.SimpleManager.Ended.{Inv}
use aser.SimpleManager.Setup.{setup_lem}
use aser.SimpleManager.Threads.{threads_end_lem, wait_for_any_returns, all_settled}
use aser.SimpleManager.Completion.{Aligned, kill_slots_lem}
use aser.SimpleManager.{SimpleManager, prepare_benches}

-- The base when the thread of the monitor is about to be joined.
abbrev ran : {D : Type 0} → D → ExecManager D → ExecManager D
ran d base = record {
  exec_monitor = record (base.exec_monitor) { thread = running; derived = d };
  execution_ended = true;
}

abbrev with_base : {P D W : Type 0} → ExecManager D → Session P D W → Session P D W
with_base base s = record s { manager = record (s.manager) { base = base } }

module _ {P D W : Type 0} {c : ProcessClass P W} (k : Contract c) (virtual : Virtual D)
    (derived : Derived D W) (schedule : Schedule) (Leaves : ExecMonitor D → Type 0)
    (Went : P → W → Type 0) (Shot : ℤ → W → Type 0) (watched : Watched k Went (λ w. Unit {0}))
    (signalling : Signalling k Went Shot) where
  open k use {Prepared, Started, Ended}

  module _ (pids : List ℤ) (different : AllDifferent pids) (complete : Complete pids schedule) where
    -- Each process runs or has ended.
    alive :
        (left : List ℕ) (s : Session P D W)
        → Inv k pids left s
        → (i : ℕ) → i < length s.manager.processes
        → (pid : ℤ) × (p : P) × (get_elem? s.manager.processes i ≡ some (some p))
          × (Started pid p ⊎ Ended pid p)
    alive left s v i h =
        let (pid, at) = get_of_lt pids i (omega (arith, v.size)) in
        let (p, here, phase) = v.slots i pid at in
        (pid, p, here, elim phase [ inl (_, run, _) ↦ inl run | inr (_, end, _) ↦ inr end ])

    AllWent-waits : (ps : List (Option P)) → WaitKeeps k (AllWent Went ps)
    AllWent-waits ps pid p w p' w' run waits =
        AllWent-map Went ps w w' (λ q. watched.wait_went q pid p w p' w' run waits)

    -- From there to the end of the scope of the process monitor: the thread of the monitor ends, and
    -- is joined, and every process is killed.
    rest_lem :
        (ps : List (Option P)) (s : Session P D W)
        → (v : MonitorRuns virtual derived schedule Leaves
            (AllWent Went ps)
            s.manager.base.exec_monitor)
        → Inv k pids (schedule.second ++ schedule.third) s
        → (u : Session P D W) × (cleaned_up c virtual derived schedule
              (run_monitor c virtual derived schedule (with_base (ran v.ready s.manager.base) s))
            ≡ some (ok tt, u))
          × Inv k pids schedule.third u
          × (u.manager.base.execution_ended ≡ true)
          × (u.manager.base.exec_monitor.thread ≡ no_thread)
          × Leaves u.manager.base.exec_monitor
          × (AllWent Went ps s.manager.system → AllWent Went ps u.manager.system)
          × ((i : ℕ) (pid : ℤ)
              → get_elem? pids i ≡ some pid
              → contains i schedule.third ≡ true
              → Shot pid u.manager.system)
    unfolding run_monitor joined cleaned_up stop_exec_monitor on_slots on_base
    rest_lem ps s v inv =
        let w = s.manager.system in
        let (m', d, runs, ini, busy, fin, leaves, quiet) = v.runs w in
        let stopped = record m' { thread = no_thread; derived = d } in
        let s₃ : Session P D W = record {
          manager = record (s.manager) {
            base = record { exec_monitor = stopped; execution_ended = true };
            system = derived.leave m'.derived w;
          };
          monitor = s.monitor;
        } in
        let inv₃ : Inv k pids (schedule.second ++ schedule.third) s₃ = record {
          size = inv.size;
          slots = inv.slots;
          only = inv.only;
          distinct = inv.distinct;
        } in
        let (u, ends, inv', base, _, _, waits) =
          threads_end_lem k pids different (AllWent Went ps) (AllWent-waits ps) schedule.second
            schedule.third s₃
            (Once-append_right schedule.first (schedule.second ++ schedule.third) complete.once)
            complete.second_inside inv₃ in
        let (w', kills, kept, _, shot) =
          kill_slots_lem k Went Shot signalling u.manager.processes u.manager.system
            (alive schedule.third u inv') in
        (
          record u { manager = record (u.manager) { system = w' } },
          rw (
            runs,
            join_lem m' ini busy,
            finalize_lem virtual (record m' { thread = no_thread }) d ini fin,
            ends,
            kills,
          ),
          record {
            size = inv'.size;
            slots = inv'.slots;
            only = inv'.only;
            distinct = inv'.distinct;
          },
          ap (λ b. b.execution_ended) base,
          ap (λ b. b.exec_monitor.thread) base,
          subst (λ b. Leaves b.exec_monitor) (sym base) leaves,
          (λ went. AllWent-map Went ps u.manager.system w' kept (waits (quiet went))),
          λ i pid at third.
              let (p, here, phase) = inv'.slots i pid at in
              elim phase [
                | inl (_, run, _) ↦ shot i pid p here run
                | inr (absent, _, _) ↦ absurd (let both = third in cc)
              ],
        )

    -- The last threads end, and the destructor of the process monitor gets every future.
    leave_lem :
        (Q : W → Type 0)
        → WaitKeeps k Q
        → (u : Session P D W) → Inv k pids schedule.third u
        → (s' : SimpleManager P D W) × (leave_scope c virtual derived schedule (some (ok tt, u))
            ≡ some (ok tt, s'))
          × (s'.base ≡ u.manager.base)
          × (length s'.processes ≡ length pids)
          × ((i : ℕ) (pid : ℤ)
              → get_elem? pids i ≡ some pid
              → (p : P) × (get_elem? s'.processes i ≡ some (some p)) × Ended pid p)
          × (Q u.manager.system → Q s'.system)
    unfolding leave_scope futures_got
    leave_lem Q keeps u v =
        let no_more = append-nil schedule.third in
        let once =
          Once-append_right schedule.second schedule.third
            (Once-append_right schedule.first (schedule.second ++ schedule.third) complete.once) in
        let (s, ends, inv, base, _, _, quiet) =
          threads_end_lem k pids different Q keeps schedule.third [] u
            (subst Once (sym no_more) once) complete.third_inside
            (subst (λ l. Inv k pids l u) (sym no_more) v) in
        (
          s.manager,
          rw (ends, futures_got, all_settled k pids s inv),
          base,
          inv.size,
          λ i pid at.
              let (p, here, phase) = inv.slots i pid at in
              (
                p,
                here,
                elim phase [ inl (more, _, _) ↦ absurd (ground arith) | inr (_, e, _) ↦ e ],
              ),
          quiet,
        )

    -- Every object was told to start, and every process of the third part of the schedule was killed.
    abbrev Told : List (Option P) → W → Type 0
    Told ps w =
        AllWent Went ps w
        × ((i : ℕ) (pid : ℤ)
            → get_elem? pids i ≡ some pid
            → contains i schedule.third ≡ true
            → Shot pid w)

    Told-waits : (ps : List (Option P)) → WaitKeeps k (Told ps)
    Told-waits ps pid p w p' w' run waits (went, shot) = (
      AllWent-waits ps pid p w p' w' run waits went,
      λ i q at third. signalling.wait_shot q pid p w p' w' run waits (shot i q at third),
    )

    -- Let the class of processes keep its contract, and let the monitor do its part. Let the
    -- benchmarks be prepared, with different pids, and let each process end once, at least one of
    -- them before `wait_for_any` returns. Then `start_impl` returns, and no thread waits any more:
    -- the execution is over, the thread of the monitor is joined, and every process has ended and
    -- was waited for, and the monitor is as its part says. Moreover `start` was called on every object that
    -- the preparation has left, and every process that had not ended before the loop that kills them was killed.
    pub start_impl_lem :
        (s s₁ : SimpleManager P D W)
        → prepare_benches c s.benchs s ≡ (ok tt, s₁)
        → Aligned Prepared pids s₁.processes
        → MonitorRuns virtual derived schedule Leaves
            (AllWent Went s₁.processes)
            s₁.base.exec_monitor
        → (s' : SimpleManager P D W) × (start_impl c virtual derived schedule s ≡ some (ok tt, s'))
          × (s'.base.execution_ended ≡ true)
          × (s'.base.exec_monitor.thread ≡ no_thread)
          × Leaves s'.base.exec_monitor
          × (length s'.processes ≡ length pids)
          × ((i : ℕ) (pid : ℤ)
              → get_elem? pids i ≡ some pid
              → (p : P) × (get_elem? s'.processes i ≡ some (some p)) × Ended pid p)
          × AllWent Went s₁.processes s'.system
          × ((i : ℕ) (pid : ℤ)
              → get_elem? pids i ≡ some pid
              → contains i schedule.third ≡ true
              → Shot pid s'.system)
    unfolding start_impl execute body body_after waited on_base execution_end
    start_impl_lem s s₁ prepared a v =
        let (t, sets, inv, ready, long, base, went, _) =
          setup_lem k virtual derived schedule pids different complete Went (λ w. Unit {0}) watched
            s₁ a (ready_of v) in
        let (r, m, waits, inv₂) = wait_for_any_returns k pids different _ t ready long inv in
        let t₂ : Session P D W = with_base s₁.base (record t { monitor = m }) in
        let inv₃ : Inv k pids (schedule.second ++ schedule.third) t₂ = record {
          size = inv₂.size;
          slots = inv₂.slots;
          only = inv₂.only;
          distinct = inv₂.distinct;
        } in
        let (u, cleans, inv₄, over, idle, known, goes, kills) = rest_lem s₁.processes t₂ v inv₃ in
        let (s', leaves, same, size, all, keeps) =
          leave_lem (Told s₁.processes) (Told-waits s₁.processes) u inv₄ in
        let (still_went, still_shot) = keeps (goes went, kills) in
        let run =
          ap
            (λ b. cleaned_up c virtual derived schedule (
              run_monitor c virtual derived schedule
                (with_base (record b { execution_ended = true }) (record t { monitor = m }))))
            base in
        (
          s',
          rw (prepared, sets, waits)
              (ap (leave_scope c virtual derived schedule) (run ∙ cleans) ∙ leaves),
          ap (λ b. b.execution_ended) same ∙ over,
          ap (λ b. b.exec_monitor.thread) same ∙ idle,
          subst (λ b. Leaves b.exec_monitor) (sym same) known,
          size,
          all,
          still_went,
          still_shot,
        )
