-- ===== src/SimpleManager/HopperRuns.antt =====
-- The thread of a new `cpu_hopper` monitor in an execution of the manager.
use aser.Prelude.{
  ℕ, zero, suc, ℤ, ◌<◌, ◌≡◌, ◌⊎◌, inl, inr, refl, sym, ap, ◌∙◌, true, List, [], ◌∷◌, ◌++◌, some,
  lookup, insert_new, length, replicate, arith,
}
use mathlib.Core.Path.{subst}
use mathlib.Core.List.{append-nil}
use aser.Outcome.{ok}
use aser.Libc.{Posix}
use aser.ExecMonitor.{ExecMonitor, ExecEvent, Virtual, no_thread, running, initialize, run_thread}
use aser.ExecMonitor
use aser.ExecMonitor.Events.{with}
use aser.ExecMonitor.Queued.{Fits-queued, run_thread-queued, run_thread-no_round}
use aser.ExecMonitor.Hopping.{
  cpu_hopper, construct_hopper, handlers, Fresh, Other, AllPlaced, concat, run_thread-Served,
}
use aser.Hopper.{Running, init}
use aser.Hopper.Invariant.{Inv}
use aser.Hopper.Adding.{init-Inv}
use aser.Hopper.Affinity.{Affinity, Bound}
use aser.Os
use aser.SimpleManager.Execution.{Derived, Schedule}
use aser.SimpleManager.Indices.{Absent, AllDifferent}
use aser.SimpleManager.Assumptions.{MonitorRuns}
use aser.SimpleManager.Announcing.{created_all, length-created_all}

pub Other-Absent : (pid : ℤ) (pids : List ℤ) → Absent pid pids → Other pid (created_all pids)
Other-Absent pid [] a = tt
Other-Absent pid (q ∷ pids) a = (a.0, Other-Absent pid pids a.1)

pub Fresh-AllDifferent :
    (ms cpus : ℕ) (pids : List ℤ) → AllDifferent pids → Fresh (init ms cpus) (created_all pids)
unfolding init lookup
Fresh-AllDifferent ms cpus [] d = tt
Fresh-AllDifferent ms cpus (pid ∷ pids) d =
    (refl, Other-Absent pid pids d.0, Fresh-AllDifferent ms cpus pids d.1)

pub concat-silent : (n : ℕ) → concat (replicate n []) ≡ []
concat-silent zero = refl
concat-silent (suc n) = concat-silent n

-- What the thread of the monitor leaves: no event in the queue, the tables consistent, so that no two
-- processes share a CPU, and a CPU for each of the processes, which is the last one that the system was
-- asked to give it.
pub record Serves {W : Type 0} {posix : Posix W} (affinity : Affinity posix) (pids : List ℤ)
    (left : List ExecEvent) (d : Running W) : Type 0 where
  pub none_left : left ≡ []
  pub consistent : Inv d.self
  pub placed : AllPlaced d.self (created_all pids)
  pub asked : Bound affinity d.self d.world

module _ {W : Type 0} where
  abbrev pub ServedBy :
      {posix : Posix W} → Affinity posix → Schedule → List ℤ → ExecMonitor (Running W) → Type 0
  ServedBy affinity schedule pids m =
      (schedule.rounds ≡ 0) ⊎ Serves affinity pids m.event_queue.queue m.derived

  -- The monitor binds processes, so it acts on the system.
  abbrev pub bound : Derived (Running W) W
  bound = record { enter = λ w d. record d { world = w }; leave = λ d w. d.world }

  module _ (posix : Posix W) (sampling_length cpus : ℕ) where
    -- A new monitor, initialized.
    abbrev pub initialized : W → ExecMonitor (Running W)
    initialized w = record ((construct_hopper posix sampling_length cpus w).1) {
      initialized = true;
    }

    abbrev pub tables : W → Running W
    tables w = record { self = init sampling_length cpus; world = w }

    abbrev pub in_thread : W → ExecMonitor (Running W)
    in_thread w = record (initialized w) { thread = running }

    pub initialize_lem :
        (w : W)
        → initialize (cpu_hopper posix) (construct_hopper posix sampling_length cpus w).1
          ≡ (ok tt, initialized w)
    unfolding initialize cpu_hopper construct_hopper ExecMonitor.register_event_handler
        ExecMonitor.construct lookup insert_new
    initialize_lem w = refl

    pub handlers_lem : (w : W) → (initialized w).event_handlers ≡ handlers posix
    unfolding construct_hopper ExecMonitor.register_event_handler ExecMonitor.construct lookup
        insert_new
    handlers_lem w = refl

    init-Bound : (affinity : Affinity posix) (w : W) → Bound affinity (init sampling_length cpus) w
    unfolding init lookup
    init-Bound affinity w pid cpu at = cc

    -- Whatever calls of `sched_setaffinity` keep, the thread keeps.
    thread_ends :
        (affinity : Affinity posix) (Q : W → Type 0)
        → ((pid : ℤ) (cpu : ℕ) (w : W) → Q w → Q (Os.on_cpu posix pid cpu w))
        → (fuel rounds : ℕ) (pids : List ℤ) (v w : W) → length pids < fuel
        → length pids < cpus
        → AllDifferent pids
        → (left : List ExecEvent) × (d : Running W) × (run_thread
              (cpu_hopper posix)
              fuel
              (replicate rounds [])
              (with (created_all pids) (tables w) (in_thread v))
            ≡ some (ok tt, with left d (in_thread v)))
          × ((rounds ≡ 0) ⊎ Serves affinity pids left d)
          × (Q w → Q d.world)
    thread_ends affinity Q keeps fuel zero pids v w room fewer different = (
      created_all pids,
      tables w,
      run_thread-no_round (cpu_hopper posix) fuel (created_all pids) (tables w) (in_thread v),
      inl refl,
      λ q. q,
    )
    thread_ends affinity Q keeps fuel (suc n) pids v w room fewer different =
        let (inv, free) = init-Inv sampling_length cpus in
        let events = created_all pids in
        let all : concat (events ∷ replicate n []) ≡ events =
          ap (λ l. events ++ l) (concat-silent n) ∙ append-nil events in
        let long = length-created_all pids in
        let (d, runs, served) =
          run_thread-Served posix affinity (λ x. Q w → Q x) (λ pid cpu x f q. keeps pid cpu x (f q))
            fuel (events ∷ replicate n []) (tables w) (in_thread v) (handlers_lem v)
            (Fits-queued fuel n events (omega (arith, long))) inv (init-Bound affinity w) (λ q. q)
            (subst (Fresh (init sampling_length cpus)) (sym all)
              (Fresh-AllDifferent sampling_length cpus pids different))
            (omega (arith, long, ap length all, free)) in
        (
          [],
          d,
          run_thread-queued (cpu_hopper posix) fuel n events (tables w) (in_thread v) ∙ runs,
          inr (record {
            none_left = refl;
            consistent = served.kept;
            placed = subst (AllPlaced d.self) all served.placed;
            asked = served.bound;
          }),
          served.calls,
        )

    pub cpu_hopper-MonitorRuns :
        (affinity : Affinity posix) (Q : W → Type 0)
        → ((pid : ℤ) (cpu : ℕ) (w : W) → Q w → Q (Os.on_cpu posix pid cpu w))
        → (schedule : Schedule) (pids : List ℤ) (v : W) → length pids < schedule.fuel
        → length pids < cpus
        → AllDifferent pids
        → MonitorRuns
            (cpu_hopper posix)
            bound
            schedule
            (ServedBy affinity schedule pids)
            Q
            (with (created_all pids) (tables v) (initialized v))
    unfolding cpu_hopper construct_hopper ExecMonitor.register_event_handler ExecMonitor.construct
        lookup insert_new
    cpu_hopper-MonitorRuns affinity Q keeps schedule pids v room fewer different = record {
      initialized = refl;
      idle = refl;
      ready = tables v;
      prepares = refl;
      runs = λ w.
          let (left, d, runs, known, kept) =
            thread_ends affinity Q keeps schedule.fuel schedule.rounds pids v w room fewer
              different in
          (with left d (in_thread v), d, runs, refl, refl, refl, known, kept);
    }
