-- ===== src/SimpleManager/SamplerRuns.antt =====
-- The thread of a new `pmc_sampler` monitor with the dummy implementation in an execution of the manager.
use aser.Prelude.{
  ℕ, zero, suc, ℤ, ◌<◌, ◌≡◌, ◌⊎◌, inl, inr, refl, sym, ap, ◌∙◌, true, false, List, [], ◌∷◌, ◌++◌,
  some, lookup, insert_new, length, replicate, arith,
}
use mathlib.Core.Path.{subst}
use mathlib.Core.List.{append-nil}
use aser.Outcome.{ok}
use aser.Queue.{empty}
use aser.Perf.{Double, EventImpl, GenericEvents, Count}
use aser.Perf.Dummy.{event_dummy_impl}
use aser.Sampler.{Running, init, default_events}
use aser.Sampler.Known.{AllKnown, Fresh}
use aser.ExecMonitor.{ExecMonitor, ExecEvent, Virtual, no_thread, running, initialize, run_thread}
use aser.ExecMonitor
use aser.ExecMonitor.Events.{with}
use aser.ExecMonitor.Queued.{Fits-queued, run_thread-queued, run_thread-no_round}
use aser.ExecMonitor.Hopping.{concat}
use aser.ExecMonitor.Sampling.{pmc_sampler, construct_sampler, handlers, run_thread-Sampled}
use aser.SimpleManager.Execution.{Derived, Schedule}
use aser.SimpleManager.Indices.{AllDifferent}
use aser.SimpleManager.Assumptions.{MonitorRuns}
use aser.SimpleManager.Announcing.{created_all, length-created_all}
use aser.SimpleManager.HopperRuns.{Other-Absent, concat-silent}

Fresh-AllDifferent :
    (F : Type 0) (pids : List ℤ) → AllDifferent pids → Fresh {F = F} [] (created_all pids)
unfolding lookup
Fresh-AllDifferent F [] d = tt
Fresh-AllDifferent F (pid ∷ pids) d =
    (refl, Other-Absent pid pids d.0, Fresh-AllDifferent F pids d.1)

-- What the thread of the monitor leaves: no event in the queue, and a manager of its events for each
-- of the processes.
pub record Measures {F W : Type 0} (pids : List ℤ) (left : List ExecEvent)
    (d : Running (Unit {0}) F W) : Type 0 where
  pub none_left : left ≡ []
  pub known : AllKnown d.sampler.event_managers (created_all pids)

abbrev pub MeasuredBy :
    {F W : Type 0} → Schedule → List ℤ → ExecMonitor (Running (Unit {0}) F W) → Type 0
MeasuredBy schedule pids m = (schedule.rounds ≡ 0) ⊎ Measures pids m.event_queue.queue m.derived

-- The monitor reads the counters of the system.
abbrev pub reading : {I F W : Type 0} → Derived (Running I F W) W
reading = record { enter = λ w d. record d { world = w }; leave = λ d w. d.world }

module _ (double : Double) {W : Type 0} (garbage : Count) (sampling_length : ℕ)
    (generic : GenericEvents) where
  open double use {Number}

  abbrev impl : EventImpl (Unit {0}) W
  impl = event_dummy_impl

  abbrev pub new_object : W → Running (Unit {0}) Number W
  new_object w = record {
    sampler = record {
      sampling_interval = sampling_length;
      events = default_events generic;
      event_managers = [];
    };
    world = w;
  }

  -- What the constructor makes, initialized or not.
  abbrev pub new_monitor : W → ExecMonitor (Running (Unit {0}) Number W)
  new_monitor w = record {
    initialized = false;
    thread = no_thread;
    event_queue = record { queue = [] };
    event_handlers = handlers double impl garbage tt;
    derived = new_object w;
  }

  abbrev pub initialized : W → ExecMonitor (Running (Unit {0}) Number W)
  initialized w = record (new_monitor w) { initialized = true }

  abbrev in_thread : W → ExecMonitor (Running (Unit {0}) Number W)
  in_thread w = record (initialized w) { thread = running }

  pub construct_sampler_lem :
      (w : W)
      → construct_sampler double impl garbage tt sampling_length (ok generic) w ≡ ok (new_monitor w)
  unfolding construct_sampler init ExecMonitor.register_event_handler ExecMonitor.construct lookup
      insert_new empty
  construct_sampler_lem w = refl

  pub initialize_lem :
      (w : W) → initialize (pmc_sampler double impl) (new_monitor w) ≡ (ok tt, initialized w)
  unfolding initialize pmc_sampler
  initialize_lem w = refl

  thread_ends :
      (fuel rounds : ℕ) (pids : List ℤ) (v w : W)
      → length pids < fuel
      → AllDifferent pids
      → (left : List ExecEvent) × (d : Running (Unit {0}) Number W) × (run_thread
            (pmc_sampler double impl)
            fuel
            (replicate rounds [])
            (with (created_all pids) (new_object w) (in_thread v))
          ≡ some (ok tt, with left d (in_thread v)))
        × ((rounds ≡ 0) ⊎ Measures pids left d)
        × (d.world ≡ w)
  thread_ends fuel zero pids v w room different = (
    created_all pids,
    new_object w,
    run_thread-no_round (pmc_sampler double impl) fuel (created_all pids) (new_object w)
        (in_thread v),
    inl refl,
    refl,
  )
  thread_ends fuel (suc n) pids v w room different =
      let events = created_all pids in
      let all : concat (events ∷ replicate n []) ≡ events =
        ap (λ l. events ++ l) (concat-silent n) ∙ append-nil events in
      let long = length-created_all pids in
      let none_known = subst (Fresh []) (sym all) (Fresh-AllDifferent Number pids different) in
      let (d, runs, done) =
        run_thread-Sampled double garbage generic fuel (events ∷ replicate n []) (new_object w)
          (in_thread v) refl (Fits-queued fuel n events (omega (arith, long)))
          (record { chosen = refl; quiet = tt }) none_known in
      (
        [],
        d,
        run_thread-queued (pmc_sampler double impl) fuel n events (new_object w) (in_thread v)
            ∙ runs,
        inr (record {
          none_left = refl;
          known = subst (AllKnown d.sampler.event_managers) all done.known;
        }),
        done.untouched,
      )

  pub pmc_sampler-MonitorRuns :
      (Q : W → Type 0) (schedule : Schedule) (pids : List ℤ) (v : W)
      → length pids < schedule.fuel
      → AllDifferent pids
      → MonitorRuns
          (pmc_sampler double impl)
          reading
          schedule
          (MeasuredBy schedule pids)
          Q
          (with (created_all pids) (new_object v) (initialized v))
  unfolding pmc_sampler
  pmc_sampler-MonitorRuns Q schedule pids v room different = record {
    initialized = refl;
    idle = refl;
    ready = new_object v;
    prepares = refl;
    runs = λ w.
        let (left, d, runs, known, world) =
          thread_ends schedule.fuel schedule.rounds pids v w room different in
        (with left d (in_thread v), d, runs, refl, refl, refl, known, λ q. subst Q (sym world) q);
  }
