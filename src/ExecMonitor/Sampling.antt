-- ===== src/ExecMonitor/Sampling.antt =====
-- The thread of the `pmc_sampler` monitor with the dummy implementation: it never throws, and every
-- process has a manager of its events. The constructor of exec_monitor/impl/pmc_sampler.h registers
-- the handler.
use aser.Prelude.{ℕ, ◌≡◌, refl, sym, ◌∙◌, ap, List, [], ◌∷◌, ◌++◌, some, lookup, ℤ_key}
use mathlib.Core.Path.{subst}
use aser.Outcome.{Result, ok, stop, pure}
use aser.Perf.{Double, EventImpl, GenericEvents, Count}
use aser.Perf.Dummy.{event_dummy_impl}
use aser.Sampler.{Sampler, Running, init, default_events, loop_impl, add_process}
use aser.Sampler.Silence.{AllQuiet, loop_impl-dummy, add_process-dummy}
use aser.ExecMonitor.{
  ExecEvent, EventType, process_created, event_type_key, same_type, Handler, Virtual, ExecMonitor,
  construct, register_event_handler, run_thread, call,
}
use aser.ExecMonitor.Events.{dispatch, handle_all, handle_all-cons, with, outcome}
use aser.ExecMonitor.Rounds.{all_rounds, all_rounds-cons, Fits, run_thread-all_rounds}
use aser.ExecMonitor.Hopping.{concat}
use aser.Sampler.Known.{
  Known, Fresh, AllKnown, Keeps, AllKnown-Keeps, AllKnown-append, Fresh-keys, Known-keys,
  Fresh-insert_new, Known-insert_new, Keeps-insert_new,
}

module _ (double : Double) {I W : Type 0} (impl : EventImpl I W) where
  open double use {Number}

  -- The virtual functions of `pmc_sampler`.
  unfoldable pub pmc_sampler : Virtual (Running I Number W)
  pmc_sampler = record {
    initialize_impl = pure tt;
    finalize_impl = pure tt;
    prepare_impl = pure tt;
    loop_impl = loop_impl double impl;
  }

  module _ (garbage : Count) (fresh : I) where
    -- The handler that the constructor registers.
    abbrev pub on_created : Handler (Running I Number W)
    on_created event = add_process double impl garbage fresh event.pid

    abbrev pub handlers : List (EventType × Handler (Running I Number W))
    handlers = (process_created, on_created) ∷ []

    registered :
        Result (Unit {0}) × ExecMonitor (Running I Number W)
        → Result (ExecMonitor (Running I Number W))
    registered (ok _, m) = ok m
    registered (stop x, m) = stop x

    constructed : W → Result (Sampler I Number) → Result (ExecMonitor (Running I Number W))
    unfolding registered
    constructed w (ok sampler) = registered (
        register_event_handler process_created on_created
          (construct (record { sampler = sampler; world = w })))
    constructed w (stop x) = stop x

    -- The constructor, on what `create_generic_events` returns.
    unfoldable pub construct_sampler :
        ℕ → Result GenericEvents → W → Result (ExecMonitor (Running I Number W))
    unfolding constructed
    construct_sampler sampling_length generic w = constructed w (init sampling_length generic)

module _ (double : Double) {W : Type 0} (garbage : Count) (generic : GenericEvents) where
  open double use {Number}

  abbrev impl : EventImpl (Unit {0}) W
  impl = event_dummy_impl

  -- What the thread relies on.
  pub record Ready (s : Running (Unit {0}) Number W) : Type 0 where
    pub chosen : s.sampler.events ≡ default_events generic
    pub quiet : AllQuiet s.sampler.event_managers

  lookup-handlers :
      (t : EventType)
      → lookup t (handlers double impl garbage tt) ≡ some (on_created double impl garbage tt)
  unfolding lookup same_type
  lookup-handlers process_created = refl

  dispatch_lem :
      (e : ExecEvent) (s : Running (Unit {0}) Number W)
      → dispatch (handlers double impl garbage tt) e s ≡ add_process double impl garbage tt e.pid s
  unfolding dispatch call
  dispatch_lem e s = rw (lookup-handlers e.type, call)

  -- What the events of a round leave, where `rest` are events still to come.
  record Handled (es rest : List ExecEvent) (s s' : Running (Unit {0}) Number W) : Type 0 where
    good : Ready s'
    fresh : Fresh s'.sampler.event_managers rest
    known : AllKnown s'.sampler.event_managers es
    keeps : Keeps s.sampler.event_managers s'.sampler.event_managers
    untouched : s'.world ≡ s.world

  handle_all-Handled :
      (es rest : List ExecEvent) (s : Running (Unit {0}) Number W)
      → Ready s
      → Fresh s.sampler.event_managers (es ++ rest)
      → (s' : Running (Unit {0}) Number W) × (handle_all (handlers double impl garbage tt) es s
          ≡ (ok tt, [], s'))
        × Handled es rest s s'
  unfolding handle_all
  handle_all-Handled [] rest s good f = (
    s,
    refl,
    record { good = good; fresh = f; known = tt; keeps = λ q there. there; untouched = refl },
  )
  handle_all-Handled (e ∷ es) rest s good f =
      let (s₁, m, adds, inserts, _, same, world, quiet) =
        add_process-dummy double garbage generic e.pid s good.chosen f.0 good.quiet in
      let ms = s.sampler.event_managers in
      let f₁ : Fresh s₁.sampler.event_managers (es ++ rest) =
        subst (λ l. Fresh l (es ++ rest)) (sym inserts)
          (Fresh-insert_new e.pid m ms f.0 (es ++ rest) f.1 f.2) in
      let (s', runs, all) =
        handle_all-Handled es rest s₁ (record { chosen = same ∙ good.chosen; quiet = quiet }) f₁ in
      (
        s',
        handle_all-cons (handlers double impl garbage tt) e es s s₁ (dispatch_lem e s ∙ adds)
            ∙ runs,
        record {
          good = all.good;
          fresh = all.fresh;
          known = (
            all.keeps e.pid
                (subst (λ l. Known l e.pid) (sym inserts) (Known-insert_new e.pid m ms f.0)),
            all.known,
          );
          keeps = λ q there.
              all.keeps q
                (subst (λ l. Known l q) (sym inserts) (Keeps-insert_new e.pid m ms f.0 q there));
          untouched = all.untouched ∙ world;
        },
      )

  -- What the thread leaves.
  pub record Sampled (es : List ExecEvent) (s s' : Running (Unit {0}) Number W) : Type 0 where
    pub good : Ready s'
    pub known : AllKnown s'.sampler.event_managers es
    pub keeps : Keeps s.sampler.event_managers s'.sampler.event_managers
    pub untouched : s'.world ≡ s.world

  all_rounds-Sampled :
      (rounds : List (List ExecEvent)) (s : Running (Unit {0}) Number W)
      → Ready s
      → Fresh s.sampler.event_managers (concat rounds)
      → (s' : Running (Unit {0}) Number W) × (all_rounds
            (loop_impl double impl)
            (handlers double impl garbage tt)
            rounds
            s
          ≡ (ok tt, [], s'))
        × Sampled (concat rounds) s s'
  unfolding all_rounds
  all_rounds-Sampled [] s good f =
      (s, refl, record { good = good; known = tt; keeps = λ q there. there; untouched = refl })
  all_rounds-Sampled (arriving ∷ rounds) s good f =
      let (s₁, loops, same, kept, world, quiet) = loop_impl-dummy double s good.quiet in
      let ms = s.sampler.event_managers in
      let f₁ = Fresh-keys ms s₁.sampler.event_managers (arriving ++ concat rounds) same f in
      let (s₂, handles, a) =
        handle_all-Handled arriving (concat rounds) s₁
          (record { chosen = kept ∙ good.chosen; quiet = quiet }) f₁ in
      let (s', runs, b) = all_rounds-Sampled rounds s₂ a.good a.fresh in
      (
        s',
        all_rounds-cons (loop_impl double impl) (handlers double impl garbage tt) arriving rounds s
              s₁ s₂ loops handles
            ∙ runs,
        record {
          good = b.good;
          known =
              AllKnown-append s'.sampler.event_managers arriving (concat rounds)
                (AllKnown-Keeps s₂.sampler.event_managers s'.sampler.event_managers arriving b.keeps
                  a.known)
                b.known;
          keeps = λ q there.
              b.keeps q (a.keeps q (Known-keys ms s₁.sampler.event_managers same q there));
          untouched = b.untouched ∙ a.untouched ∙ world;
        },
      )

  pub run_thread-Sampled :
      (fuel : ℕ) (rounds : List (List ExecEvent)) (s : Running (Unit {0}) Number W)
      (m : ExecMonitor (Running (Unit {0}) Number W))
      → m.event_handlers ≡ handlers double impl garbage tt
      → Fits fuel rounds
      → Ready s
      → Fresh s.sampler.event_managers (concat rounds)
      → (s' : Running (Unit {0}) Number W) × (run_thread
            (pmc_sampler double impl)
            fuel
            rounds
            (with [] s m)
          ≡ some (ok tt, with [] s' m))
        × Sampled (concat rounds) s s'
  unfolding pmc_sampler
  run_thread-Sampled fuel rounds s m same fits good f =
      let (s', runs, done) = all_rounds-Sampled rounds s good f in
      (
        s',
        run_thread-all_rounds (pmc_sampler double impl) fuel rounds s m fits
            ∙ ap (λ hs. some (outcome m (all_rounds (loop_impl double impl) hs rounds s))) same
            ∙ ap (λ o. some (outcome m o)) runs,
        done,
      )
