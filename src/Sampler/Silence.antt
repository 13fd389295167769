-- ===== src/Sampler/Silence.antt =====
-- The sampler with the dummy implementation never throws.
use aser.Prelude.{
  ℤ, ◌≡◌, refl, true, List, [], ◌∷◌, none, keys, lookup, insert_new, ltb_ℤ, ℤ_key, length, map,
  replicate, inl, inr, Bool-cases,
}
use aser.Outcome.{ok}
use aser.Perf.{Double, GenericEvents, Count, relative, no_count, make, open_on, valid_modifiers}
use aser.Perf.Manager.{
  EventManager, default_event_factory, make_events, for_events, no_sample, construct,
}
use aser.Perf.Dummy.{event_dummy_impl, Silent, read_events-dummy}
use aser.Sampler.{Running, default_events, read_managers, loop_impl, add_process}

module _ {F : Type 0} where
  -- The manager has one sample for each event, and its events have never counted.
  abbrev pub Quiet : EventManager (Unit {0}) F → Type 0
  Quiet m = Silent m.events × (length m.latest_samples ≡ length m.events)

  abbrev pub AllQuiet : List (ℤ × EventManager (Unit {0}) F) → Type 0
  AllQuiet [] = Unit
  AllQuiet ((pid, m) ∷ ms) = Quiet m × AllQuiet ms

  AllQuiet-insert_new :
      (pid : ℤ) (m : EventManager (Unit {0}) F) (ms : List (ℤ × EventManager (Unit {0}) F))
      → Quiet m
      → AllQuiet ms
      → AllQuiet (insert_new pid m ms)
  unfolding insert_new
  AllQuiet-insert_new pid m [] q a = (q, tt)
  AllQuiet-insert_new pid m ((p, n) ∷ ms) q a = elim (Bool-cases (ltb_ℤ pid p)) [
    | inl e ↦ rw e (q, a)
    | inr e ↦ rw e (a.0, AllQuiet-insert_new pid m ms q a.1)
  ]

module _ (double : Double) where
  open double use {Number}

  -- What `event_manager` holds after its construction for the two generic events.
  new_manager : Count → GenericEvents → EventManager (Unit {0}) Number
  new_manager garbage generic = record {
    events =
        map (λ info. record { info = info; impl = tt; count = garbage; prev = no_count })
          (default_events generic);
    latest_samples = replicate 2 (no_sample double);
  }

module _ (double : Double) {W : Type 0} where
  open double use {Number}

  read_managers-dummy :
      (ms : List (ℤ × EventManager (Unit {0}) Number)) (w : W)
      → AllQuiet ms
      → (ms' : List (ℤ × EventManager (Unit {0}) Number)) × (read_managers double event_dummy_impl
            ms w
          ≡ (ok tt, ms', w))
        × (keys ms' ≡ keys ms)
        × AllQuiet ms'
  unfolding read_managers
  read_managers-dummy [] w a = ([], refl, refl, tt)
  read_managers-dummy ((pid, m) ∷ ms) w a =
      let (m', reads, silent, sized) = read_events-dummy double relative m w a.0.0 a.0.1 in
      let (ms', runs, same, quiet) = read_managers-dummy ms w a.1 in
      ((pid, m') ∷ ms', rw (reads, runs), rw same, ((silent, sized), quiet))

  -- With the dummy implementation, if each manager has one sample for each event and no event has
  -- counted, one run of the loop body returns, whatever processes there are; it keeps the processes
  -- and the events to measure, does nothing to the system, and the managers are as assumed again.
  pub loop_impl-dummy :
      (s : Running (Unit {0}) Number W)
      → AllQuiet s.sampler.event_managers
      → (s' : Running (Unit {0}) Number W) × (loop_impl double event_dummy_impl s ≡ (ok tt, s'))
        × (keys s'.sampler.event_managers ≡ keys s.sampler.event_managers)
        × (s'.sampler.events ≡ s.sampler.events)
        × (s'.world ≡ s.world)
        × AllQuiet s'.sampler.event_managers
  unfolding loop_impl
  loop_impl-dummy s a =
      let (ms, runs, same, quiet) = read_managers-dummy s.sampler.event_managers s.world a in
      (
        record { sampler = record (s.sampler) { event_managers = ms }; world = s.world },
        rw runs,
        same,
        refl,
        refl,
        quiet,
      )

  construct-dummy :
      (garbage : Count) (generic : GenericEvents) (pid : ℤ) (w : W)
      → construct double event_dummy_impl
          (default_event_factory garbage tt)
          (default_events generic)
          pid
          true
          w
        ≡ (ok (new_manager double garbage generic), w)
  unfolding construct default_event_factory make_events for_events open_on make valid_modifiers
      event_dummy_impl new_manager default_events
  construct-dummy garbage generic pid w = refl

  -- With the dummy implementation and the events that the constructor chooses, adding a new process
  -- returns; the process then has a manager with two events, those of the other processes and the
  -- events to measure are unchanged, and the assumption of the loop is kept.
  pub add_process-dummy :
      (garbage : Count) (generic : GenericEvents) (pid : ℤ) (s : Running (Unit {0}) Number W)
      → s.sampler.events ≡ default_events generic
      → lookup pid s.sampler.event_managers ≡ none
      → AllQuiet s.sampler.event_managers
      → (s' : Running (Unit {0}) Number W) × (m : EventManager (Unit {0}) Number) × (add_process
            double event_dummy_impl garbage tt pid s
          ≡ (ok tt, s'))
        × (s'.sampler.event_managers ≡ insert_new pid m s.sampler.event_managers)
        × (length m.events ≡ 2)
        × (s'.sampler.events ≡ s.sampler.events)
        × (s'.world ≡ s.world)
        × AllQuiet s'.sampler.event_managers
  unfolding add_process new_manager default_events
  add_process-dummy garbage generic pid s e fresh a = (
    record s {
      sampler = record (s.sampler) {
        event_managers =
            insert_new pid (new_manager double garbage generic) s.sampler.event_managers;
      };
    },
    new_manager double garbage generic,
    rw (e, construct-dummy garbage generic pid s.world, fresh),
    refl,
    refl,
    refl,
    refl,
    AllQuiet-insert_new pid (new_manager double garbage generic) s.sampler.event_managers
        ((refl, (refl, tt)), refl) a,
  )
