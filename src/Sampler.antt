-- ===== src/Sampler.antt =====
-- exec_monitor/pmc_sampler.h and exec_monitor/impl/pmc_sampler.h: a monitor that reads the events of
-- its processes. `sleep_for` at the start of `loop_impl` and the log have no effect on the state.
pub mod Silence
pub mod Known
use aser.Prelude.{ℕ, ℤ, Bool, true, List, [], ◌∷◌, Option, none, some, lookup, insert_new, ℤ_key}
use aser.Outcome.{Result, ok, stop, aborted, Exec}
use aser.Perf.{
  Double, EventInfo, EventSample, EventReadMode, EventImpl, GenericEvents, Count, hardware,
  relative, exclude_none,
}
use aser.Perf.Manager.{EventManager, default_event_factory, construct, read_events}

pub record Sampler (I F : Type 0) : Type 0 where
  pub sampling_interval : ℕ
  pub events : List EventInfo
  pub event_managers : List (ℤ × EventManager I F)

pub record Running (I F W : Type 0) : Type 0 where
  pub sampler : Sampler I F
  pub world : W

-- The events that the constructor chooses.
unfoldable pub default_events : GenericEvents → List EventInfo
default_events generic =
    record { type = hardware; code = generic.cycles; modifiers = exclude_none }
    ∷ record { type = hardware; code = generic.instructions; modifiers = exclude_none }
    ∷ []

module _ {I F : Type 0} where
  -- The constructor, on what `create_generic_events` returns.
  unfoldable pub init : ℕ → Result GenericEvents → Result (Sampler I F)
  unfolding default_events
  init sampling_length (stop x) = stop x
  init sampling_length (ok generic) = ok (record {
    sampling_interval = sampling_length;
    events = default_events generic;
    event_managers = [];
  })

module _ (double : Double) {I W : Type 0} (impl : EventImpl I W) where
  open double use {Number}

  -- The rest of the loop, after one manager has been read.
  next_manager :
      ℤ
      → List (ℤ × EventManager I Number)
      → (W → Result (Unit {0}) × List (ℤ × EventManager I Number) × W)
      → Result (List (EventSample Number)) × EventManager I Number × W
      → Result (Unit {0}) × List (ℤ × EventManager I Number) × W
  next_manager pid ms rest (ok samples, m, w) = let (r, ms', w') = rest w in (r, (pid, m) ∷ ms', w')
  next_manager pid ms rest (stop x, m, w) = (stop x, (pid, m) ∷ ms, w)

  unfoldable pub read_managers :
      List (ℤ × EventManager I Number)
      → W
      → Result (Unit {0}) × List (ℤ × EventManager I Number) × W
  unfolding next_manager
  read_managers [] w = (ok tt, [], w)
  read_managers ((pid, m) ∷ ms) w =
      next_manager pid ms (read_managers ms) (read_events double impl relative m w)

  unfoldable pub loop_impl : Exec (Running I Number W) (Unit {0})
  loop_impl s =
      let (r, ms, w) = read_managers s.sampler.event_managers s.world in
      (r, record { sampler = record (s.sampler) { event_managers = ms }; world = w })

  -- `emplace`, and the assertion that there was no manager of that process.
  emplace :
      ℤ
      → EventManager I Number
      → Option (EventManager I Number)
      → Exec (Running I Number W) (Unit {0})
  emplace pid m (some _) s = (stop aborted, s)
  emplace pid m none s = (
    ok tt,
    record s {
      sampler = record (s.sampler) { event_managers = insert_new pid m s.sampler.event_managers };
    },
  )

  constructed : ℤ → Result (EventManager I Number) → Exec (Running I Number W) (Unit {0})
  unfolding emplace
  constructed pid (ok m) s = emplace pid m (lookup pid s.sampler.event_managers) s
  constructed pid (stop x) s = (stop x, s)

  -- `garbage` stands in the counts of a new event, and `fresh` is `Impl{}`.
  unfoldable pub add_process : Count → I → ℤ → Exec (Running I Number W) (Unit {0})
  unfolding constructed
  add_process garbage fresh pid s =
      let (r, w) =
        construct double impl (default_event_factory garbage fresh) s.sampler.events pid true
          s.world in
      constructed pid r (record s { world = w })
