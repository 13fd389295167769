-- ===== src/Perf/Manager.antt =====
-- perf/event_manager.h and perf/impl/event_manager.h: the events of one process.
pub mod Readings
use aser.Prelude.{ℕ, ℤ, Bool, false, List, [], ◌∷◌, length, replicate}
use aser.Outcome.{Result, ok, stop, aborted}
use aser.Perf.{
  Double, Event, EventInfo, EventReadMode, EventSample, EventImpl, Count, make, open_on, read,
  scale,
}

pub record EventManager (I F : Type 0) : Type 0 where
  pub events : List (Event I)
  pub latest_samples : List (EventSample F)

-- The factory that the constructor has by default: `Event{info}`, with `Impl{}`.
unfoldable pub default_event_factory : {I : Type 0} → Count → I → EventInfo → Result (Event I)
default_event_factory garbage impl info = make garbage info impl

module _ {I : Type 0} where
  both : Result (Event I) → Result (List (Event I)) → Result (List (Event I))
  both (ok e) (ok es) = ok (e ∷ es)
  both (ok e) (stop x) = stop x
  both (stop x) r = stop x

  -- The first `std::transform` of the constructor.
  unfoldable pub make_events :
      (EventInfo → Result (Event I)) → List EventInfo → Result (List (Event I))
  unfolding both
  make_events factory [] = ok []
  make_events factory (info ∷ infos) = both (factory info) (make_events factory infos)

module _ {I W : Type 0} where
  -- What is left of a loop after one event: it goes on, or ends by an exception.
  proceed :
      Event I
      → List (Event I)
      → (W → Result (Unit {0}) × List (Event I) × W)
      → Result (Unit {0}) × Event I × W
      → Result (Unit {0}) × List (Event I) × W
  proceed e es rest (ok _, e', w) = let (r, es', w') = rest w in (r, e' ∷ es', w')
  proceed e es rest (stop x, e', w) = (stop x, e' ∷ es, w)

  -- `for (auto& e : events_)`
  unfoldable pub for_events :
      (Event I → W → Result (Unit {0}) × Event I × W)
      → List (Event I)
      → W
      → Result (Unit {0}) × List (Event I) × W
  unfolding proceed
  for_events f [] w = (ok tt, [], w)
  for_events f (e ∷ es) w = proceed e es (for_events f es) (f e w)

  unfoldable pub destroy_events : EventImpl I W → List (Event I) → W → W
  destroy_events impl [] w = w
  destroy_events impl (e ∷ es) w = destroy_events impl es (impl.destroy_impl e.impl w)

module _ (double : Double) where
  open double use {Number, of_u64}

  -- `event_sample{}`
  abbrev pub no_sample : EventSample Number
  no_sample = record { value = of_u64 0; scaling = of_u64 0; enabled = false }

module _ (double : Double) {I : Type 0} where
  open double use {Number}

  -- The transform of `read_events`. To write past the samples would be undefined: it does not occur.
  put :
      Event I
      → List (Event I)
      → EventSample Number
      → List (EventSample Number)
      → Result (Unit {0}) × List (Event I) × List (EventSample Number)
      → Result (EventSample Number) × Event I
      → Result (Unit {0}) × List (Event I) × List (EventSample Number)
  put e es s ss (r, es', ss') (ok v, e') = (r, e' ∷ es', v ∷ ss')
  put e es s ss rest (stop x, e') = (stop x, e' ∷ es, s ∷ ss)

  unfoldable pub scale_events :
      EventReadMode
      → List (Event I)
      → List (EventSample Number)
      → Result (Unit {0}) × List (Event I) × List (EventSample Number)
  unfolding put
  scale_events mode [] ss = (ok tt, [], ss)
  scale_events mode (e ∷ es) [] = (stop aborted, e ∷ es, [])
  scale_events mode (e ∷ es) (s ∷ ss) =
      put e es s ss (scale_events mode es ss) (scale double mode e)

module _ (double : Double) {I W : Type 0} (impl : EventImpl I W) where
  open double use {Number}

  -- The end of the constructor: if an event cannot be opened, its members are destroyed.
  opened : ℕ → Result (Unit {0}) × List (Event I) × W → Result (EventManager I Number) × W
  opened size (ok _, es, w) =
      (ok (record { events = es; latest_samples = replicate size (no_sample double) }), w)
  opened size (stop x, es, w) = (stop x, destroy_events impl es w)

  open_all : ℕ → ℤ → Bool → Result (List (Event I)) → W → Result (EventManager I Number) × W
  unfolding opened
  open_all size pid attach (ok es) w = opened size (for_events (open_on impl pid attach) es w)
  open_all size pid attach (stop x) w = (stop x, w)

  -- The constructor.
  unfoldable pub construct :
      (EventInfo → Result (Event I))
      → List EventInfo
      → ℤ
      → Bool
      → W
      → Result (EventManager I Number) × W
  unfolding open_all
  construct factory infos pid attach w =
      open_all (length infos) pid attach (make_events factory infos) w

  returned : Result (Unit {0}) → List (EventSample Number) → Result (List (EventSample Number))
  returned (ok _) out = ok out
  returned (stop x) out = stop x

  scaled :
      EventReadMode
      → List (EventSample Number)
      → Result (Unit {0}) × List (Event I) × W
      → Result (List (EventSample Number)) × EventManager I Number × W
  scaled mode ss (stop x, es, w) = (stop x, record { events = es; latest_samples = ss }, w)
  scaled mode ss (ok _, es, w) =
      let (r, es', ss') = scale_events double mode es ss in
      (returned r ss', record { events = es'; latest_samples = ss' }, w)

  -- `read_events`: every event is read before the first one is scaled.
  unfoldable pub read_events :
      EventReadMode
      → EventManager I Number
      → W
      → Result (List (EventSample Number)) × EventManager I Number × W
  unfolding scaled returned
  read_events mode m w = scaled mode m.latest_samples (for_events (read impl) m.events w)
