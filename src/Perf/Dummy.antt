-- ===== src/Perf/Dummy.antt =====
-- perf/event_dummy.h: an implementation that counts nothing.
use aser.Prelude.{
  ◌≡◌, refl, List, [], ◌∷◌, length, replicate, map, length-replicate, length-map, arith,
}
use aser.Outcome.{ok, pure}
use aser.Perf.{
  Double, Event, EventSample, EventReadMode, EventImpl, no_count, read, sub_u64, since, sample_of,
  scale,
}
use aser.Perf.Manager.{EventManager, for_events, scale_events, no_sample, read_events}

unfoldable pub event_dummy_impl : {W : Type 0} → EventImpl (Unit {0}) W
event_dummy_impl = record {
  open_event = λ info pid attach. pure tt;
  read_count = pure no_count;
  destroy_impl = λ impl w. w;
}

-- Events that have never counted.
abbrev pub Silent : List (Event (Unit {0})) → Type 0
Silent [] = Unit
Silent (e ∷ es) = (e.prev ≡ no_count) × Silent es

abbrev silence : Event (Unit {0}) → Event (Unit {0})
silence e = record e { count = no_count; impl = tt }

Silent-silence : (es : List (Event (Unit {0}))) → Silent es → Silent (map silence es)
Silent-silence [] s = tt
Silent-silence (e ∷ es) s = (s.0, Silent-silence es s.1)

module _ {W : Type 0} where
  for_events-dummy :
      (es : List (Event (Unit {0}))) (w : W)
      → for_events (read event_dummy_impl) es w ≡ (ok tt, map silence es, w)
  unfolding for_events event_dummy_impl read
  for_events-dummy [] w = refl
  for_events-dummy (e ∷ es) w = rw (for_events-dummy es w)

module _ (double : Double) (mode : EventReadMode) where
  scale-silence :
      (e : Event (Unit {0}))
      → e.prev ≡ no_count
      → scale double mode (silence e) ≡ (ok (no_sample double), silence e)
  unfolding scale sample_of since sub_u64
  scale-silence e s = ground arith

  scale_events-dummy :
      (es : List (Event (Unit {0}))) (ss : List (EventSample double.Number))
      → Silent es
      → length ss ≡ length es
      → scale_events double mode (map silence es) ss
        ≡ (ok tt, map silence es, replicate (length es) (no_sample double))
  unfolding scale_events
  scale_events-dummy [] [] s n = refl
  scale_events-dummy [] (x ∷ ss) s n = absurd (omega arith)
  scale_events-dummy (e ∷ es) [] s n = absurd (omega arith)
  scale_events-dummy (e ∷ es) (x ∷ ss) s n =
      rw (scale-silence e s.0, scale_events-dummy es ss s.1 (omega arith))

  -- With the dummy implementation `read_events` always returns, and each event's sample is zero and
  -- not enabled, if there is one sample for each event and no event has counted; the same then holds
  -- of the manager that is left.
  pub read_events-dummy :
      {W : Type 0} (m : EventManager (Unit {0}) double.Number) (w : W)
      → Silent m.events
      → length m.latest_samples ≡ length m.events
      → (m' : EventManager (Unit {0}) double.Number) × (read_events double event_dummy_impl mode m w
          ≡ (ok (replicate (length m.events) (no_sample double)), m', w))
        × Silent m'.events
        × (length m'.latest_samples ≡ length m'.events)
  unfolding read_events
  read_events-dummy m w s n = (
    record {
      events = map silence m.events;
      latest_samples = replicate (length m.events) (no_sample double);
    },
    rw (for_events-dummy m.events w, scale_events-dummy m.events m.latest_samples s n),
    Silent-silence m.events s,
    omega
        (arith, length-replicate (length m.events) (no_sample double), length-map silence m.events),
  )
