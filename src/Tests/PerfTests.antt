-- ===== src/Tests/PerfTests.antt =====
-- Readings of events, with numbers that are fractions and a kernel that gives descriptors in order.
use aser.Prelude.{
  List, ℕ, ◌+◌, ◌*◌, ◌≡◌, ◌≢◌, ◌⊎◌, pos, minus_one, refl, true, false, [], ◌∷◌, arith,
  if◌then◌else◌, ◌==◌,
}
use aser.Outcome.{Stop, ok, stop, thrown, Exception, system_error}
use aser.Libc.{Posix}
use aser.Tests.Machine.{machine}
use aser.Perf.{
  EventSample, Double, Event, EventInfo, Count, hardware, relative, aggregated, no_count, sample_of,
  scale, valid_modifiers, read,
}
use aser.Perf.Scaling.{IsCount, after, fresh, scale_relative}
use aser.Perf.Manager.{EventManager, no_sample, read_events, for_events}
use aser.Perf.Manager.Readings.{Some, Sampled, read_events-Sampled}
use aser.Perf.Dummy.{event_dummy_impl}
use aser.Perf.Linux.{PerfKernel, new_impl, attributes, open_event, destroy, read_count, move_impl}
use aser.Perf.Linux.Attributes.{attributes_lem}
use aser.Perf.Linux.Descriptors.{destroy-open_event, moved_read_throws}

abbrev pub fractions : Double
fractions = record {
  Number = ℕ × ℕ;
  of_u64 = λ n. (n, 1);
  divide = λ (a, b) (c, d). (a * d, b * c);
}

abbrev cycles : EventInfo
cycles = record { type = hardware; code = 0; modifiers = 3 }

abbrev before : Count
before = record { raw_value = 100; time_enabled = 10; time_running = 5 }

abbrev gained : Count
gained = record { raw_value = 50; time_enabled = 20; time_running = 10 }

abbrev event : Event (Unit {0})
event = record { info = cycles; impl = tt; count = after before gained; prev = before }

scale_relative_example :
    (scale fractions relative event
      ≡ (ok (sample_of fractions gained), record event { prev = event.count }))
    × ((scale fractions aggregated (fresh fractions event gained)).0
        ≡ ok (sample_of fractions gained))
scale_relative_example =
    scale_relative fractions event gained before-IsCount gained-IsCount after-IsCount refl
  where
    before-IsCount : IsCount before
    before-IsCount = record {
      value_fits = omega arith;
      enabled_fits = omega arith;
      running_le = omega arith;
      idle = λ z. absurd (omega arith);
    }

    gained-IsCount : IsCount gained
    gained-IsCount = record {
      value_fits = omega arith;
      enabled_fits = omega arith;
      running_le = omega arith;
      idle = λ z. absurd (omega arith);
    }

    after-IsCount : IsCount (after before gained)
    after-IsCount = record {
      value_fits = omega arith;
      enabled_fits = omega arith;
      running_le = omega arith;
      idle = λ z. absurd (omega arith);
    }

abbrev seven : ℕ
seven = 7

abbrev pub manager : EventManager (Unit {0}) (ℕ × ℕ)
manager = record {
  events = record { info = cycles; impl = tt; count = before; prev = no_count } ∷ [];
  latest_samples = no_sample fractions ∷ [];
}

read_events-Sampled_example :
    let (r, m', w') = read_events fractions event_dummy_impl relative manager seven in
    ((vs : List (EventSample (ℕ × ℕ))) × (r ≡ ok vs)
      × Sampled fractions event_dummy_impl relative seven manager.events m'.events vs
      × (m'.latest_samples ≡ vs))
    ⊎ ((x : Stop) × (r ≡ stop x)
        × (Some (λ e. (v : ℕ) × ((read event_dummy_impl e v).0 ≡ stop x)) manager.events
            ⊎ Some
                (λ e. (scale fractions relative e).0 ≡ stop x)
                (for_events (read event_dummy_impl) manager.events seven).1))
read_events-Sampled_example =
    read_events-Sampled fractions event_dummy_impl relative manager seven refl

abbrev kernel : PerfKernel ℕ
kernel = record {
  type_hardware = 0;
  type_raw = 4;
  format_total_time_enabled = 1;
  format_total_time_running = 2;
  attr_size = 112;
  flag_bits = 1;
  perf_event_open = λ attr pid cpu group flags w. (pos w, w + 1);
  count_bytes = 24;
  decode = λ bytes. no_count;
}

attributes_lem_example :
    let a = attributes machine kernel cycles false in
    (a.inherit ≡ 1)
    × (a.disabled ≡ 1)
    × (a.enable_on_exec ≡ 1)
    × (a.exclude_user ≡ 1)
    × (a.exclude_kernel ≡ 0)
    × (a.exclude_hv ≡ 0)
unfolding valid_modifiers
attributes_lem_example = attributes_lem machine kernel cycles false refl refl

destroy-open_event_example :
    let (r, s) = open_event machine kernel cycles (pos 100) true (new_impl, 5) in
    ((pos 5 ≡ minus_one)
      × (r ≡ stop (thrown (system_error (pos 0) "Error opening the event")))
      × (destroy machine kernel s.0 s.1 ≡ 6))
    ⊎ (((pos 5 ≡ pos 0) × (r ≡ ok tt) × (destroy machine kernel s.0 s.1 ≡ 6))
        ⊎ ((pos 5 ≢ minus_one)
            × (pos 5 ≢ pos 0)
            × (r ≡ ok tt)
            × (destroy machine kernel s.0 s.1 ≡ 6)))
destroy-open_event_example = destroy-open_event machine kernel cycles (pos 100) true 5

-- The state is 0 when the one descriptor has been closed; then a read fails.
abbrev one_descriptor : Posix ℕ
one_descriptor = record machine {
  close = λ fd w. (pos 0, 0);
  read = λ fd n w. if w == 0 then (minus_one, [], w) else (pos n, [], w);
}

moved_read_throws_example :
    let (new, old) = move_impl (record { fd = pos 5 }) in
    (x : Exception) × ((read_count one_descriptor kernel
        (new, destroy one_descriptor kernel old 1)).0
      ≡ stop (thrown x))
moved_read_throws_example =
    moved_read_throws one_descriptor kernel (λ fd n w. refl) (record { fd = pos 5 }) 1 (λ e. cc)
