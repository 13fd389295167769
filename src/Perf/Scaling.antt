-- ===== src/Perf/Scaling.antt =====
-- What `scale` returns: relative readings are the readings of an event that counted only since the
-- last one, and an exception changes nothing.
use aser.Prelude.{◌+◌, ◌%◌, ◌^◌, ◌≤◌, ◌<◌, ◌≡◌, arith}
use aser.Outcome.{ok, stop, Exception, thrown}
use aser.Perf.{
  Double, Event, EventReadMode, relative, aggregated, Count, no_count, sub_u64, since, sample_of,
  scale,
}

-- The counts of an interval `d` after the counts `p`; the value wraps at 64 bits.
abbrev pub after : Count → Count → Count
after p d = record {
  raw_value = (p.raw_value + d.raw_value) % 2 ^ 64;
  time_enabled = p.time_enabled + d.time_enabled;
  time_running = p.time_running + d.time_running;
}

-- What the kernel's counters satisfy: they fit 64 bits, an event runs only while it is enabled, and
-- counts only while it runs.
pub record IsCount (c : Count) : Type 0 where
  pub value_fits : c.raw_value < 2 ^ 64
  pub enabled_fits : c.time_enabled < 2 ^ 64
  pub running_le : c.time_running ≤ c.time_enabled
  pub idle : c.time_running ≡ 0 → c.raw_value ≡ 0

since-after : (p d : Count) → IsCount p → IsCount d → IsCount (after p d) → since (after p d) p ≡ d
unfolding since sub_u64
since-after p d hp hd h = ground arith

module _ (double : Double) {I : Type 0} (e : Event I) where
  -- `e` as if it had been opened at the last relative reading, and had then counted `d`.
  abbrev pub fresh : Count → Event I
  fresh d = record e { count = d; prev = no_count }

  -- Let `prev` be the counts of the last relative reading, and let the event have counted `d` since, where
  -- the value may have wrapped and the times have not. Then a relative reading returns, it is the aggregated reading of an event
  -- that counted only `d`, and the present counts become the ones of the last relative reading.
  pub scale_relative :
      (d : Count)
      → IsCount e.prev
      → IsCount d
      → IsCount (after e.prev d)
      → e.count ≡ after e.prev d
      → (scale double relative e ≡ (ok (sample_of double d), record e { prev = e.count }))
        × ((scale double aggregated (fresh d)).0 ≡ ok (sample_of double d))
  unfolding scale
  scale_relative d hp hd h c = (ground (arith, since-after e.prev d), ground arith)

  -- If `scale` throws, the event is unchanged.
  scale_throws :
      (mode : EventReadMode) (x : Exception)
      → (scale double mode e).0 ≡ stop (thrown x)
      → (scale double mode e).1 ≡ e
  unfolding scale
  scale_throws relative x h = ground arith
  scale_throws aggregated x h = ground arith
