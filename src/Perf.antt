-- ===== src/Perf.antt =====
-- perf/event.h, perf/impl/event.h, perf/event.cc and perf/detail/linux/event.cc: performance events
-- and what they count.
pub mod Scaling
pub mod Manager
pub mod Dummy
pub mod Linux
use text.Mathlib.Text.{◌==◌ as str_eq}
use aser.Prelude.{
  ℕ, ◌+◌, ◌-◌, ◌%◌, ◌^◌, ℤ, String, Bool, true, false, not, ◌&&◌, List, [], ◌∷◌, Option, none, some,
  ◌==◌, ltb, leb, if◌then◌else◌,
}
use aser.Outcome.{
  Result, ok, stop, thrown, aborted, Exec, invalid_argument, runtime_error, pure, throw, halt, gets,
  modify, ◌>>=◌, ◌>>◌,
}

pub data EventType : Type 0 where
  hardware raw : EventType

abbrev pub exclude_none : ℕ
exclude_none = 0

abbrev pub exclude_user : ℕ
exclude_user = 1

abbrev pub exclude_kernel : ℕ
exclude_kernel = 2

abbrev pub exclude_hv : ℕ
exclude_hv = 4

pub record EventInfo : Type 0 where
  pub type : EventType
  pub code : ℕ
  pub modifiers : ℕ

pub record GenericEvents : Type 0 where
  pub cycles : ℕ
  pub instructions : ℕ

pub data EventReadMode : Type 0 where
  relative aggregated : EventReadMode

-- `double` is a parameter: its numbers, the conversion from `uint64_t`, and division.
pub record Double : Type 1 where
  pub Number : Type 0
  pub of_u64 : ℕ → Number
  pub divide : Number → Number → Number

pub record EventSample (F : Type 0) : Type 0 where
  pub value : F
  pub scaling : F
  pub enabled : Bool

-- `std::array<uint64_t, 3>`, indexed by `count_field`.
pub record Count : Type 0 where
  pub raw_value : ℕ
  pub time_enabled : ℕ
  pub time_running : ℕ

abbrev pub no_count : Count
no_count = record { raw_value = 0; time_enabled = 0; time_running = 0 }

-- `Impl` of `event<Impl>`, over the state `W` of the system, with its destructor.
pub record EventImpl (I W : Type 0) : Type 0 where
  pub open_event : EventInfo → ℤ → Bool → Exec (I × W) (Unit {0})
  pub read_count : Exec (I × W) Count
  pub destroy_impl : I → W → W

pub record Event (I : Type 0) : Type 0 where
  pub info : EventInfo
  pub impl : I
  pub count : Count
  pub prev : Count

-- `EXCLUDE_USER | EXCLUDE_KERNEL | EXCLUDE_HV` is 7.
unfoldable pub valid_modifiers : ℕ → Bool
valid_modifiers modifiers = leb modifiers 7

-- `a - b` on `uint64_t`.
unfoldable pub sub_u64 : ℕ → ℕ → ℕ
sub_u64 a b = (a + 2 ^ 64 - b) % 2 ^ 64

module _ (double : Double) where
  open double use {Number, of_u64, divide}

  -- The last lines of `scale`, on the counts that are left after the subtraction.
  unfoldable pub sample_of : Count → EventSample Number
  sample_of c =
      if c.time_running == 0
      then record { value = of_u64 0; scaling = of_u64 0; enabled = ltb 0 c.time_enabled }
      else record {
        value =
            divide (of_u64 c.raw_value) (divide (of_u64 c.time_running) (of_u64 c.time_enabled));
        scaling = divide (of_u64 c.time_running) (of_u64 c.time_enabled);
        enabled = true;
      }

unfoldable pub since : Count → Count → Count
unfolding sub_u64
since c p = record {
  raw_value = sub_u64 c.raw_value p.raw_value;
  time_enabled = sub_u64 c.time_enabled p.time_enabled;
  time_running = sub_u64 c.time_running p.time_running;
}

module _ {I : Type 0} where
  -- The constructor; `garbage` is what stands in `count_`, which it does not write.
  unfoldable pub make : Count → EventInfo → I → Result (Event I)
  unfolding valid_modifiers
  make garbage info impl =
      if valid_modifiers info.modifiers
      then ok (record { info = info; impl = impl; count = garbage; prev = no_count })
      else stop aborted

  module _ {W : Type 0} (impl : EventImpl I W) where
    -- `open`: the state of the implementation changes with that of the system.
    unfoldable pub open_on : ℤ → Bool → Event I → W → Result (Unit {0}) × Event I × W
    open_on pid attach e w =
        let (r, iw) = impl.open_event e.info pid attach (e.impl, w) in
        (r, record e { impl = iw.0 }, iw.1)

    store_count : Event I → Result Count → I × W → Result (Unit {0}) × Event I × W
    store_count e (ok c) iw = (ok tt, record e { impl = iw.0; count = c }, iw.1)
    store_count e (stop x) iw = (stop x, record e { impl = iw.0 }, iw.1)

    unfoldable pub read : Event I → W → Result (Unit {0}) × Event I × W
    unfolding store_count
    read e w = let (r, iw) = impl.read_count (e.impl, w) in store_count e r iw

  module _ (double : Double) where
    open double use {Number}

    finish : EventReadMode → Exec (Event I) (EventSample Number)
    unfolding sample_of since
    finish relative e = (ok (sample_of double (since e.count e.prev)), record e { prev = e.count })
    finish aggregated e = (ok (sample_of double e.count), e)

    unfoldable pub scale : EventReadMode → Exec (Event I) (EventSample Number)
    unfolding finish
    scale mode e =
        if ltb e.count.time_enabled e.count.time_running
        then throw (runtime_error "Event ran for longer than it was enabled") e
        else if e.count.time_running == 0 && not (e.count.raw_value == e.prev.raw_value)
        then throw (runtime_error "Unexpected event value") e
        else finish mode e

-- The map of perf/event.cc, and that of perf/detail/linux/event.cc with the codes of the kernel.
unfoldable pub dummy_events_map : List (String × GenericEvents)
dummy_events_map = ("dummy", record { cycles = 0; instructions = 0 }) ∷ []

unfoldable pub linux_events_map : ℕ → ℕ → List (String × GenericEvents)
linux_events_map cpu_cycles instructions =
    ("linux", record { cycles = cpu_cycles; instructions = instructions })
    ∷ ("dummy", record { cycles = 0; instructions = 0 })
    ∷ []

find_events : String → List (String × GenericEvents) → Option GenericEvents
find_events name [] = none
find_events name ((id, events) ∷ rest) =
    if str_eq id name then some events else find_events name rest

or_invalid : Option GenericEvents → Result GenericEvents
or_invalid none = stop (thrown (invalid_argument "Invalid event type"))
or_invalid (some events) = ok events

unfoldable pub create_generic_events : List (String × GenericEvents) → String → Result GenericEvents
unfolding find_events or_invalid
create_generic_events events_map impl_name = or_invalid (find_events impl_name events_map)
