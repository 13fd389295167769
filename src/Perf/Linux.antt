-- ===== src/Perf/Linux.antt =====
-- perf/event_linux.h and perf/impl/event_linux.h: events of the Linux kernel.
pub mod Attributes
pub mod Descriptors
use Prim.Native.Nat.{bit_and, bit_or}
use aser.Prelude.{
  ℕ, ◌%◌, ◌^◌, ℤ, pos, minus_one, Bool, true, false, not, List, eqb_ℤ, if◌then◌else◌,
}
use aser.Outcome.{Exec, Result, ok, stop, ◌>>=◌, ◌>>◌, pure, handle}
use aser.Libc.{Posix, error_if_equal, error_if_not_equal}
use aser.Perf.{
  EventType, hardware, raw, EventInfo, EventImpl, Count, exclude_user, exclude_kernel, exclude_hv,
}

-- `struct perf_event_attr`: the members that are written; `memset` clears the others.
pub record PerfEventAttr : Type 0 where
  pub type : ℕ
  pub size : ℕ
  pub config : ℕ
  pub read_format : ℕ
  pub disabled : ℕ
  pub inherit : ℕ
  pub enable_on_exec : ℕ
  pub exclude_user : ℕ
  pub exclude_kernel : ℕ
  pub exclude_hv : ℕ

-- What linux/perf_event.h declares and the kernel does. `flag_bits` is the width of the members
-- from `disabled` to `exclude_hv`, which are bit-fields; `decode` reads an array of three numbers
-- from its bytes, of which there are `count_bytes`.
pub record PerfKernel (W : Type 0) : Type 0 where
  pub type_hardware : ℕ
  pub type_raw : ℕ
  pub format_total_time_enabled : ℕ
  pub format_total_time_running : ℕ
  pub attr_size : ℕ
  pub flag_bits : ℕ
  pub perf_event_open : PerfEventAttr → ℤ → ℤ → ℤ → ℕ → W → ℤ × W
  pub count_bytes : ℕ
  pub decode : List ℕ → Count

-- The descriptor; 0 is none.
pub record EventLinuxImpl : Type 0 where
  pub fd : ℤ

unfoldable pub new_impl : EventLinuxImpl
new_impl = record { fd = pos 0 }

abbrev pub bit : Bool → ℕ
bit true = 1
bit false = 0

module _ {W : Type 0} (posix : Posix W) (kernel : PerfKernel W) where
  -- A number that is stored in a bit-field loses its upper bits.
  unfoldable pub flag : ℕ → ℕ
  flag n = n % 2 ^ kernel.flag_bits

  type_code : EventType → ℕ
  type_code hardware = kernel.type_hardware
  type_code raw = kernel.type_raw

  -- The structure that `open` passes to the kernel.
  unfoldable pub attributes : EventInfo → Bool → PerfEventAttr
  unfolding flag type_code
  attributes info attach = record {
    type = type_code info.type;
    size = kernel.attr_size;
    config = info.code;
    read_format = bit_or kernel.format_total_time_enabled kernel.format_total_time_running;
    disabled = flag (bit (not attach));
    inherit = flag 1;
    enable_on_exec = flag (bit (not attach));
    exclude_user = flag (bit_and info.modifiers exclude_user);
    exclude_kernel = flag (bit_and info.modifiers exclude_kernel);
    exclude_hv = flag (bit_and info.modifiers exclude_hv);
  }

  on_system : {A : Type 0} → Exec W A → Exec (EventLinuxImpl × W) A
  on_system m (impl, w) = let (r, w') = m w in (r, (impl, w'))

  set_fd : ℤ → Exec (EventLinuxImpl × W) (Unit {0})
  set_fd fd (impl, w) = (ok tt, (record { fd = fd }, w))

  unfoldable pub open_event : EventInfo → ℤ → Bool → Exec (EventLinuxImpl × W) (Unit {0})
  unfolding attributes on_system set_fd
  open_event info pid attach (impl, w) =
      let (r, w') = kernel.perf_event_open (attributes info attach) pid minus_one minus_one 0 w in
      (on_system (error_if_equal posix.errno r minus_one "Error opening the event") >>= set_fd)
        (impl, w')

  -- `close`, which is `noexcept`: the error is caught. The descriptor is not reset.
  unfoldable pub close : EventLinuxImpl → W → W
  close impl w = (posix.close impl.fd w).1

  -- The destructor.
  unfoldable pub destroy : EventLinuxImpl → W → W
  unfolding close
  destroy impl w = if eqb_ℤ impl.fd (pos 0) then w else close impl w

  unfoldable pub read_count : Exec (EventLinuxImpl × W) Count
  unfolding on_system
  read_count (impl, w) =
      let (r, bytes, w') = posix.read impl.fd kernel.count_bytes w in
      (on_system
            (error_if_not_equal posix.errno r (pos kernel.count_bytes) "Error reading PMC event")
          >> pure (kernel.decode bytes))
        (impl, w')

  unfoldable pub event_linux_impl : EventImpl EventLinuxImpl W
  unfolding open_event read_count destroy
  event_linux_impl = record {
    open_event = open_event;
    read_count = read_count;
    destroy_impl = destroy;
  }

-- The defaulted move of `event<event_linux_impl>`: the implementation declares a destructor, so it
-- has no move of its own and is copied. The new one and the old one.
unfoldable pub move_impl : EventLinuxImpl → EventLinuxImpl × EventLinuxImpl
move_impl other = (record { fd = other.fd }, other)
