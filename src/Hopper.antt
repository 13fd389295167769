-- ===== src/Hopper.antt =====
-- exec_monitor/cpu_hopper.h and exec_monitor/cpu_hopper.cc: the monitor that moves processes
-- between CPUs. `bind_process` of util/os.h is in Os.
pub mod Cpus
pub mod Invariant
pub mod Hopping
pub mod Adding
pub mod Affinity
use aser.Prelude.{
  ℕ, zero, suc, ℤ, Bool, true, false, List, [], ◌∷◌, Option, none, some, ◌==◌, if◌then◌else◌,
  length, set, replicate, lookup, insert, keys, ℤ_key,
}
use aser.Outcome.{
  Result, ok, Exec, Stop, thrown, runtime_error, pure, halt, throw, gets, ◌>>=◌, ◌>>◌, try, modify,
}
use aser.Libc.{Posix}
use aser.Os
use Cpus.{find_false}

pub record Hopper : Type 0 where
  pub sampling_interval : ℕ
  pub cpu_mapping : List (ℤ × ℕ)
  pub allocated_cpus : List Bool

-- The monitor with the state of the operating system.
pub record Running (W : Type 0) : Type 0 where
  pub self : Hopper
  pub world : W

-- The constructor's members; `cpus` is `std::thread::hardware_concurrency()`.
unfoldable pub init : ℕ → ℕ → Hopper
init sampling_length cpus = record {
  sampling_interval = sampling_length;
  cpu_mapping = [];
  allocated_cpus = replicate cpus false;
}

abbrev or_throw : {S : Type 0} → Option ℕ → Exec S ℕ
or_throw none = throw (runtime_error "No available CPUs")
or_throw (some i) = pure i

-- `cpu_mapping_[pid] = cpu; allocated_cpus_[cpu] = true;`
unfoldable pub assign : ℤ → ℕ → Hopper → Hopper
assign pid cpu h = record h {
  cpu_mapping = insert pid cpu h.cpu_mapping;
  allocated_cpus = set h.allocated_cpus cpu true;
}

-- `allocated_cpus_[cpu] = false;`
unfoldable pub release : ℕ → Hopper → Hopper
release cpu h = record h { allocated_cpus = set h.allocated_cpus cpu false }

module _ {W : Type 0} (posix : Posix W) where
  unfoldable pub find_available_cpu : Exec (Running W) ℕ
  find_available_cpu s = or_throw (find_false s.self.allocated_cpus) s

  abbrev on_world : {A : Type 0} → Exec W A → Exec (Running W) A
  on_world m s = let (r, w) = m s.world in (r, record s { world = w })

  abbrev on_self : (Hopper → Hopper) → Exec (Running W) (Unit {0})
  on_self f s = (ok tt, record s { self = f s.self })

  -- The error that is caught goes to `std::cerr`.
  unfoldable pub bind_process : ℤ → ℕ → Exec (Running W) (Unit {0})
  bind_process pid cpu =
      try (on_world (Os.bind_process posix pid cpu)) (λ e. pure tt) >> on_self (assign pid cpu)

  unfoldable pub add_process : ℤ → Exec (Running W) (Unit {0})
  unfolding find_available_cpu bind_process
  add_process pid = do
    cpu ← find_available_cpu
    bind_process pid cpu
    full ← gets (λ s. length s.self.cpu_mapping == length s.self.allocated_cpus)
    if full then throw (runtime_error "Too many processes") else pure tt

  unfoldable pub hop_process : ℤ → ℕ → Exec (Running W) (Unit {0})
  unfolding find_available_cpu bind_process
  hop_process pid cpu = do
    new_cpu ← find_available_cpu
    bind_process pid new_cpu
    on_self (release cpu)

  -- One round of the loop for the entry with key `pid`; its CPU is read from the map at this point.
  unfoldable pub hop_entry : ℤ → Exec (Running W) (Unit {0})
  unfolding hop_process
  hop_entry pid s = elim (lookup pid s.self.cpu_mapping) [
    | none ↦ pure tt s
    | some cpu ↦ hop_process pid cpu s
  ]

  hop_entries : List ℤ → Exec (Running W) (Unit {0})
  hop_entries [] = pure tt
  hop_entries (pid ∷ pids) = hop_entry pid >> hop_entries pids

  -- The keys do not change while the map is iterated: each entry that is assigned exists.
  unfoldable pub hop_processes : Exec (Running W) (Unit {0})
  unfolding hop_entries
  hop_processes s = hop_entries (keys s.self.cpu_mapping) s

  -- `sleep_for` changes nothing here.
  unfoldable pub loop_impl : Exec (Running W) (Unit {0})
  unfolding hop_processes
  loop_impl = hop_processes
