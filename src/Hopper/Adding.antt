-- ===== src/Hopper/Adding.antt =====
-- A new process: where it goes, and when the monitor refuses it.
use aser.Prelude.{
  ℕ, suc, ℤ, ◌<◌, ◌≡◌, ◌≢◌, sym, ◌⊎◌, refl, inl, inr, true, false, none, some, arith, ◌==◌, length,
  if◌then◌else◌, eqb_ℤ_iff, length-set, ap, length-insert_fresh, replicate, length-replicate,
  get_elem?, zero, lookup, Bool-cases, ℤ_key,
}
use aser.Outcome.{Result, ok, stop, thrown, runtime_error}
use aser.Libc.{Posix}
use aser.Os
use aser.Hopper.Cpus.{find_false, free, find_false-Finds, IsFirstFree, free-set-true}
use aser.Hopper.Invariant.{cpu_of, Inv, bind_process_lem, assign-Inv, cpu_of-assign}
use aser.Hopper.Hopping.{find_available_cpu_lem}
use aser.Hopper.{Hopper, Running, init, assign, find_available_cpu, add_process}

-- `pid` has been put on the first free CPU of `h`, and nothing else has changed.
pub record Placed (pid : ℤ) (h h' : Hopper) : Type 0 where
  pub cpu : ℕ
  pub first : IsFirstFree h.allocated_cpus cpu
  pub placed : cpu_of h' pid ≡ some cpu
  pub kept : Inv h'
  pub one_less : suc (free h'.allocated_cpus) ≡ free h.allocated_cpus
  pub others : (p : ℤ) → p ≢ pid → cpu_of h' p ≡ cpu_of h p

assign-Placed :
    (h : Hopper) (pid : ℤ) (cpu : ℕ)
    → Inv h
    → cpu_of h pid ≡ none
    → IsFirstFree h.allocated_cpus cpu
    → (p : Placed pid h (assign pid cpu h)) × (p.cpu ≡ cpu)
assign-Placed h pid cpu v fresh first = (
  record {
    cpu = cpu;
    first = first;
    placed = ground (arith, cpu_of-assign h pid cpu pid, eqb_ℤ_iff pid pid);
    kept = assign-Inv h pid cpu v first.is_free fresh;
    one_less = unfold assign in free-set-true h.allocated_cpus cpu first.is_free;
    others = λ p ne. ground (arith, cpu_of-assign h pid cpu p, eqb_ℤ_iff pid p);
  },
  refl,
)

-- What `add_process` returns: it refuses the process that takes the last free CPU.
abbrev pub verdict : ℕ → Result (Unit {0})
verdict room = if room == 1 then stop (thrown (runtime_error "Too many processes")) else ok tt

full-assign :
    (h : Hopper) (pid : ℤ) (cpu : ℕ)
    → Inv h
    → cpu_of h pid ≡ none
    → (length (assign pid cpu h).cpu_mapping == length (assign pid cpu h).allocated_cpus)
      ≡ (free h.allocated_cpus == 1)
unfolding assign
full-assign h pid cpu v fresh = ground (
  arith,
  v.counted,
  length-insert_fresh pid cpu h.cpu_mapping fresh,
  length-set h.allocated_cpus cpu true,
)

zero_or_more : (n : ℕ) → (n ≡ 0) ⊎ (0 < n)
zero_or_more zero = inl refl
zero_or_more (suc n) = inr (omega arith)

module _ {W : Type 0} (posix : Posix W) where
  none_found :
      (s : Running W)
      → find_false s.self.allocated_cpus ≡ none
      → find_available_cpu posix s ≡ (stop (thrown (runtime_error "No available CPUs")), s)
  unfolding find_available_cpu
  none_found s e = rw e

  add_process-full :
      (pid : ℤ) (s : Running W)
      → free s.self.allocated_cpus ≡ 0
      → add_process posix pid s ≡ (stop (thrown (runtime_error "No available CPUs")), s)
  unfolding add_process
  add_process-full pid s full = elim (find_false-Finds s.self.allocated_cpus) [
    | inl (z, e) ↦ rw (none_found s e)
    | inr (i, e, p, f) ↦ absurd (omega arith)
  ]

  pub add_process-room :
      (pid : ℤ) (s : Running W)
      → Inv s.self
      → cpu_of s.self pid ≡ none
      → 0 < free s.self.allocated_cpus
      → (s' : Running W) × (add_process posix pid s ≡ (verdict (free s.self.allocated_cpus), s'))
        × (p : Placed pid s.self s'.self) × (s'.world ≡ Os.on_cpu posix pid p.cpu s.world)
  unfolding add_process
  add_process-room pid s v fresh room =
      let (cpu, found, first) = find_available_cpu_lem posix s room in
      let bound = bind_process_lem posix pid cpu s in
      let (placed, same) = assign-Placed s.self pid cpu v fresh first in
      (
        record { self = assign pid cpu s.self; world = Os.on_cpu posix pid cpu s.world },
        rw (found, bound, full-assign s.self pid cpu v fresh)
            (elim (Bool-cases (free s.self.allocated_cpus == 1)) [ inl e ↦ rw e | inr e ↦ rw e ]),
        placed,
        ap (λ i. Os.on_cpu posix pid i s.world) (sym same),
      )

  -- From a consistent state, `add_process` of a new pid throws and changes nothing if no CPU is
  -- free; otherwise it gives the process the first free CPU and asks the system once for it, and for
  -- nothing else, which stays done also when that was the last free CPU and the call throws; and it
  -- returns if more than one CPU was free.
  pub add_process-Placed :
      (pid : ℤ) (s : Running W)
      → Inv s.self
      → cpu_of s.self pid ≡ none
      → ((free s.self.allocated_cpus ≡ 0)
          × (add_process posix pid s ≡ (stop (thrown (runtime_error "No available CPUs")), s)))
        ⊎ ((0 < free s.self.allocated_cpus)
            × ((s' : Running W) × (add_process posix pid s
                  ≡ (verdict (free s.self.allocated_cpus), s'))
                × (p : Placed pid s.self s'.self) × (s'.world ≡ Os.on_cpu posix pid p.cpu s.world)))
  add_process-Placed pid s v fresh = elim (zero_or_more (free s.self.allocated_cpus)) [
    | inl full ↦ inl (full, add_process-full pid s full)
    | inr room ↦ inr (room, add_process-room pid s v fresh room)
  ]

not_taken : (n c : ℕ) → get_elem? (replicate n false) c ≢ some true
not_taken zero c e = cc
not_taken (suc n) zero e = cc
not_taken (suc n) (suc c) e = not_taken n c e

all_free : (n : ℕ) → free (replicate n false) ≡ n
unfolding free
all_free zero = refl
all_free (suc n) = ap suc (all_free n)

-- A new monitor is consistent, with every CPU free.
pub init-Inv : (ms cpus : ℕ) → Inv (init ms cpus) × (free (init ms cpus).allocated_cpus ≡ cpus)
unfolding init
init-Inv ms cpus = (
  record {
    held = λ p c e. absurd (unfold lookup in cc);
    owned = λ c e. absurd (not_taken cpus c e);
    unique = λ p q c e f. absurd (unfold lookup in cc);
    distinct = tt;
    counted = omega (arith, all_free cpus, length-replicate cpus false);
  },
  all_free cpus,
)
