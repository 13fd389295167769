-- ===== src/Hopper/Invariant.antt =====
-- Who holds which CPU, and that every operation keeps this.
use aser.Prelude.{
  ℕ, ℤ, ◌+◌, ◌<◌, ◌≡◌, ◌≢◌, refl, ap, inl, inr, Bool, true, false, Option, none, some, arith, ◌==◌,
  if◌then◌else◌, length, set, get_elem?, get_elem?-set, length-set, lt_length_of_get, lookup, keys,
  ℤ_key, eqb_ℤ, eqb_ℤ_iff, lookup-insert, length-insert_fresh, keys-insert_present, length-keys,
  Distinct, Distinct-insert, Bool-cases,
}
use aser.Outcome.{ok}
use aser.Libc.{Posix}
use aser.Os
use aser.Hopper.Cpus.{free, free-set-true, free-set-false}
use aser.Hopper.{Hopper, Running, assign, release, bind_process}

abbrev pub cpu_of : Hopper → ℤ → Option ℕ
cpu_of h pid = lookup pid h.cpu_mapping

abbrev pub is_allocated : Hopper → ℕ → Option Bool
is_allocated h cpu = get_elem? h.allocated_cpus cpu

-- A CPU is marked as allocated exactly if a process is mapped to it, no two processes share one,
-- and the marks are as many as the processes.
pub record Inv (h : Hopper) : Type 0 where
  pub held : (pid : ℤ) (cpu : ℕ) → cpu_of h pid ≡ some cpu → is_allocated h cpu ≡ some true
  pub owned : (cpu : ℕ) → is_allocated h cpu ≡ some true → (pid : ℤ) × (cpu_of h pid ≡ some cpu)
  pub unique : (p q : ℤ) (cpu : ℕ) → cpu_of h p ≡ some cpu → cpu_of h q ≡ some cpu → p ≡ q
  pub distinct : Distinct h.cpu_mapping
  pub counted : free h.allocated_cpus + length h.cpu_mapping ≡ length h.allocated_cpus

module _ {W : Type 0} (posix : Posix W) where
  -- The system is asked once for that CPU; whether it agrees or not, the tables are written.
  pub bind_process_lem :
      (pid : ℤ) (cpu : ℕ) (s : Running W)
      → bind_process posix pid cpu s
        ≡ (ok tt, record { self = assign pid cpu s.self; world = Os.on_cpu posix pid cpu s.world })
  unfolding bind_process
  bind_process_lem pid cpu s = elim (Os.bind_process_ends posix pid cpu s.world) [
    | inl e ↦ rw (e, Os.bind_process-on_cpu posix pid cpu s.world) refl
    | inr (x, e) ↦ rw (e, Os.bind_process-on_cpu posix pid cpu s.world) refl
  ]

-- Process `pid` goes from CPU `old` to CPU `cpu`.
abbrev pub moved : Hopper → ℤ → ℕ → ℕ → Hopper
moved h pid old cpu = release old (assign pid cpu h)

-- Where a process is, and what is allocated, after an assignment.
module _ (h : Hopper) (pid : ℤ) (cpu : ℕ) where
  pub cpu_of-assign :
      (p : ℤ) → cpu_of (assign pid cpu h) p ≡ (if eqb_ℤ pid p then some cpu else cpu_of h p)
  unfolding assign
  cpu_of-assign p = lookup-insert pid p cpu h.cpu_mapping

  is_allocated-assign :
      (c : ℕ)
      → cpu < length h.allocated_cpus
      → is_allocated (assign pid cpu h) c ≡ (if cpu == c then some true else is_allocated h c)
  unfolding assign
  is_allocated-assign c lt = ground (arith, get_elem?-set h.allocated_cpus cpu true c)

is_allocated-release :
    (h : Hopper) (cpu c : ℕ)
    → cpu < length h.allocated_cpus
    → is_allocated (release cpu h) c ≡ (if cpu == c then some false else is_allocated h c)
unfolding release
is_allocated-release h cpu c lt = ground (arith, get_elem?-set h.allocated_cpus cpu false c)

module _ (h : Hopper) (pid : ℤ) (cpu : ℕ) (v : Inv h)
    (is_free : is_allocated h cpu ≡ some false) where
  in_range : cpu < length h.allocated_cpus
  in_range = lt_length_of_get h.allocated_cpus cpu false is_free

  -- A new process on a free CPU.
  pub assign-Inv : cpu_of h pid ≡ none → Inv (assign pid cpu h)
  assign-Inv fresh = record {
    held = λ p c e.
        ground
          (arith, cpu_of-assign h pid cpu p, is_allocated-assign h pid cpu c in_range, v.held p c);
    owned = λ c e. elim (Bool-cases (cpu == c)) [
      | inl same ↦ (pid, ground (arith, cpu_of-assign h pid cpu pid))
      | inr other ↦
          let (p, at) = v.owned c (ground (arith, is_allocated-assign h pid cpu c in_range)) in
          (p, ground (arith, cpu_of-assign h pid cpu p, eqb_ℤ_iff pid p))
    ];
    unique = λ p q c e f. ground (
      arith,
      cpu_of-assign h pid cpu p,
      cpu_of-assign h pid cpu q,
      eqb_ℤ_iff pid p,
      eqb_ℤ_iff pid q,
      v.unique p q c,
      v.held p c,
      v.held q c,
    );
    distinct = unfold assign in Distinct-insert pid cpu h.cpu_mapping v.distinct;
    counted =
        unfold assign in
        omega (
          arith,
          v.counted,
          free-set-true h.allocated_cpus cpu is_free,
          length-insert_fresh pid cpu h.cpu_mapping fresh,
          length-set h.allocated_cpus cpu true,
        );
  }

  -- A process that moves from CPU `old` to a free one.
  module _ (old : ℕ) (here : cpu_of h pid ≡ some old) where
    pub cpu_of-moved :
        (p : ℤ) → cpu_of (moved h pid old cpu) p ≡ (if eqb_ℤ pid p then some cpu else cpu_of h p)
    unfolding release
    cpu_of-moved p = cpu_of-assign h pid cpu p

    pub old_ne : old ≢ cpu
    old_ne = λ e. ground (arith, v.held pid old here)

    pub length-moved : length (moved h pid old cpu).allocated_cpus ≡ length h.allocated_cpus
    unfolding release assign
    length-moved = omega (
      arith,
      length-set (set h.allocated_cpus cpu true) old false,
      length-set h.allocated_cpus cpu true,
    )

    old_lt : old < length (assign pid cpu h).allocated_cpus
    unfolding assign
    old_lt = omega (
      arith,
      length-set h.allocated_cpus cpu true,
      lt_length_of_get h.allocated_cpus old true (v.held pid old here),
    )

    is_allocated-moved :
        (c : ℕ)
        → is_allocated (moved h pid old cpu) c
          ≡ (if old == c then some false else if cpu == c then some true else is_allocated h c)
    is_allocated-moved c = rw (
      is_allocated-release (assign pid cpu h) old c old_lt,
      is_allocated-assign h pid cpu c in_range,
    )

    pub free-moved : free (moved h pid old cpu).allocated_cpus ≡ free h.allocated_cpus
    unfolding release assign
    free-moved = omega (
      arith,
      free-set-true h.allocated_cpus cpu is_free,
      free-set-false (set h.allocated_cpus cpu true) old (
          ground (arith, get_elem?-set h.allocated_cpus cpu true old, v.held pid old here, old_ne)),
    )

    pub keys-moved : keys (moved h pid old cpu).cpu_mapping ≡ keys h.cpu_mapping
    unfolding release assign
    keys-moved = keys-insert_present pid cpu h.cpu_mapping here

    pub moved-Inv : Inv (moved h pid old cpu)
    moved-Inv = record {
      held = λ p c e. ground (
        arith,
        cpu_of-moved p,
        is_allocated-moved c,
        v.held p c,
        v.unique pid p old here,
        eqb_ℤ_iff pid p,
        old_ne,
      );
      owned = λ c e. elim (Bool-cases (cpu == c)) [
        | inl same ↦ (pid, ground (arith, cpu_of-moved pid))
        | inr other ↦
            let (p, at) = v.owned c (ground (arith, is_allocated-moved c)) in
            (p, ground (arith, cpu_of-moved p, is_allocated-moved c, eqb_ℤ_iff pid p))
      ];
      unique = λ p q c e f. ground (
        arith,
        cpu_of-moved p,
        cpu_of-moved q,
        eqb_ℤ_iff pid p,
        eqb_ℤ_iff pid q,
        v.unique p q c,
        v.held p c,
        v.held q c,
      );
      distinct = unfold release assign in Distinct-insert pid cpu h.cpu_mapping v.distinct;
      counted = omega (
        arith,
        v.counted,
        free-moved,
        length-moved,
        ap length keys-moved,
        length-keys (moved h pid old cpu).cpu_mapping,
        length-keys h.cpu_mapping,
      );
    }
