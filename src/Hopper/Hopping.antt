-- ===== src/Hopper/Hopping.antt =====
-- Hopping: every process moves to another CPU, as long as one CPU is free.
use aser.Prelude.{
  ℕ, ℤ, ◌<◌, ◌≡◌, ◌≢◌, sym, ap, Option, refl, ◌∙◌, inl, inr, false, List, [], ◌∷◌, none, some,
  arith, lookup, keys, ℤ_key, eqb_ℤ, eqb_ℤ_iff, Distinct, Bool-cases,
}
use aser.Outcome.{ok}
use aser.Libc.{Posix}
use aser.Os
use aser.Hopper.Cpus.{free, find_false-Finds, IsFirstFree}
use aser.Hopper.Invariant.{
  cpu_of, is_allocated, Inv, bind_process_lem, moved, cpu_of-moved, free-moved, keys-moved,
  moved-Inv, old_ne,
}
use aser.Hopper.{
  Hopper, Running, find_available_cpu, hop_process, hop_entry, hop_entries, hop_processes,
}

module _ {W : Type 0} (posix : Posix W) where
  pub find_available_cpu_lem :
      (s : Running W)
      → 0 < free s.self.allocated_cpus
      → (i : ℕ) × (find_available_cpu posix s ≡ (ok i, s)) × IsFirstFree s.self.allocated_cpus i
  unfolding find_available_cpu
  find_available_cpu_lem s room = elim (find_false-Finds s.self.allocated_cpus) [
    | inl (z, e) ↦ absurd (omega arith)
    | inr (i, e, p, f) ↦ (i, rw e, f)
  ]

  hop_process_lem :
      (pid : ℤ) (old : ℕ) (s : Running W)
      → 0 < free s.self.allocated_cpus
      → (cpu : ℕ) × (hop_process posix pid old s ≡ (
        ok tt,
        record { self = moved s.self pid old cpu; world = Os.on_cpu posix pid cpu s.world },
      ))
        × IsFirstFree s.self.allocated_cpus cpu
  unfolding hop_process
  hop_process_lem pid old s room =
      let (i, found, first) = find_available_cpu_lem s room in
      (i, rw (found, bind_process_lem posix pid i s), first)

-- The entries of `rest` have hopped from `h` to `h'`; the other processes stay where they are.
pub record Hopped (rest : List (ℤ × ℕ)) (h h' : Hopper) : Type 0 where
  pub kept : Inv h'
  pub as_free : free h'.allocated_cpus ≡ free h.allocated_cpus
  pub same_keys : keys h'.cpu_mapping ≡ keys h.cpu_mapping
  pub moves :
      (pid : ℤ) (old : ℕ)
      → lookup pid rest ≡ some old
      → (new : ℕ) × (cpu_of h' pid ≡ some new) × (new ≢ old)
  pub stays : (pid : ℤ) → lookup pid rest ≡ none → cpu_of h' pid ≡ cpu_of h pid

-- `rest` holds entries of `h`.
abbrev Within : List (ℤ × ℕ) → Hopper → Type 0
Within rest h = (pid : ℤ) (cpu : ℕ) → lookup pid rest ≡ some cpu → cpu_of h pid ≡ some cpu

module _ (h : Hopper) (pid : ℤ) (old cpu : ℕ) (rest : List (ℤ × ℕ)) (v : Inv h)
    (here : cpu_of h pid ≡ some old) (is_free : is_allocated h cpu ≡ some false)
    (once : lookup pid rest ≡ none) where
  Within-moved : Within ((pid, old) ∷ rest) h → Within rest (moved h pid old cpu)
  unfolding lookup
  Within-moved inside p c e =
      ground (arith, cpu_of-moved h pid cpu v is_free old here p, inside p c, eqb_ℤ_iff pid p)

  Hopped-cons :
      {h' : Hopper} → Hopped rest (moved h pid old cpu) h' → Hopped ((pid, old) ∷ rest) h h'
  unfolding lookup
  Hopped-cons {h'} r = record {
    kept = r.kept;
    as_free = r.as_free ∙ free-moved h pid cpu v is_free old here;
    same_keys = r.same_keys ∙ keys-moved h pid cpu v is_free old here;
    moves = λ p c e. elim (Bool-cases (eqb_ℤ pid p)) [
      | inl same ↦ (
        cpu,
        ground (arith, r.stays p, cpu_of-moved h pid cpu v is_free old here p, eqb_ℤ_iff pid p),
        λ q. old_ne h pid cpu v is_free old here (ground arith),
      )
      | inr other ↦ r.moves p c (ground arith)
    ];
    stays = λ p e. ground (arith, r.stays p, cpu_of-moved h pid cpu v is_free old here p);
  }

-- The system is asked to put each of the processes on the CPU that the table has, in their order.
module _ {W : Type 0} (posix : Posix W) where
  abbrev pub bind_at : ℤ → Option ℕ → W → W
  bind_at pid none w = w
  bind_at pid (some cpu) w = Os.on_cpu posix pid cpu w

  abbrev pub bind_each : List ℤ → Hopper → W → W
  bind_each [] h w = w
  bind_each (pid ∷ pids) h w = bind_each pids h (bind_at pid (cpu_of h pid) w)

module _ {W : Type 0} (posix : Posix W) where
  hop_entry_lem :
      (pid : ℤ) (old : ℕ) (s : Running W)
      → cpu_of s.self pid ≡ some old
      → hop_entry posix pid s ≡ hop_process posix pid old s
  unfolding hop_entry
  hop_entry_lem pid old s here = rw (here, hop_entry)

  hop_entries_lem :
      (rest : List (ℤ × ℕ)) (s : Running W)
      → Inv s.self
      → 0 < free s.self.allocated_cpus
      → Distinct rest
      → Within rest s.self
      → (s' : Running W) × (hop_entries posix (keys rest) s ≡ (ok tt, s'))
        × Hopped rest s.self s'.self
        × (s'.world ≡ bind_each posix (keys rest) s'.self s.world)
  unfolding hop_entries
  hop_entries_lem [] s v room d inside = (
    s,
    refl,
    record {
      kept = v;
      as_free = refl;
      same_keys = refl;
      moves = λ p c e. absurd (unfold lookup in cc);
      stays = λ p e. refl;
    },
    refl,
  )
  hop_entries_lem ((pid, old) ∷ rest) s v room d inside =
      let here : cpu_of s.self pid ≡ some old =
        inside pid old (unfold lookup in ground (arith, eqb_ℤ_iff pid pid)) in
      let (cpu, hops, first) = hop_process_lem posix pid old s room in
      let s₁ : Running W = record {
        self = moved s.self pid old cpu;
        world = Os.on_cpu posix pid cpu s.world;
      } in
      let v₁ = moved-Inv s.self pid cpu v first.is_free old here in
      let (s', runs, all, bound) =
        hop_entries_lem rest s₁ v₁ (rw (free-moved s.self pid cpu v first.is_free old here) room)
          d.1 (Within-moved s.self pid old cpu rest v here first.is_free d.0 inside) in
      let there : cpu_of s'.self pid ≡ some cpu =
        all.stays pid d.0
        ∙ ground
            (arith, cpu_of-moved s.self pid cpu v first.is_free old here pid, eqb_ℤ_iff pid pid) in
      (
        s',
        rw (hop_entry_lem pid old s here, hops) runs,
        Hopped-cons s.self pid old cpu rest v here first.is_free d.0 all,
        bound
            ∙ ap (λ o. bind_each posix (keys rest) s'.self (bind_at posix pid o s.world))
                (sym there),
      )

  -- From a consistent state in which at least one CPU is free, `hop_processes` returns; every
  -- process then has another CPU than before, the system was asked for it once for each process and for
  -- nothing else, and the state is consistent, with as many free CPUs and the same processes.
  pub hop_processes-Hopped :
      (s : Running W)
      → Inv s.self
      → 0 < free s.self.allocated_cpus
      → (s' : Running W) × (hop_processes posix s ≡ (ok tt, s'))
        × Hopped s.self.cpu_mapping s.self s'.self
        × (s'.world ≡ bind_each posix (keys s.self.cpu_mapping) s'.self s.world)
  unfolding hop_processes
  hop_processes-Hopped s v room =
      hop_entries_lem s.self.cpu_mapping s v room v.distinct (λ p c e. e)
