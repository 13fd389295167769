-- ===== src/Tests/HopperTests.antt =====
-- Runs of the monitor that moves processes between CPUs.
use aser.Prelude.{
  ℕ, pos, ◌<◌, ◌≡◌, ◌⊎◌, refl, [], ◌∷◌, arith, lookup, keys, insert, insert_new, replace,
}
use aser.Outcome.{ok, stop, thrown, runtime_error}
use aser.Os
use aser.Tests.Machine.{machine}
use aser.Hopper.Cpus.{free, find_false}
use aser.Hopper.Invariant.{Inv, assign-Inv}
use aser.Hopper.Hopping.{Hopped, bind_each, hop_processes-Hopped}
use aser.Hopper.Adding.{Placed, init-Inv, verdict, add_process-Placed}
use aser.Hopper.{
  Running, assign, release, init, add_process, bind_process, hop_process, find_available_cpu,
  hop_entry, hop_processes,
}

-- Three CPUs, and no process yet.
abbrev empty : Running ℕ
empty = record { self = init 500 3; world = 3 }

empty-Inv : Inv empty.self
empty-Inv = (init-Inv 500 3).0

add_process-Placed_example :
    ((free empty.self.allocated_cpus ≡ 0)
      × (add_process machine (pos 100) empty
          ≡ (stop (thrown (runtime_error "No available CPUs")), empty)))
    ⊎ ((0 < free empty.self.allocated_cpus)
        × ((s' : Running ℕ) × (add_process machine (pos 100) empty
              ≡ (verdict (free empty.self.allocated_cpus), s'))
            × (p : Placed (pos 100) empty.self s'.self) × (s'.world
                ≡ Os.on_cpu machine (pos 100) p.cpu empty.world)))
unfolding init lookup
add_process-Placed_example = add_process-Placed machine (pos 100) empty empty-Inv refl

-- Processes 100 and 101 on CPUs 0 and 1.
abbrev busy : Running ℕ
busy = record { self = assign (pos 101) 1 (assign (pos 100) 0 empty.self); world = 3 }

busy-Inv : Inv busy.self
unfolding assign init lookup insert insert_new
busy-Inv =
    assign-Inv (assign (pos 100) 0 empty.self) (pos 101) 1
      (assign-Inv empty.self (pos 100) 0 empty-Inv refl refl) refl refl

hop_processes-Hopped_example :
    (s' : Running ℕ) × (hop_processes machine busy ≡ (ok tt, s'))
    × Hopped busy.self.cpu_mapping busy.self s'.self
    × (s'.world ≡ bind_each machine (keys busy.self.cpu_mapping) s'.self busy.world)
unfolding assign init free
hop_processes-Hopped_example = hop_processes-Hopped machine busy busy-Inv (omega arith)

hops_run : (hop_processes machine busy).1.self.cpu_mapping ≡ (pos 100, 2) ∷ (pos 101, 0) ∷ []
unfolding hop_processes hop_entry bind_process find_false assign release init lookup insert
    insert_new replace hop_process find_available_cpu Os.bind_process
hops_run = refl
