-- ===== src/SimpleManager/Killing.antt =====
-- The end of `start_impl`: what the system sees of the loop that kills the processes.
use aser.Prelude.{ℕ, ℤ, minus_one, ◌≡◌, refl, inl, inr, false, List, [], ◌∷◌, some, map, eqb_ℤ}
use aser.Outcome.{ok}
use aser.Libc.{Posix}
use aser.Process.Sync.Object.{SyncObject, sync_class}
use aser.Process.Sync.Keeping.{signalled, kill_process_lem}
use aser.SimpleManager.Slots.{kill_slots}

module _ {W : Type 0} (posix : Posix W) (cloexec status : ℤ) (garbage : ℕ) where
  abbrev pub AllStarted : List (SyncObject W) → Type 0
  AllStarted [] = Unit
  AllStarted (o ∷ os) = (eqb_ℤ o.process.pid minus_one ≡ false) × AllStarted os

  -- `SIGKILL` to each process that does not count as terminated, in the order of the slots.
  abbrev pub all_signalled : List (SyncObject W) → W → W
  all_signalled [] w = w
  all_signalled (o ∷ os) w = all_signalled os (signalled posix o w)

  -- Let each slot have a process that was started. Then the loop that kills them returns and leaves
  -- the objects as they are, whatever the system answers. It has called the system once for
  -- each process that does not count as terminated, in the order of the slots, to send it `SIGKILL`,
  -- and has made no other call.
  pub kill_slots-all_signalled :
      (os : List (SyncObject W)) (w : W)
      → AllStarted os
      → kill_slots (sync_class posix cloexec status garbage) (map some os) w
        ≡ (ok tt, map some os, all_signalled os w)
  unfolding kill_slots
  kill_slots-all_signalled [] w all = refl
  kill_slots-all_signalled (o ∷ os) w all =
      let (r, kills, drops) = kill_process_lem posix cloexec status garbage o w all.0 in
      let rest = kill_slots-all_signalled os (signalled posix o w) all.1 in
      elim drops [
        | inl e ↦ rw (kills, e, kill_slots, rest)
        | inr (x, e) ↦ rw (kills, e, kill_slots, rest)
      ]
