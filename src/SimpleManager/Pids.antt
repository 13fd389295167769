-- ===== src/SimpleManager/Pids.antt =====
-- The pids of the processes in the slots.
use aser.Prelude.{
  suc, map, arith, ℕ, ℤ, ◌≡◌, refl, ap, ◌∙◌, true, List, [], ◌∷◌, Option, none, some, length,
  get_elem?,
}
use aser.Process.Sync.Object.{SyncObject}
use aser.Process.Sync.Keeping.{SyncPrepared}
use aser.SimpleManager.Completion.{Aligned}
use aser.SimpleManager.Destroying.{AllTerminated}

-- The pids of the processes in the slots.
abbrev pub pids_of : {W : Type 0} → List (Option (SyncObject W)) → List ℤ
pids_of [] = []
pids_of (none ∷ slots) = pids_of slots
pids_of (some o ∷ slots) = o.process.pid ∷ pids_of slots

pub pids_of-Aligned :
    {W : Type 0} (pids : List ℤ) (slots : List (Option (SyncObject W)))
    → Aligned SyncPrepared pids slots
    → pids ≡ pids_of slots
pids_of-Aligned [] [] a = refl
pids_of-Aligned [] (x ∷ slots) a = absurd a
pids_of-Aligned (pid ∷ pids) [] a = absurd a
pids_of-Aligned (pid ∷ pids) (none ∷ slots) a = absurd a
pids_of-Aligned (pid ∷ pids) (some o ∷ slots) (prepared, a) =
    rw (prepared.0.0, ← pids_of-Aligned pids slots a) refl

-- Slots in which every process is there and counts as terminated.
pub slots_lem :
    {W : Type 0} (pids : List ℤ) (slots : List (Option (SyncObject W)))
    → length slots ≡ length pids
    → ((i : ℕ) (pid : ℤ)
        → get_elem? pids i ≡ some pid
        → (o : SyncObject W) × (get_elem? slots i ≡ some (some o))
          × (o.process.pid ≡ pid)
          × (o.process.terminated ≡ true))
    → (os : List (SyncObject W)) × (slots ≡ map some os)
      × (map (λ o. o.process.pid) os ≡ pids)
      × AllTerminated os
slots_lem [] [] size all = ([], refl, refl, tt)
slots_lem [] (x ∷ slots) size all = absurd cc
slots_lem (pid ∷ pids) [] size all = absurd cc
slots_lem (pid ∷ pids) (x ∷ slots) size all =
    let (o, here, has, over) = all 0 pid refl in
    let first : x ≡ some o = cc in
    let (os, rest, same, gone) =
      slots_lem pids slots (omega (arith, size)) (λ i q at. all (suc i) q at) in
    (
      o ∷ os,
      ap (λ t. t ∷ slots) first ∙ ap (λ l. some o ∷ l) rest,
      rw (has, same) refl,
      (over, gone),
    )
