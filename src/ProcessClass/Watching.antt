-- ===== src/ProcessClass/Watching.antt =====
-- What can be said of the system while the manager calls `start`, `wait` and `kill` of its processes.
use aser.Prelude.{ℤ, ◌≡◌, ◌⊎◌, List, [], ◌∷◌, Option, none, some}
use aser.Outcome.{Result, ok}
use aser.ProcessClass.{ProcessClass}
use aser.ProcessClass.Contract.{Contract}

module _ {P W : Type 0} {c : ProcessClass P W} (k : Contract c) where
  open k use {Prepared, Started, Ended}

  -- `Q` is kept by the calls of a process that is in the phase for them.
  abbrev pub StartKeeps : (W → Type 0) → Type 0
  StartKeeps Q =
      (pid : ℤ) (p : P) (w : W) (p' : P) (w' : W)
      → Prepared pid p
      → c.start p w ≡ (ok tt, p', w')
      → Q w
      → Q w'

  abbrev pub WaitKeeps : (W → Type 0) → Type 0
  WaitKeeps Q =
      (pid : ℤ) (p : P) (w : W) (p' : P) (w' : W)
      → Started pid p
      → c.wait p w ≡ (ok tt, p', w')
      → Q w
      → Q w'

  abbrev pub KillKeeps : (W → Type 0) → Type 0
  KillKeeps Q =
      (pid : ℤ) (p : P) (w : W) (r : Result (Unit {0})) (w' : W)
      → Started pid p ⊎ Ended pid p
      → c.kill_process p w ≡ (r, p, w')
      → Q w
      → Q w'

  -- `Went p` says of the system that `start` was called on `p`; `Q` is anything else that the calls up
  -- to the first end of a process keep.
  pub record Watched (Went : P → W → Type 0) (Q : W → Type 0) : Type 0 where
    pub went :
        (pid : ℤ) (p : P) (w : W) (p' : P) (w' : W)
        → Prepared pid p
        → c.start p w ≡ (ok tt, p', w')
        → Went p w'
    pub start_went : (p : P) → StartKeeps (Went p)
    pub wait_went : (p : P) → WaitKeeps (Went p)
    pub start_keeps : StartKeeps Q
    pub wait_keeps : WaitKeeps Q

  -- `Shot pid` says of the system that the process was killed.
  pub record Signalling (Went : P → W → Type 0) (Shot : ℤ → W → Type 0) : Type 0 where
    pub shot :
        (pid : ℤ) (p : P) (w : W) (r : Result (Unit {0})) (w' : W)
        → Started pid p
        → c.kill_process p w ≡ (r, p, w')
        → Shot pid w'
    pub wait_shot : (pid : ℤ) → WaitKeeps (Shot pid)
    pub kill_shot : (pid : ℤ) → KillKeeps (Shot pid)
    pub kill_went : (p : P) → KillKeeps (Went p)

module _ {P W : Type 0} (Went : P → W → Type 0) where
  abbrev pub AllWent : List (Option P) → W → Type 0
  AllWent [] w = Unit
  AllWent (none ∷ ps) w = AllWent ps w
  AllWent (some p ∷ ps) w = Went p w × AllWent ps w

  pub AllWent-map :
      (ps : List (Option P)) (w w' : W)
      → ((p : P) → Went p w → Went p w')
      → AllWent ps w
      → AllWent ps w'
  AllWent-map [] w w' f a = tt
  AllWent-map (none ∷ ps) w w' f a = AllWent-map ps w w' f a
  AllWent-map (some p ∷ ps) w w' f a = (f p a.0, AllWent-map ps w w' f a.1)
