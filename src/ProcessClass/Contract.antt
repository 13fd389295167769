-- ===== src/ProcessClass/Contract.antt =====
-- What a class of processes promises when the calls of the system succeed: a process is prepared,
-- then started, and it has ended once it was waited for.
use aser.Prelude.{ℤ, ◌≡◌, ◌⊎◌}
use aser.Outcome.{Result, Exception, ok, stop, thrown}
use aser.ProcessClass.{ProcessClass}

-- A call that returns, or throws.
abbrev pub Drops : Result (Unit {0}) → Type 0
Drops r = (r ≡ ok tt) ⊎ ((e : Exception) × (r ≡ stop (thrown e)))

pub record Contract {P W : Type 0} (c : ProcessClass P W) : Type 1 where
  pub Prepared : ℤ → P → Type 0
  pub Started : ℤ → P → Type 0
  pub Ended : ℤ → P → Type 0
  pub pid_lem : (pid : ℤ) (p : P) → Prepared pid p → c.pid p ≡ ok pid
  pub start_lem :
      (pid : ℤ) (p : P) (w : W)
      → Prepared pid p
      → (p' : P) × (w' : W) × (c.start p w ≡ (ok tt, p', w')) × Started pid p'
  pub wait_lem :
      (pid : ℤ) (p : P) (w : W)
      → Started pid p
      → (p' : P) × (w' : W) × (st : ℤ) × (c.wait p w ≡ (ok tt, p', w'))
        × Ended pid p'
        × (c.pid p' ≡ ok pid)
        × (c.termination_status p' ≡ ok st)
  pub kill_lem :
      (pid : ℤ) (p : P) (w : W)
      → Started pid p ⊎ Ended pid p
      → (r : Result (Unit {0})) × (w' : W) × (c.kill_process p w ≡ (r, p, w')) × Drops r
