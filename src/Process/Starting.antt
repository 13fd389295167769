-- ===== src/Process/Starting.antt =====
-- The parent's side of `start`.
use aser.Prelude.{
  ℤ, pos, minus_one, ◌≡◌, ◌≢◌, ◌⊎◌, inl, inr, false, true, List, ◌∷◌, String, Bool-cases, eqb_ℤ,
  eqb_ℤ_iff, ne→eqb_ℤ, arith,
}
use aser.Outcome.{ok}
use aser.Libc.{Posix}
use aser.Process.Config.{on_fork_setup, on_fork_error, on_fork_success}
use aser.Process.{Running, started, forked, start}

module _ {V : Type 0} (posix : Posix V) where
  -- What the parent does with what `fork` has returned: it calls the callback for the error and the
  -- process stays not started, or it stores the pid and calls the callback for success.
  abbrev pub ForkFailed : Running V → V → Type 0
  ForkFailed s v =
      let called = on_fork_error s.process.config (posix.errno v) v in
      start posix s ≡ (called.0, record s { world = called.1 })

  abbrev pub Forked : ℤ → Running V → V → Type 0
  Forked pid s v =
      let called = on_fork_success s.process.config v in
      start posix s
      ≡ (called.0, record { process = record (s.process) { pid = pid }; world = called.1 })

  -- Let a process not be started, its path exist, the callback before the fork return, and `fork`
  -- return in the parent. If it returned -1, `start` does what the callback for an error does, and
  -- the process stays not started; otherwise it does what the callback for success does, and the
  -- process has the pid of the child, also if the callback throws.
  pub start-parent :
      (s : Running V) (path : String) (rest : List String) (v v' : V) (pid : ℤ)
      → started s.process ≡ false
      → s.process.args ≡ path ∷ rest
      → posix.exists path s.world ≡ true
      → on_fork_setup s.process.config s.world ≡ (ok tt, v)
      → posix.fork v ≡ (pid, v')
      → pid ≢ pos 0
      → ((pid ≡ minus_one) × ForkFailed s v') ⊎ ((pid ≢ minus_one) × Forked pid s v')
  unfolding start forked
  start-parent s path rest v v' pid st a there setup fork parent =
      elim (Bool-cases (eqb_ℤ pid minus_one)) [
        | inl e ↦ inl ((eqb_ℤ_iff pid minus_one).0 e, rw (st, a, there, setup, fork, e))
        | inr e ↦ inr (
          λ same. ground (arith, eqb_ℤ_iff pid minus_one),
          rw (st, a, there, setup, fork, e, ne→eqb_ℤ pid (pos 0) parent),
        )
      ]
