-- ===== src/Os.antt =====
-- util/os.h and util/detail/linux/os.cc.
use aser.Prelude.{ℕ, ℤ, ◌≡◌, refl, ◌⊎◌, pos, minus_one, [], ◌∷◌, inl, inr, Bool-cases, eqb_ℤ}
use aser.Outcome.{Exec, Exception, system_error, ok, stop, thrown, ◌>>◌, pure}
use aser.Libc.{Posix, error_if_equal, error_if_not_equal}

module _ {W : Type 0} (posix : Posix W) where
  -- `CPU_ZERO` and `CPU_SET` make the set of the one CPU.
  unfoldable pub bind_process : ℤ → ℕ → Exec W (Unit {0})
  bind_process pid cpu w =
      let (r, w') = posix.sched_setaffinity pid (cpu ∷ []) w in
      (error_if_equal posix.errno r minus_one "Error binding process to CPU" >> pure tt) w'

  -- The array of descriptors is given and returned.
  unfoldable pub pipe2 : ℤ × ℤ → ℤ → Exec W (ℤ × ℤ)
  pipe2 fd flags w =
      let (r, fd', w') = posix.pipe2 flags fd w in
      (error_if_not_equal posix.errno r (pos 0) "Error at pipe2" >> pure fd') w'

  -- What the call does to the system, whether it succeeds or not.
  abbrev pub on_cpu : ℤ → ℕ → W → W
  on_cpu pid cpu w = (posix.sched_setaffinity pid (cpu ∷ []) w).1

  pub bind_process-on_cpu :
      (pid : ℤ) (cpu : ℕ) (w : W) → (bind_process pid cpu w).1 ≡ on_cpu pid cpu w
  unfolding bind_process
  bind_process-on_cpu pid cpu w =
      elim (Bool-cases (eqb_ℤ (posix.sched_setaffinity pid (cpu ∷ []) w).0 minus_one)) [
        | inl e ↦ rw e refl
        | inr e ↦ rw e refl
      ]

  -- The call returns or throws, and nothing else.
  pub bind_process_ends :
      (pid : ℤ) (cpu : ℕ) (w : W)
      → ((bind_process pid cpu w).0 ≡ ok tt)
        ⊎ ((e : Exception) × ((bind_process pid cpu w).0 ≡ stop (thrown e)))
  unfolding bind_process
  bind_process_ends pid cpu w =
      let (r, w') = posix.sched_setaffinity pid (cpu ∷ []) w in
      elim (Bool-cases (eqb_ℤ r minus_one)) [
        | inl e ↦ inr (system_error (posix.errno w') "Error binding process to CPU", rw e)
        | inr e ↦ inl (rw e)
      ]
