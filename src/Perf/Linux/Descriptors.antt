-- ===== src/Perf/Linux/Descriptors.antt =====
-- Who closes the descriptor of an event.
use aser.Prelude.{
  ℕ, ℤ, pos, minus_one, ◌≡◌, ◌≢◌, ◌⊎◌, inl, inr, refl, Bool, Bool-cases, eqb_ℤ, eqb_ℤ_iff, arith,
  arith, ne→eqb_ℤ,
}
use aser.Outcome.{ok, stop, thrown, Exception, system_error}
use aser.Libc.{Posix}
use aser.Perf.{EventInfo}
use aser.Perf.Linux.{
  PerfKernel, EventLinuxImpl, new_impl, attributes, open_event, destroy, read_count, move_impl,
}

module _ {W : Type 0} (posix : Posix W) (kernel : PerfKernel W) where
  -- Let a new object open an event and then be destroyed. If the kernel refuses, `open` throws and
  -- the destructor makes no call; if the kernel gives a descriptor other than 0, `open` returns and
  -- the destructor closes that descriptor, once; if the descriptor is 0, the destructor does not.
  pub destroy-open_event :
      (info : EventInfo) (pid : ℤ) (attach : Bool) (w : W)
      → let (fd, w₁) =
          kernel.perf_event_open
            (attributes posix kernel info attach)
            pid
            minus_one
            minus_one
            0
            w in
        let (r, s) = open_event posix kernel info pid attach (new_impl, w) in
        ((fd ≡ minus_one)
          × (r ≡ stop (thrown (system_error (posix.errno w₁) "Error opening the event")))
          × (destroy posix kernel s.0 s.1 ≡ w₁))
        ⊎ (((fd ≡ pos 0) × (r ≡ ok tt) × (destroy posix kernel s.0 s.1 ≡ w₁))
            ⊎ ((fd ≢ minus_one)
                × (fd ≢ pos 0)
                × (r ≡ ok tt)
                × (destroy posix kernel s.0 s.1 ≡ (posix.close fd w₁).1)))
  unfolding open_event destroy new_impl
  destroy-open_event info pid attach w =
      let (fd, w₁) =
        kernel.perf_event_open (attributes posix kernel info attach) pid minus_one minus_one 0 w in
      elim (Bool-cases (eqb_ℤ fd minus_one)) [
        | inl e ↦ inl ((eqb_ℤ_iff fd minus_one).0 e, rw e, rw e)
        | inr e ↦ inr (elim (Bool-cases (eqb_ℤ fd (pos 0))) [
          | inl z ↦ inl ((eqb_ℤ_iff fd (pos 0)).0 z, rw e, rw (e, z))
          | inr z ↦ inr (
            λ same. ground (arith, eqb_ℤ_iff fd minus_one),
            λ same. ground (arith, eqb_ℤ_iff fd (pos 0)),
            rw e,
            rw (e, z),
          )
        ])
      ]

  -- Let a read from a descriptor that has been closed fail with -1, and let the length of a count
  -- not be that. After an event with an open descriptor is moved, the destructor of the old object
  -- closes the descriptor of the new one, and the next read of the new one throws.
  pub moved_read_throws :
      ((fd : ℤ) (n : ℕ) (w : W) → (posix.read fd n (posix.close fd w).1).0 ≡ minus_one)
      → (impl : EventLinuxImpl) (w : W) → impl.fd ≢ pos 0
      → let (new, old) = move_impl impl in
        (x : Exception) × ((read_count posix kernel (new, destroy posix kernel old w)).0
          ≡ stop (thrown x))
  unfolding read_count move_impl destroy
  moved_read_throws closed impl w ne =
      rw (ne→eqb_ℤ impl.fd (pos 0) ne, closed impl.fd kernel.count_bytes w)
        (system_error _ "Error reading PMC event", refl)
