-- ===== src/Process/Pipe/Ends.antt =====
-- Each end of a pipe is closed once.
use aser.Prelude.{
  minus_one, if◌then◌else◌, ℤ, pos, ◌≡◌, ◌⊎◌, inl, inr, refl, true, false, eqb_ℤ, Bool-cases,
}
use aser.Outcome.{ok, stop, thrown, system_error}
use aser.Libc.{Posix}
use aser.Process.Pipe.{
  close_both, EndPoint, read_end, write_end, Pipe, closed, descriptor, forget, is_open, Running,
  close, destroy, move, no_throw,
}

is_open-forget : (ep : EndPoint) (p : Pipe) → is_open ep (forget ep p) ≡ false
unfolding is_open descriptor forget
is_open-forget read_end p = refl
is_open-forget write_end p = refl

module _ {W : Type 0} (posix : Posix W) where
  -- What `close` does with an end: it is closed already and nothing happens; or the system refuses,
  -- the call throws, and the pipe keeps the descriptor; or the descriptor is closed and forgotten.
  abbrev pub AlreadyClosed : EndPoint → Running W → Type 0
  AlreadyClosed ep s = (is_open ep s.pipe ≡ false) × (close posix ep s ≡ (ok tt, s))

  abbrev pub Refused : EndPoint → Running W → Type 0
  Refused ep s =
      let w = (posix.close (descriptor ep s.pipe) s.world).1 in
      (is_open ep s.pipe ≡ true)
      × (close posix ep s ≡ (
        stop (thrown (system_error (posix.errno w) "Error closing pipe")),
        record s { world = w },
      ))

  abbrev pub Closed : EndPoint → Running W → Type 0
  Closed ep s =
      let w = (posix.close (descriptor ep s.pipe) s.world).1 in
      let s' : Running W = record { pipe = forget ep s.pipe; world = w } in
      (is_open ep s.pipe ≡ true)
      × (close posix ep s ≡ (ok tt, s'))
      × (is_open ep s'.pipe ≡ false)
      × (close posix ep s' ≡ (ok tt, s'))

  -- An end that is closed already is left alone; otherwise the descriptor is closed, and either the
  -- call throws and the end stays open, or it returns, the end is closed, and a second close makes
  -- no call.
  close_lem : (ep : EndPoint) (s : Running W) → AlreadyClosed ep s ⊎ (Refused ep s ⊎ Closed ep s)
  unfolding close
  close_lem ep s = elim (Bool-cases (is_open ep s.pipe)) [
    | inr e ↦ inl (e, rw e)
    | inl e ↦
        inr (elim (Bool-cases (eqb_ℤ (posix.close (descriptor ep s.pipe) s.world).0 (pos 0))) [
          | inr f ↦ inl (e, rw (e, f))
          | inl f ↦ inr (e, rw (e, f), is_open-forget ep s.pipe, rw (is_open-forget ep s.pipe))
        ])
  ]

  -- Let the system close every descriptor. The destructor of a pipe with both ends open closes the
  -- descriptor to read and then the one to write, and ends; after a move, the destructor of the new
  -- pipe does that, and the destructor of the old one makes no call.
  pub pipe_destroy-move :
      ((fd : ℤ) (w : W) → (posix.close fd w).0 ≡ pos 0)
      → (p : Pipe) (w : W) → is_open read_end p ≡ true
      → is_open write_end p ≡ true
      → let (new, old) = move p in
        (destroy posix (record { pipe = new; world = w }) ≡ (
          ok tt,
          record { pipe = closed; world = (posix.close p.write_fd (posix.close p.read_fd w).1).1 },
        ))
        × (destroy posix (record { pipe = old; world = w })
            ≡ (ok tt, record { pipe = closed; world = w }))
  unfolding move destroy close is_open descriptor forget no_throw
  pipe_destroy-move closes p w r wr =
      (rw (r, closes p.read_fd w, wr, closes p.write_fd (posix.close p.read_fd w).1), refl)

module _ {W : Type 0} (posix : Posix W) where
  -- What closing an end does to the system: nothing, if it is closed.
  abbrev pub close_end : ℤ → W → W
  close_end fd w = if eqb_ℤ fd minus_one then w else (posix.close fd w).1

  abbrev pub close_pipe : Pipe → W → W
  close_pipe p w = close_end p.write_fd (close_end p.read_fd w)

  -- The destructor, when the system closes every descriptor.
  pub pipe_destroyed :
      ((fd : ℤ) (w : W) → (posix.close fd w).0 ≡ pos 0)
      → (p : Pipe) (w : W)
      → (q : Pipe) × (destroy posix (record { pipe = p; world = w })
          ≡ (ok tt, record { pipe = q; world = close_pipe p w }))
  unfolding destroy close_both close is_open descriptor forget
  pipe_destroyed closes p w =
      let v = close_end p.read_fd w in
      elim (Bool-cases (eqb_ℤ p.read_fd minus_one)) [
        | inl read_shut ↦ elim (Bool-cases (eqb_ℤ p.write_fd minus_one)) [
          | inl write_shut ↦ (p, rw (read_shut, write_shut) refl)
          | inr write_open ↦ (
            record p { write_fd = minus_one },
            rw (read_shut, write_open, closes p.write_fd w) refl,
          )
        ]
        | inr read_open ↦ elim (Bool-cases (eqb_ℤ p.write_fd minus_one)) [
          | inl write_shut ↦ (
            record p { read_fd = minus_one },
            rw (read_open, closes p.read_fd w, write_shut) refl,
          )
          | inr write_open ↦ (
            closed,
            rw
                (
                  read_open,
                  closes p.read_fd w,
                  write_open,
                  closes p.write_fd (posix.close p.read_fd w).1,
                )
                refl,
          )
        ]
      ]
