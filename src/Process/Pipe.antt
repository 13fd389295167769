-- ===== src/Process/Pipe.antt =====
-- The class `pipe` of util/process.h and util/process.cc.
pub mod Ends
use aser.Prelude.{ℕ, ◌-◌, ◌^◌, ℤ, pos, negsuc, minus_one, Bool, not, List, eqb_ℤ, if◌then◌else◌}
use aser.Outcome.{Exec, Result, ok, stop, aborted, runtime_error, pure, throw, ◌>>=◌, ◌>>◌}
use aser.Libc.{Posix, error_if_equal, error_if_not_equal}
use aser.Os

pub data EndPoint : Type 0 where
  read_end write_end : EndPoint

-- `fd_`, by its index.
pub record Pipe : Type 0 where
  pub read_fd : ℤ
  pub write_fd : ℤ

abbrev pub closed : Pipe
closed = record { read_fd = minus_one; write_fd = minus_one }

unfoldable pub descriptor : EndPoint → Pipe → ℤ
descriptor read_end p = p.read_fd
descriptor write_end p = p.write_fd

unfoldable pub forget : EndPoint → Pipe → Pipe
forget read_end p = record p { read_fd = minus_one }
forget write_end p = record p { write_fd = minus_one }

unfoldable pub is_open : EndPoint → Pipe → Bool
unfolding descriptor
is_open ep p = not (eqb_ℤ (descriptor ep p) minus_one)

-- A `ssize_t` as a `size_t`.
abbrev pub to_size : ℤ → ℕ
to_size (pos n) = n
to_size (negsuc n) = 2 ^ 64 - 1 - n

-- A pipe with the state of the system.
pub record Running (W : Type 0) : Type 0 where
  pub pipe : Pipe
  pub world : W

-- What an exception in a `noexcept` function becomes.
unfoldable pub no_throw : Result (Unit {0}) → Result (Unit {0})
no_throw (ok u) = ok u
no_throw (stop x) = stop aborted

module _ {W : Type 0} (posix : Posix W) where
  errno : Running W → ℤ
  errno s = posix.errno s.world

  made : ℤ → ℤ × ℤ → Exec W Pipe
  made r fd =
      error_if_not_equal posix.errno r (pos 0) "Error creating pipe"
      >> pure (record { read_fd = fd.0; write_fd = fd.1 })

  -- `pipe()`
  unfoldable pub make : Exec W Pipe
  unfolding made
  make w = let (r, fd, w') = posix.pipe (minus_one, minus_one) w in made r fd w'

  -- `pipe(int flags)`
  unfoldable pub make_with : ℤ → Exec W Pipe
  make_with flags = Os.pipe2 posix (minus_one, minus_one) flags >>= λ fd.
      pure (record { read_fd = fd.0; write_fd = fd.1 })

  close_open : EndPoint → Exec (Running W) (Unit {0})
  unfolding descriptor forget errno
  close_open ep s =
      let (r, w) = posix.close (descriptor ep s.pipe) s.world in
      (error_if_not_equal errno r (pos 0) "Error closing pipe"
          >> (λ t. (ok tt, record t { pipe = forget ep t.pipe })))
        (record s { world = w })

  unfoldable pub close : EndPoint → Exec (Running W) (Unit {0})
  unfolding close_open
  close ep s = if is_open ep s.pipe then close_open ep s else (ok tt, s)

  close_both : Exec (Running W) (Unit {0})
  unfolding close
  close_both = close read_end >> close write_end

  -- The destructor, which is `noexcept`: an exception ends the program.
  unfoldable pub destroy : Exec (Running W) (Unit {0})
  unfolding close_both no_throw
  destroy s = let (r, s') = close_both s in (no_throw r, s')

  -- `operator=(pipe&&)`, on the pipe of the state; `other` is returned as it is left.
  unfoldable pub assign : Pipe → Exec (Running W) Pipe
  unfolding close_both
  assign other = close_both >> λ s. (ok closed, record s { pipe = other })

  -- `read`: the number of bytes that it returns, and the bytes.
  unfoldable pub read : ℕ → Exec (Running W) (ℕ × List ℕ)
  unfolding errno
  read nbyte s =
      if is_open read_end s.pipe
      then (let (r, bytes, w) = posix.read s.pipe.read_fd nbyte s.world in
          (error_if_equal errno r minus_one "Error reading from pipe" >>= λ n.
          pure (to_size n, bytes))
            (record s { world = w }))
      else throw (runtime_error "Cannot read from closed pipe") s

  unfoldable pub write : List ℕ → Exec (Running W) ℕ
  unfolding errno
  write bytes s =
      if is_open write_end s.pipe
      then (let (r, w) = posix.write s.pipe.write_fd bytes s.world in
          (error_if_equal errno r minus_one "Error writing to pipe" >>= λ n. pure (to_size n))
            (record s { world = w }))
      else throw (runtime_error "Cannot write to closed pipe") s

-- `pipe(pipe&&)`: the new pipe, and what is left of the other.
unfoldable pub move : Pipe → Pipe × Pipe
move other = (other, closed)
