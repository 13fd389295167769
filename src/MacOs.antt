-- ===== src/MacOs.antt =====
-- util/detail/mac/os.cc: the functions of util/os.h on a system without `pipe2`.
pub mod Marking
use Prim.Native.Nat.{◌/◌}
use aser.Prelude.{
  ℕ, ◌+◌, ◌-◌, ◌%◌, ◌^◌, ℤ, pos, negsuc, minus_one, Bool, true, not, if◌then◌else◌, ◌==◌,
}
use aser.Outcome.{Exec, logic_error, invalid_argument, throw, pure, ◌>>=◌, ◌>>◌}
use aser.Libc.{Posix, error_if_equal, error_if_not_equal}

-- `fcntl` with `F_GETFD` and with `F_SETFD`, and the positions of the bits `O_CLOEXEC` and
-- `FD_CLOEXEC` in an `int`.
pub record Fcntl (W : Type 0) : Type 0 where
  pub getfd : ℤ → W → ℤ × W
  pub setfd : ℤ → ℤ → W → ℤ × W
  pub o_cloexec : ℕ
  pub fd_cloexec : ℕ

-- The bit `k` of a number.
unfoldable pub test_bit : ℕ → ℕ → Bool
test_bit k n = n / 2 ^ k % 2 == 1

unfoldable pub set_bit : ℕ → ℕ → ℕ
unfolding test_bit
set_bit k n = if test_bit k n then n else n + 2 ^ k

unfoldable pub clear_bit : ℕ → ℕ → ℕ
unfolding test_bit
clear_bit k n = if test_bit k n then n - 2 ^ k else n

-- Whether `x & (1 << k)` is not 0; a negative number is in two's complement.
unfoldable pub has_flag : ℕ → ℤ → Bool
unfolding test_bit
has_flag k (pos n) = test_bit k n
has_flag k (negsuc n) = not (test_bit k n)

-- Whether `x & ~(1 << k)` is not 0, for a bit that is not the sign.
unfoldable pub has_others : ℕ → ℤ → Bool
unfolding clear_bit
has_others k (pos n) = not (clear_bit k n == 0)
has_others k (negsuc n) = true

-- `x | (1 << k)`
unfoldable pub with_flag : ℕ → ℤ → ℤ
unfolding set_bit clear_bit
with_flag k (pos n) = pos (set_bit k n)
with_flag k (negsuc n) = negsuc (clear_bit k n)

module _ {W : Type 0} (posix : Posix W) (fcntl : Fcntl W) where
  set_flags : ℤ → ℤ → Exec W (Unit {0})
  set_flags fd flags w =
      let (r, w') = fcntl.setfd fd flags w in
      (error_if_equal posix.errno r minus_one "Error settings flags" >> pure tt) w'

  -- The body of the loop, for one descriptor.
  unfoldable pub mark : ℤ → ℤ → Exec W (Unit {0})
  unfolding set_flags has_others has_flag with_flag
  mark flags fd w =
      let (r, w') = fcntl.getfd fd w in
      (error_if_equal posix.errno r minus_one "Error getting flags" >>= λ fcntl_flags.
      if has_others fcntl.o_cloexec flags
      then throw (invalid_argument "Flags not supported")
      else set_flags fd (
          if has_flag fcntl.o_cloexec flags
          then with_flag fcntl.fd_cloexec fcntl_flags
          else fcntl_flags))
        w'

  -- The array of descriptors is given and returned.
  unfoldable pub pipe2 : ℤ × ℤ → ℤ → Exec W (ℤ × ℤ)
  unfolding mark
  pipe2 fd flags w =
      let (r, fd', w') = posix.pipe fd w in
      (error_if_not_equal posix.errno r (pos 0) "Error creating pipe"
          >> (mark flags fd'.0 >> (mark flags fd'.1 >> pure fd')))
        w'

  unfoldable pub bind_process : ℤ → ℕ → Exec W (Unit {0})
  bind_process pid cpu = throw (logic_error "bind_process() is not supported on this platform")
