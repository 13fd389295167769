-- ===== src/Process/Kill.antt =====
-- util/kill.h and util/kill.cc.
use aser.Prelude.{ℤ, pos, negsuc, zero, suc, minus_one}
use aser.Outcome.{Exec, pure, ◌>>=◌, ◌>>◌}
use aser.Libc.{Posix, error_if_equal}

-- `-n`, of an `int`.
abbrev pub negate : ℤ → ℤ
negate (pos zero) = pos zero
negate (pos (suc n)) = negsuc n
negate (negsuc n) = pos (suc n)

module _ {W : Type 0} (posix : Posix W) where
  unfoldable pub kill : ℤ → Exec W (Unit {0})
  kill pid w =
      let (r, w') = posix.kill pid posix.sigkill w in
      (error_if_equal posix.errno r minus_one "Error killing a process" >> pure tt) w'

  signal_group : ℤ → Exec W (Unit {0})
  signal_group gid w =
      let (r, w') = posix.kill (negate gid) posix.sigkill w in
      (error_if_equal posix.errno r minus_one "Error killing a process group" >> pure tt) w'

  unfoldable pub kill_group : ℤ → Exec W (Unit {0})
  unfolding signal_group
  kill_group pid w =
      let (r, w') = posix.getpgid pid w in
      (error_if_equal posix.errno r minus_one "Error getting the group id" >>= signal_group) w'
