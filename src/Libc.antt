-- ===== src/Libc.antt =====
-- util/libc_wrapper.h and util/libc_wrapper.cc, and the system calls that the program makes.
use aser.Prelude.{ℕ, ℤ, String, Bool, List, Option, eqb_ℤ, if◌then◌else◌}
use aser.Outcome.{Exec, system_error, throw, pure}

-- The calls of the operating system, over its state `W`. They are parameters of the model: the
-- first part of a result is what the call returns.
pub record Posix (W : Type 0) : Type 0 where
  pub errno : W → ℤ
  pub sigkill : ℤ
  pub kill : ℤ → ℤ → W → ℤ × W
  pub getpid : W → ℤ
  pub getpgid : ℤ → W → ℤ × W
  pub setpgid : ℤ → ℤ → W → ℤ × W
  -- The two descriptors stand in an array that the call may write.
  pub pipe : ℤ × ℤ → W → ℤ × (ℤ × ℤ) × W
  pub pipe2 : ℤ → ℤ × ℤ → W → ℤ × (ℤ × ℤ) × W
  pub close : ℤ → W → ℤ × W
  pub read : ℤ → ℕ → W → ℤ × List ℕ × W
  pub write : ℤ → List ℕ → W → ℤ × W
  pub fork : W → ℤ × W
  -- `none`: the image of the process was replaced, so the call does not return.
  pub execvp : List String → W → Option W
  -- The status stands in a variable that the call may write.
  pub waitpid : ℤ → ℤ → W → ℤ × ℤ × W
  pub wifexited : ℤ → Bool
  pub wifsignaled : ℤ → Bool
  -- A CPU set is the list of its members.
  pub sched_setaffinity : ℤ → List ℕ → W → ℤ × W
  pub exists : String → W → Bool

module _ {S A : Type 0} where
  -- `libc_error(int, const std::string&)`
  abbrev pub libc_error_code : ℤ → String → Exec S A
  libc_error_code code msg = throw (system_error code msg)

  -- `libc_error(const std::string&)`; `errno` is read when the error is raised.
  abbrev pub libc_error : (S → ℤ) → String → Exec S A
  libc_error errno msg s = libc_error_code (errno s) msg s

module _ {S : Type 0} (errno : S → ℤ) where
  abbrev pub error_if_equal : ℤ → ℤ → String → Exec S ℤ
  error_if_equal result error_result msg =
      if eqb_ℤ result error_result then libc_error errno msg else pure result

  abbrev pub error_if_not_equal : ℤ → ℤ → String → Exec S ℤ
  error_if_not_equal result success_result msg =
      if eqb_ℤ result success_result then pure result else libc_error errno msg
