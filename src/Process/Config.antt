-- ===== src/Process/Config.antt =====
-- The class `process_config` of util/process.h and util/process.cc: five callbacks, each of which
-- may be empty. The functions of one name differ by their arguments: `on_…` calls, `set_…` sets.
use aser.Prelude.{ℤ, Option, none, some}
use aser.Outcome.{Exec, pure}

pub record ProcessConfig (V : Type 0) : Type 0 where
  pub fork_setup_callback : Option (Exec V (Unit {0}))
  pub exec_setup_callback : Option (Exec V (Unit {0}))
  pub fork_success_callback : Option (Exec V (Unit {0}))
  pub fork_error_callback : Option (ℤ → Exec V (Unit {0}))
  pub exec_error_callback : Option (ℤ → Exec V (Unit {0}))

module _ {V : Type 0} where
  abbrev pub default_config : ProcessConfig V
  default_config = record {
    fork_setup_callback = none;
    exec_setup_callback = none;
    fork_success_callback = none;
    fork_error_callback = none;
    exec_error_callback = none;
  }

  abbrev run : Option (Exec V (Unit {0})) → Exec V (Unit {0})
  run none = pure tt
  run (some f) = f

  abbrev run_with : ℤ → Option (ℤ → Exec V (Unit {0})) → Exec V (Unit {0})
  run_with code none = pure tt
  run_with code (some f) = f code

  unfoldable pub on_fork_setup : ProcessConfig V → Exec V (Unit {0})
  on_fork_setup c = run c.fork_setup_callback

  unfoldable pub set_fork_setup : Exec V (Unit {0}) → ProcessConfig V → ProcessConfig V
  set_fork_setup func c = record c { fork_setup_callback = some func }

  unfoldable pub on_fork_error : ProcessConfig V → ℤ → Exec V (Unit {0})
  on_fork_error c code = run_with code c.fork_error_callback

  unfoldable pub set_fork_error : (ℤ → Exec V (Unit {0})) → ProcessConfig V → ProcessConfig V
  set_fork_error func c = record c { fork_error_callback = some func }

  unfoldable pub on_exec_setup : ProcessConfig V → Exec V (Unit {0})
  on_exec_setup c = run c.exec_setup_callback

  unfoldable pub set_exec_setup : Exec V (Unit {0}) → ProcessConfig V → ProcessConfig V
  set_exec_setup func c = record c { exec_setup_callback = some func }

  unfoldable pub on_exec_error : ProcessConfig V → ℤ → Exec V (Unit {0})
  on_exec_error c code = run_with code c.exec_error_callback

  unfoldable pub set_exec_error : (ℤ → Exec V (Unit {0})) → ProcessConfig V → ProcessConfig V
  set_exec_error func c = record c { exec_error_callback = some func }

  unfoldable pub on_fork_success : ProcessConfig V → Exec V (Unit {0})
  on_fork_success c = run c.fork_success_callback

  unfoldable pub set_fork_success : Exec V (Unit {0}) → ProcessConfig V → ProcessConfig V
  set_fork_success func c = record c { fork_success_callback = some func }
