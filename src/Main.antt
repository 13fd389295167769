-- ===== src/Main.antt =====
-- main.cc. The command line, the JSON reader and the property tree are those of boost, and are
-- parameters; a manager is what the creators of the factory make.
use aser.Prelude.{ℕ, String, not, ◌||◌, ◌==◌, List, if◌then◌else◌}
use aser.Outcome.{Exec, Result, ok, stop, exited, halt}
use aser.Benchmark.{PropertyTree}
use aser.Factory.{create_object}

-- `V` is the `variables_map`, with the options and the positional ones; `T` is the `ptree`.
pub record Boost (V T W : Type 0) : Type 0 where
  pub parse : List String → Result V
  pub count : String → V → ℕ
  pub as_string : String → V → Result String
  pub print_options : W → W
  pub read_json : String → W → Result T × W

-- The class `exec_manager`, as `main` uses it.
pub record Managers (M W : Type 0) : Type 0 where
  pub start : M → W → Result (Unit {0}) × M × W
  pub destroy : M → W → Result (Unit {0}) × W

module _ {V T M W : Type 0} (boost : Boost V T W) (ptree : PropertyTree T)
    (managers : Managers M W) where
  ended : Result (Unit {0}) × W → Result ℕ × W
  ended (ok _, w) = (ok 0, w)
  ended (stop x, w) = (stop x, w)

  -- An exception that no one handles ends the program at once.
  started : Result (Unit {0}) × M × W → Result ℕ × W
  unfolding ended
  started (ok _, m, w) = ended (managers.destroy m w)
  started (stop x, m, w) = (stop x, w)

  made : Result M × W → Result ℕ × W
  unfolding started
  made (ok m, w) = started (managers.start m w)
  made (stop x, w) = (stop x, w)

  typed : List (String × (T → Exec W M)) → T → Result String → Exec W ℕ
  unfolding made create_object
  typed creators properties (ok type) w = made (create_object type properties creators w)
  typed creators properties (stop x) w = (stop x, w)

  configured : List (String × (T → Exec W M)) → Result T × W → Result ℕ × W
  unfolding typed
  configured creators (ok properties, w) =
      typed creators properties (ptree.get_string "exec_manager.type" properties) w
  configured creators (stop x, w) = (stop x, w)

  with_file : List (String × (T → Exec W M)) → Result String → Exec W ℕ
  unfolding configured
  with_file creators (ok config_file) w = configured creators (boost.read_json config_file w)
  with_file creators (stop x) w = (stop x, w)

  with_options : List (String × (T → Exec W M)) → Result V → Exec W ℕ
  unfolding with_file
  with_options creators (ok vm) w =
      if not (boost.count "help" vm == 0) || boost.count "config" vm == 0
      then halt (exited 1) (boost.print_options w)
      else with_file creators (boost.as_string "config" vm) w
  with_options creators (stop x) w = (stop x, w)

  unfoldable pub main : List (String × (T → Exec W M)) → List String → Exec W ℕ
  unfolding with_options
  main creators argv = with_options creators (boost.parse argv)
