-- ===== src/Factory.antt =====
-- util/factory.h: creators by name. `C` is what a creator makes of its arguments.
pub mod Registry
pub mod Registrars
use Prim.Native.String.{compare}
use text.Mathlib.Text.{is_lt, ◌==◌ as str_eq}
use text.Mathlib.TextEquality.{eq_iff}
use aser.Prelude.{String, Option, none, some, List, [], Key, lookup, insert_new}
use aser.Outcome.{Exec, Result, ok, stop, thrown, aborted, invalid_argument}

instance abbrev pub string_key : Key String
string_key = record { beq = str_eq; lt = λ a b. is_lt (compare a b); beq_iff = eq_iff }

module _ {C : Type 0} where
  -- `creators_` of a new factory.
  abbrev pub no_creators : List (String × C)
  no_creators = []

  -- `emplace`, and the assertion that the name is new.
  emplace : Option C → String → C → Exec (List (String × C)) (Unit {0})
  emplace (some _) id creator creators = (stop aborted, creators)
  emplace none id creator creators = (ok tt, insert_new id creator creators)

  -- `register_creator`, which an object of class `registar` calls at its construction.
  unfoldable pub register_creator : String → C → Exec (List (String × C)) (Unit {0})
  unfolding emplace
  register_creator id creator creators = emplace (lookup id creators) id creator creators

  found : Option C → Result C
  found none = stop (thrown (invalid_argument "Invalid id"))
  found (some creator) = ok creator

  -- `create`, up to the call of the creator that it finds.
  unfoldable pub create : String → List (String × C) → Result C
  unfolding found
  create id creators = found (lookup id creators)

  -- The constructor of class `registar`, on the instance of the factory.
  unfoldable pub registar : String → C → Exec (List (String × C)) (Unit {0})
  registar id creator = register_creator id creator

module _ {A B W : Type 0} where
  called : Result (A → Exec W B) → A → Exec W B
  called (ok creator) args w = creator args w
  called (stop x) args w = (stop x, w)

  -- The function `create`: the creator of that name makes the object; its constructor works on the
  -- system and may throw.
  unfoldable pub create_object : String → A → List (String × (A → Exec W B)) → Exec W B
  unfolding create called
  create_object id args creators = called (create id creators) args
