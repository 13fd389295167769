-- ===== src/Benchmark.antt =====
-- core/benchmark.h, core/benchmark.cc and util/parse.h: the benchmarks of a configuration. Property
-- trees and the split of a text are those of boost, and are parameters.
use aser.Prelude.{ℕ, String, List, [], ◌∷◌}
use aser.Outcome.{Result, ok, stop}

-- What the code asks of a `ptree`: a text at a path, which throws if there is none, and the subtrees
-- in their order.
pub record PropertyTree (T : Type 0) : Type 0 where
  pub get_string : String → T → Result String
  pub get_child : String → T → Result T
  pub children : T → List T

pub record Benchmark : Type 0 where
  pub id : ℕ
  pub name : String
  pub args : List String

module _ {T : Type 0} (ptree : PropertyTree T) (split : String → List String) where
  -- `split` is `boost::split` at each space.
  unfoldable pub parse_cmd : String → List String
  parse_cmd cmd = split cmd

  with_cmd : String → Result String → Result Benchmark
  with_cmd name (ok cmd) = ok (record { id = 0; name = name; args = parse_cmd cmd })
  with_cmd name (stop x) = stop x

  with_name : Result String → Result String → Result Benchmark
  unfolding with_cmd
  with_name (ok name) cmd = with_cmd name cmd
  with_name (stop x) cmd = stop x

  unfoldable pub parse : T → Result Benchmark
  unfolding with_name parse_cmd
  parse pt = with_name (ptree.get_string "name" pt) (ptree.get_string "cmd" pt)

push_parsed : {A : Type 0} → Result A → Result (List A) → Result (List A)
push_parsed (ok a) (ok parsed) = ok (a ∷ parsed)
push_parsed (ok a) (stop x) = stop x
push_parsed (stop x) rest = stop x

module _ {T A : Type 0} where
  transform : (T → Result A) → List T → Result (List A)
  unfolding push_parsed
  transform f [] = ok []
  transform f (t ∷ ts) = push_parsed (f t) (transform f ts)

  -- `parse_vector<A>`, with the `parse` that the type chooses.
  unfoldable pub parse_vector : PropertyTree T → (T → Result A) → T → Result (List A)
  unfolding transform
  parse_vector ptree f pt = transform f (ptree.children pt)
