-- ===== src/Factory/Registry.antt =====
-- The order in which the creators are registered does not matter.
use text.Mathlib.TextEquality.{eq_iff}
use aser.Prelude.{String, ◌≡◌, ◌≢◌, none, some, List, lookup, insert_new, lookup-insert_new, arith}
use aser.Outcome.{ok, stop, aborted}
use aser.Factory.{string_key, register_creator, create}

module _ {C : Type 0} where
  register_creator_new :
      (id : String) (creator : C) (creators : List (String × C))
      → lookup id creators ≡ none
      → register_creator id creator creators ≡ (ok tt, insert_new id creator creators)
  unfolding register_creator
  register_creator_new id creator creators e = rw e

  create-registered :
      (id : String) (creator : C) (creators : List (String × C))
      → lookup id creators ≡ none
      → create id (register_creator id creator creators).1 ≡ ok creator
  unfolding create register_creator
  create-registered id creator creators e =
      let there : lookup id (insert_new id creator creators) ≡ some creator =
        ground (arith, lookup-insert_new id id creator creators e, eq_iff id id) in
      rw (e, there)

  -- Registering a name that is new returns; afterwards `create` of that name finds that creator,
  -- `create` of another name finds what it found before, and to register the name again is a failed
  -- assertion.
  pub create-register_creator :
      (id other : String) (creator again : C) (creators : List (String × C))
      → lookup id creators ≡ none
      → other ≢ id
      → (creators' : List (String × C)) × (register_creator id creator creators
          ≡ (ok tt, creators'))
        × (create id creators' ≡ ok creator)
        × (create other creators' ≡ create other creators)
        × (register_creator id again creators' ≡ (stop aborted, creators'))
  unfolding create register_creator
  create-register_creator id other creator again creators e ne =
      let creators' = insert_new id creator creators in
      let there : lookup id creators' ≡ some creator =
        ground (arith, lookup-insert_new id id creator creators e, eq_iff id id) in
      (
        creators',
        rw e,
        rw there,
        ground (arith, lookup-insert_new id other creator creators e, eq_iff id other),
        rw there,
      )

  -- Two new names that differ can be registered in either order: what `create` finds is the same.
  register_creator_comm :
      (i j : String) (a b : C) (creators : List (String × C))
      → i ≢ j
      → lookup i creators ≡ none
      → lookup j creators ≡ none
      → (other : String)
      → create other (register_creator j b (register_creator i a creators).1).1
        ≡ create other (register_creator i a (register_creator j b creators).1).1
  unfolding create
  register_creator_comm i j a b creators ne ei ej other =
      let first = register_creator_new i a creators ei in
      let second = register_creator_new j b creators ej in
      let j_new : lookup j (insert_new i a creators) ≡ none =
        ground (arith, lookup-insert_new i j a creators ei, eq_iff i j) in
      let i_new : lookup i (insert_new j b creators) ≡ none =
        ground (arith, lookup-insert_new j i b creators ej, eq_iff j i) in
      rw
        (
          first,
          second,
          register_creator_new j b (insert_new i a creators) j_new,
          register_creator_new i a (insert_new j b creators) i_new,
          lookup-insert_new j other b (insert_new i a creators) j_new,
          lookup-insert_new i other a (insert_new j b creators) i_new,
          lookup-insert_new i other a creators ei,
          lookup-insert_new j other b creators ej,
        )
        (ground (arith, eq_iff i other, eq_iff j other))
