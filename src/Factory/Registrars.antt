-- ===== src/Factory/Registrars.antt =====
-- The objects of class `registar` of the program, which are constructed before `main` runs, in an
-- order that is not specified between files.
use text.Mathlib.Text.{◌==◌ as str_eq}
use text.Mathlib.TextEquality.{eq_iff}
use aser.Prelude.{
  Bool, true, false, ap, sym, if◌then◌else◌, String, ◌≡◌, ◌∙◌, refl, none, some, Option, List, [],
  ◌∷◌, lookup, insert_new, lookup-insert_new, Distinct, arith,
}
use aser.Outcome.{Exec, ok, ◌>>◌}
use aser.Factory.{string_key, register_creator, registar, create}

module _ {C : Type 0} where
  -- exec_monitor/cpu_hopper.cc, exec_monitor/pmc_sampler.cc and exec_monitor/simple.cc: monitors.
  abbrev pub cpu_hopper_registar : C → String × C
  cpu_hopper_registar creator = ("cpu-hopper", creator)

  abbrev pub pmc_sampler_linux_registar : C → String × C
  pmc_sampler_linux_registar creator = ("pmc-sampler[linux]", creator)

  abbrev pub pmc_sampler_dummy_registar : C → String × C
  pmc_sampler_dummy_registar creator = ("pmc-sampler[dummy]", creator)

  abbrev pub simple_monitor_registar : C → String × C
  simple_monitor_registar creator = ("simple", creator)

  -- exec_manager/simple.cc, in the factory of managers.
  abbrev pub simple_manager_registar : C → String × C
  simple_manager_registar creator = ("simple", creator)

  -- Their construction, one after the other.
  unfoldable pub run_registrars : List (String × C) → Exec (List (String × C)) (Unit {0})
  run_registrars [] creators = (ok tt, creators)
  run_registrars ((id, creator) ∷ rs) creators = (registar id creator >> run_registrars rs) creators

  -- The names are new.
  abbrev New : List (String × C) → List (String × C) → Type 0
  New [] creators = Unit
  New ((id, creator) ∷ rs) creators = (lookup id creators ≡ none) × New rs creators

  New-insert_new :
      (id : String) (creator : C) (rs creators : List (String × C))
      → lookup id creators ≡ none
      → lookup id rs ≡ none
      → New rs creators
      → New rs (insert_new id creator creators)
  unfolding lookup
  New-insert_new id creator [] creators h absent new = tt
  New-insert_new id creator ((j, d) ∷ rs) creators h absent new = (
    ground (arith, lookup-insert_new id j creator creators h, eq_iff id j, eq_iff j id),
    New-insert_new id creator rs creators h (ground arith) new.1,
  )

  -- The first that has an entry.
  abbrev either : Option C → Option C → Option C
  either (some c) d = some c
  either none d = d

  either_none : (o : Option C) → either o none ≡ o
  either_none none = refl
  either_none (some c) = refl

  run_registrars_lem :
      (rs creators : List (String × C)) (id : String)
      → Distinct rs
      → New rs creators
      → (creators' : List (String × C)) × (run_registrars rs creators ≡ (ok tt, creators'))
        × (lookup id creators' ≡ either (lookup id rs) (lookup id creators))
  unfolding run_registrars registar register_creator lookup
  run_registrars_lem [] creators id d new = (creators, refl, refl)
  run_registrars_lem ((j, c) ∷ rs) creators id d new =
      let (creators', runs, finds) =
        run_registrars_lem rs (insert_new j c creators) id d.1
          (New-insert_new j c rs creators new.0 d.0 new.1) in
      (
        creators',
        rw new.0 runs,
        finds ∙ rw (lookup-insert_new j id c creators new.0) (go (str_eq j id) refl),
      )
    where
      go :
          (b : Bool)
          → str_eq j id ≡ b
          → either (lookup id rs) (if b then some c else lookup id creators)
            ≡ either (if b then some c else lookup id rs) (lookup id creators)
      go true e =
          let absent : lookup id rs ≡ none =
            ap (λ i. lookup i rs) (sym ((eq_iff j id).0 e)) ∙ d.0 in
          rw absent refl
      go false e = refl

  New-empty : (rs : List (String × C)) → New rs []
  unfolding lookup
  New-empty [] = tt
  New-empty ((id, c) ∷ rs) = (refl, New-empty rs)

  -- Let registrars have different names. In whichever order they stand in the list, their construction
  -- returns, and afterwards `create` finds under a name the creator of the registrar of that name,
  -- and throws if there is none.
  pub create-run_registrars :
      (rs : List (String × C)) (id : String)
      → Distinct rs
      → let (result, creators') = run_registrars rs [] in
        (result ≡ ok tt) × (create id creators' ≡ create id rs)
  unfolding create lookup
  create-run_registrars rs id d =
      let (creators', runs, finds) = run_registrars_lem rs [] id d (New-empty rs) in
      (rw runs refl, rw (runs, finds, either_none (lookup id rs)) refl)
