-- ===== src/Prelude/Maps.antt =====
-- `std::map`: an association list in the order of its keys.
use Prim.Native.Nat.{ℕ, suc}
use mathlib.Core.Path.{◌≡◌, refl, ap}
use mathlib.Core.Logic.{◌↔◌, ◌≢◌, inl, inr}
use mathlib.Core.Bool.{Bool, true}
use mathlib.Core.List.{List, [], ◌∷◌}
use mathlib.Core.Option.{Option, none, some}
use native.Mathlib.Omega.{arith}
use aser.Prelude.Tests.{if◌then◌else◌, Option-cases, Bool-cases, ◌==◌, ltb, ==_iff}
use aser.Prelude.Ints.{ℤ, eqb_ℤ, ltb_ℤ, eqb_ℤ_iff}
use aser.Prelude.Lists.{length}

-- What `std::map` needs of its keys; `lt` only decides the order of iteration.
pub record Key {ℓ} (K : Type ℓ) : Type ℓ where
  pub beq : K → K → Bool
  pub lt : K → K → Bool
  pub beq_iff : (a b : K) → (beq a b ≡ true) ↔ (a ≡ b)

instance abbrev pub ℤ_key : Key ℤ
ℤ_key = record { beq = eqb_ℤ; lt = ltb_ℤ; beq_iff = eqb_ℤ_iff }

instance abbrev pub ℕ_key : Key ℕ
ℕ_key = record { beq = ◌==◌; lt = ltb; beq_iff = ==_iff }

module _ {ℓ κ} {K : Type ℓ} {V : Type κ} where
  abbrev pub keys : List (K × V) → List K
  keys [] = []
  keys ((k, v) ∷ m) = k ∷ keys m

module _ {ℓ κ} {K : Type ℓ} {V : Type κ} ⦃o : Key K⦄ where
  -- `find`
  unfoldable pub lookup : K → List (K × V) → Option V
  lookup k [] = none
  lookup k ((j, v) ∷ m) = if o.beq j k then some v else lookup k m

  -- A new entry, at its place in the order.
  unfoldable pub insert_new : K → V → List (K × V) → List (K × V)
  insert_new k v [] = (k, v) ∷ []
  insert_new k v ((j, w) ∷ m) = if o.lt k j then (k, v) ∷ (j, w) ∷ m else (j, w) ∷ insert_new k v m

  -- A write to the entry that is there.
  unfoldable pub replace : K → V → List (K × V) → List (K × V)
  replace k v [] = []
  replace k v ((j, w) ∷ m) = if o.beq j k then (j, v) ∷ m else (j, w) ∷ replace k v m

  -- `m[k] = v`
  unfoldable pub insert : K → V → List (K × V) → List (K × V)
  insert k v m = elim (lookup k m) [ none ↦ insert_new k v m | some _ ↦ replace k v m ]

  -- `erase(it)`
  unfoldable pub erase : K → List (K × V) → List (K × V)
  erase k [] = []
  erase k ((j, w) ∷ m) = if o.beq j k then m else (j, w) ∷ erase k m

  pub lookup-insert_new :
      (k j : K) (v : V) (m : List (K × V))
      → lookup k m ≡ none
      → lookup j (insert_new k v m) ≡ (if o.beq k j then some v else lookup j m)
  unfolding lookup insert_new
  lookup-insert_new k j v [] h = refl
  lookup-insert_new k j v ((i, w) ∷ m) h =
      ground (arith, o.beq_iff k j, o.beq_iff i k, o.beq_iff i j, lookup-insert_new k j v m)

  lookup-replace :
      (k j : K) (v w : V) (m : List (K × V))
      → lookup k m ≡ some w
      → lookup j (replace k v m) ≡ (if o.beq k j then some v else lookup j m)
  unfolding lookup replace
  lookup-replace k j v u [] h = cc
  lookup-replace k j v u ((i, w) ∷ m) h =
      ground (arith, o.beq_iff k j, o.beq_iff i k, o.beq_iff i j, lookup-replace k j v u m)

  pub lookup-insert :
      (k j : K) (v : V) (m : List (K × V))
      → lookup j (insert k v m) ≡ (if o.beq k j then some v else lookup j m)
  unfolding insert
  lookup-insert k j v m = elim (Option-cases (lookup k m)) [
    | inl e ↦ rw (e, insert) (lookup-insert_new k j v m e)
    | inr (w, e) ↦ rw (e, insert) (lookup-replace k j v w m e)
  ]

  length-insert_new :
      (k : K) (v : V) (m : List (K × V)) → length (insert_new k v m) ≡ suc (length m)
  unfolding insert_new
  length-insert_new k v [] = refl
  length-insert_new k v ((i, w) ∷ m) = ground (arith, length-insert_new k v m)

  pub length-insert_fresh :
      (k : K) (v : V) (m : List (K × V))
      → lookup k m ≡ none
      → length (insert k v m) ≡ suc (length m)
  unfolding insert
  length-insert_fresh k v m e = ground (arith, length-insert_new k v m)

  keys-replace : (k : K) (v : V) (m : List (K × V)) → keys (replace k v m) ≡ keys m
  unfolding replace
  keys-replace k v [] = refl
  keys-replace k v ((i, w) ∷ m) = ground (arith, keys-replace k v m)

  pub keys-insert_present :
      (k : K) (v : V) (m : List (K × V)) {w : V}
      → lookup k m ≡ some w
      → keys (insert k v m) ≡ keys m
  unfolding insert
  keys-insert_present k v m e = ground (arith, keys-replace k v m)

  pub lookup-erase_ne : (k j : K) (m : List (K × V)) → k ≢ j → lookup j (erase k m) ≡ lookup j m
  unfolding lookup erase
  lookup-erase_ne k j [] ne = refl
  lookup-erase_ne k j ((i, w) ∷ m) ne =
      ground (arith, o.beq_iff i k, o.beq_iff i j, lookup-erase_ne k j m)

  -- No two entries have one key.
  abbrev pub Distinct : List (K × V) → Type κ
  Distinct [] = Unit
  Distinct ((k, v) ∷ m) = (lookup k m ≡ none) × Distinct m

  Distinct-insert_new :
      (k : K) (v : V) (m : List (K × V))
      → lookup k m ≡ none
      → Distinct m
      → Distinct (insert_new k v m)
  unfolding lookup insert_new
  Distinct-insert_new k v [] h d = (refl, tt)
  Distinct-insert_new k v ((i, w) ∷ m) h d =
      ground
        (arith, o.beq_iff k i, o.beq_iff i k, lookup-insert_new k i v m, Distinct-insert_new k v m)

  Distinct-replace :
      (k : K) (v w : V) (m : List (K × V))
      → lookup k m ≡ some w
      → Distinct m
      → Distinct (replace k v m)
  unfolding lookup replace
  Distinct-replace k v u [] h d = tt
  Distinct-replace k v u ((i, w) ∷ m) h d =
      ground
        (arith, o.beq_iff k i, o.beq_iff i k, lookup-replace k i v u m, Distinct-replace k v u m)

  pub Distinct-insert : (k : K) (v : V) (m : List (K × V)) → Distinct m → Distinct (insert k v m)
  unfolding insert
  Distinct-insert k v m d = elim (Option-cases (lookup k m)) [
    | inl e ↦ rw (e, insert) (Distinct-insert_new k v m e d)
    | inr (w, e) ↦ rw (e, insert) (Distinct-replace k v w m e d)
  ]

  pub lookup-erase_self : (k : K) (m : List (K × V)) → Distinct m → lookup k (erase k m) ≡ none
  unfolding lookup erase
  lookup-erase_self k [] d = refl
  lookup-erase_self k ((i, w) ∷ m) d = ground (arith, o.beq_iff i k, lookup-erase_self k m)

  lookup-erase_none : (k j : K) (m : List (K × V)) → lookup j m ≡ none → lookup j (erase k m) ≡ none
  unfolding lookup erase
  lookup-erase_none k j [] h = refl
  lookup-erase_none k j ((i, w) ∷ m) h = ground (arith, lookup-erase_none k j m)

  pub Distinct-erase : (k : K) (m : List (K × V)) → Distinct m → Distinct (erase k m)
  unfolding erase
  Distinct-erase k [] d = tt
  Distinct-erase k ((i, w) ∷ m) d = elim (Bool-cases (o.beq i k)) [
    | inl e ↦ rw e d.1
    | inr e ↦ rw e (lookup-erase_none k i m d.0, Distinct-erase k m d.1)
  ]

module _ {ℓ κ} {K : Type ℓ} {V : Type κ} where
  pub length-keys : (m : List (K × V)) → length (keys m) ≡ length m
  length-keys [] = refl
  length-keys ((k, v) ∷ m) = ap suc (length-keys m)
