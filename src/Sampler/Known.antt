-- ===== src/Sampler/Known.antt =====
-- Which processes have a manager of their events.
use aser.Prelude.{
  ℤ, ◌≡◌, refl, List, [], ◌∷◌, ◌++◌, none, some, keys, lookup, insert_new, lookup-insert_new, ℤ_key,
  eqb_ℤ, eqb_ℤ_iff, arith, Bool-cases, inl, inr,
}
use aser.Perf.Manager.{EventManager}
use aser.ExecMonitor.{ExecEvent}
use aser.ExecMonitor.Hopping.{Other}

abbrev pub Managers : Type 0 → Type 0
Managers F = List (ℤ × EventManager (Unit {0}) F)

module _ {F : Type 0} where
  -- The processes of the events have no manager yet, and differ from each other.
  abbrev pub Fresh : Managers F → List ExecEvent → Type 0
  Fresh ms [] = Unit
  Fresh ms (event ∷ events) =
      (lookup event.pid ms ≡ none) × Other event.pid events × Fresh ms events

  abbrev pub Known : Managers F → ℤ → Type 0
  Known ms pid = (m : EventManager (Unit {0}) F) × (lookup pid ms ≡ some m)

  -- Each process of the events has a manager.
  abbrev pub AllKnown : Managers F → List ExecEvent → Type 0
  AllKnown ms [] = Unit
  AllKnown ms (event ∷ events) = Known ms event.pid × AllKnown ms events

  abbrev pub Keeps : Managers F → Managers F → Type 0
  Keeps ms ms' = (pid : ℤ) → Known ms pid → Known ms' pid

  pub AllKnown-Keeps :
      (ms ms' : Managers F) (es : List ExecEvent) → Keeps ms ms' → AllKnown ms es → AllKnown ms' es
  AllKnown-Keeps ms ms' [] k a = tt
  AllKnown-Keeps ms ms' (e ∷ es) k a = (k e.pid a.0, AllKnown-Keeps ms ms' es k a.1)

  pub AllKnown-append :
      (ms : Managers F) (es fs : List ExecEvent)
      → AllKnown ms es
      → AllKnown ms fs
      → AllKnown ms (es ++ fs)
  AllKnown-append ms [] fs a b = b
  AllKnown-append ms (e ∷ es) fs a b = (a.0, AllKnown-append ms es fs a.1 b)

  -- What a lookup finds depends on the keys alone.
  lookup-keys :
      (ms ms' : Managers F) (pid : ℤ)
      → keys ms' ≡ keys ms
      → lookup pid ms ≡ none
      → lookup pid ms' ≡ none
  unfolding lookup
  lookup-keys [] [] pid same absent = refl
  lookup-keys [] (x ∷ ms') pid same absent = cc
  lookup-keys (x ∷ ms) [] pid same absent = cc
  lookup-keys ((p, m) ∷ ms) ((q, n) ∷ ms') pid same absent =
      let first : q ≡ p = cc in
      let rest : keys ms' ≡ keys ms = cc in
      elim (Bool-cases (eqb_ℤ p pid)) [
        | inl here ↦ absurd (let found = rw here at absent in cc)
        | inr there ↦ rw (first, there) (lookup-keys ms ms' pid rest (rw there at absent))
      ]

  pub Known-keys : (ms ms' : Managers F) → keys ms' ≡ keys ms → Keeps ms ms'
  unfolding lookup
  Known-keys [] [] same pid (m, at) = (m, at)
  Known-keys [] (x ∷ ms') same pid (m, at) = absurd cc
  Known-keys (x ∷ ms) [] same pid (m, at) = absurd cc
  Known-keys ((p, m) ∷ ms) ((q, n) ∷ ms') same pid (l, at) =
      let first : q ≡ p = cc in
      let rest : keys ms' ≡ keys ms = cc in
      elim (Bool-cases (eqb_ℤ p pid)) [
        | inl here ↦ (n, rw (first, here) refl)
        | inr there ↦
            let (k, found) = Known-keys ms ms' rest pid (l, rw there at at) in
            (k, rw (first, there) found)
      ]

  pub Fresh-keys :
      (ms ms' : Managers F) (es : List ExecEvent) → keys ms' ≡ keys ms → Fresh ms es → Fresh ms' es
  Fresh-keys ms ms' [] same f = tt
  Fresh-keys ms ms' (e ∷ es) same f =
      (lookup-keys ms ms' e.pid same f.0, f.1, Fresh-keys ms ms' es same f.2)

  module _ (pid : ℤ) (m : EventManager (Unit {0}) F) (ms : Managers F)
      (absent : lookup pid ms ≡ none) where
    pub Fresh-insert_new :
        (es : List ExecEvent) → Other pid es → Fresh ms es → Fresh (insert_new pid m ms) es
    Fresh-insert_new [] o f = tt
    Fresh-insert_new (e ∷ es) o f = (
      ground (arith, lookup-insert_new pid e.pid m ms absent, eqb_ℤ_iff pid e.pid, o.0),
      f.1,
      Fresh-insert_new es o.1 f.2,
    )

    pub Known-insert_new : Known (insert_new pid m ms) pid
    Known-insert_new = (m, ground (arith, lookup-insert_new pid pid m ms absent, eqb_ℤ_iff pid pid))

    pub Keeps-insert_new : Keeps ms (insert_new pid m ms)
    Keeps-insert_new q (l, at) =
        (l, ground (arith, lookup-insert_new pid q m ms absent, eqb_ℤ_iff pid q))
