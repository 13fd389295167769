-- ===== src/Hopper/Affinity.antt =====
-- The CPU that the system was last asked to give a process, against the tables of the monitor.
use aser.Prelude.{
  ℕ, ℤ, ◌≡◌, ◌≢◌, refl, sym, ap, ◌∙◌, inl, inr, List, [], ◌∷◌, Option, none, some, arith, lookup,
  keys, ℤ_key, eqb_ℤ, eqb_ℤ_iff, Distinct, Bool-cases, Option-cases,
}
use aser.Libc.{Posix}
use aser.Os
use aser.Hopper.{Hopper}
use aser.Hopper.Invariant.{cpu_of}
use aser.Hopper.Hopping.{Hopped, bind_at, bind_each}
use aser.Hopper.Adding.{Placed}

-- `asked` says of a system on which CPU it was last asked to put a process by `sched_setaffinity`.
pub record Affinity {W : Type 0} (posix : Posix W) : Type 0 where
  pub asked : ℤ → W → Option ℕ
  pub sets : (pid : ℤ) (cpu : ℕ) (w : W) → asked pid (Os.on_cpu posix pid cpu w) ≡ some cpu
  pub others :
      (pid q : ℤ) (cpu : ℕ) (w : W) → q ≢ pid → asked q (Os.on_cpu posix pid cpu w) ≡ asked q w

module _ {W : Type 0} {posix : Posix W} (a : Affinity posix) where
  open a use {asked}

  -- The system was asked to put every process on the CPU that the tables have for it.
  abbrev pub Bound : Hopper → W → Type 0
  Bound h w = (pid : ℤ) (cpu : ℕ) → cpu_of h pid ≡ some cpu → asked pid w ≡ some cpu

  pub Placed-Bound :
      (pid : ℤ) (h h' : Hopper) (w : W) (p : Placed pid h h')
      → Bound h w
      → Bound h' (Os.on_cpu posix pid p.cpu w)
  Placed-Bound pid h h' w p bound q c at = elim (Bool-cases (eqb_ℤ pid q)) [
    | inl e ↦
        let same : pid ≡ q = (eqb_ℤ_iff pid q).0 e in
        let there : some p.cpu ≡ some c = sym p.placed ∙ ap (cpu_of h') same ∙ at in
        ap (λ x. asked x (Os.on_cpu posix pid p.cpu w)) (sym same) ∙ a.sets pid p.cpu w ∙ there
    | inr e ↦
        let ne : q ≢ pid = λ same. ground (arith, eqb_ℤ_iff pid q) in
        a.others pid q p.cpu w ne ∙ bound q c (sym (p.others q ne) ∙ at)
  ]

  bind_at-other :
      (pid q : ℤ) (o : Option ℕ) (w : W) → q ≢ pid → asked q (bind_at posix pid o w) ≡ asked q w
  bind_at-other pid q none w ne = refl
  bind_at-other pid q (some cpu) w ne = a.others pid q cpu w ne

  bind_each-other :
      (m : List (ℤ × ℕ)) (h : Hopper) (w : W) (q : ℤ)
      → lookup q m ≡ none
      → asked q (bind_each posix (keys m) h w) ≡ asked q w
  unfolding lookup
  bind_each-other [] h w q absent = refl
  bind_each-other ((pid, old) ∷ m) h w q absent =
      bind_each-other m h (bind_at posix pid (cpu_of h pid) w) q (ground (arith, eqb_ℤ_iff pid q))
      ∙ bind_at-other pid q (cpu_of h pid) w (λ same. ground (arith, eqb_ℤ_iff pid q))

  bind_each-asked :
      (m : List (ℤ × ℕ)) (h : Hopper) (w : W) (q : ℤ) (old c : ℕ)
      → Distinct m
      → lookup q m ≡ some old
      → cpu_of h q ≡ some c
      → asked q (bind_each posix (keys m) h w) ≡ some c
  unfolding lookup
  bind_each-asked [] h w q old c d present at = cc
  bind_each-asked ((pid, o) ∷ m) h w q old c d present at =
      let v = bind_at posix pid (cpu_of h pid) w in
      elim (Bool-cases (eqb_ℤ pid q)) [
        | inl e ↦
            let same : pid ≡ q = (eqb_ℤ_iff pid q).0 e in
            let once : lookup q m ≡ none = ap (λ x. lookup x m) (sym same) ∙ d.0 in
            let here : cpu_of h pid ≡ some c = ap (cpu_of h) same ∙ at in
            bind_each-other m h v q once
            ∙ ap (λ x. asked x v) (sym same)
            ∙ ap (λ x. asked pid (bind_at posix pid x w)) here
            ∙ a.sets pid c w
        | inr e ↦ bind_each-asked m h v q old c d.1 (rw e at present) at
      ]

  -- After a hop the tables and the system agree, whatever they did before.
  pub Hopped-Bound :
      (h h' : Hopper) (w : W)
      → Distinct h.cpu_mapping
      → Hopped h.cpu_mapping h h'
      → Bound h' (bind_each posix (keys h.cpu_mapping) h' w)
  Hopped-Bound h h' w d p q c at = elim (Option-cases (lookup q h.cpu_mapping)) [
    | inl absent ↦ absurd (let same = p.stays q absent in cc)
    | inr (old, present) ↦ bind_each-asked h.cpu_mapping h' w q old c d present at
  ]

-- What a call of `sched_setaffinity` keeps.
module _ {W : Type 0} (posix : Posix W) (Q : W → Type 0)
    (keeps : (pid : ℤ) (cpu : ℕ) (w : W) → Q w → Q (Os.on_cpu posix pid cpu w)) where
  bind_at-keeps : (pid : ℤ) (o : Option ℕ) (w : W) → Q w → Q (bind_at posix pid o w)
  bind_at-keeps pid none w q = q
  bind_at-keeps pid (some cpu) w q = keeps pid cpu w q

  pub bind_each-keeps : (pids : List ℤ) (h : Hopper) (w : W) → Q w → Q (bind_each posix pids h w)
  bind_each-keeps [] h w q = q
  bind_each-keeps (pid ∷ pids) h w q =
      bind_each-keeps pids h (bind_at posix pid (cpu_of h pid) w)
        (bind_at-keeps pid (cpu_of h pid) w q)
