-- ===== src/SimpleManager/Indices.antt =====
-- Slots by their numbers, and the processes in them by their identifiers.
use aser.Prelude.{
  ℕ, zero, suc, ℤ, ◌<◌, ◌≡◌, ◌≢◌, ◌⊎◌, refl, ap, inl, inr, Bool, true, false, ◌||◌, List, [], ◌∷◌,
  ◌++◌, none, some, arith, length, get_elem?, ◌==◌, lookup, insert, ℤ_key, eqb_ℤ, eqb_ℤ_iff,
  lookup-insert, Distinct, Distinct-insert,
}
use aser.ProcessMonitor.{Future, waiting}

-- No identifier stands in the list twice.
abbrev pub Absent : ℤ → List ℤ → Type 0
Absent pid [] = Unit
Absent pid (q ∷ pids) = (q ≢ pid) × Absent pid pids

abbrev pub AllDifferent : List ℤ → Type 0
AllDifferent [] = Unit
AllDifferent (pid ∷ pids) = Absent pid pids × AllDifferent pids

Absent-get : (pid : ℤ) (pids : List ℤ) (i : ℕ) → Absent pid pids → get_elem? pids i ≢ some pid
Absent-get pid [] i a e = cc
Absent-get pid (q ∷ pids) zero a e = a.0 (ground arith)
Absent-get pid (q ∷ pids) (suc i) a e = Absent-get pid pids i a.1 e

pub same_slot :
    (pids : List ℤ) (i j : ℕ) (pid : ℤ)
    → AllDifferent pids
    → get_elem? pids i ≡ some pid
    → get_elem? pids j ≡ some pid
    → i ≡ j
same_slot [] i j pid d p q = cc
same_slot (x ∷ pids) zero zero pid d p q = refl
same_slot (x ∷ pids) zero (suc j) pid d p q = absurd (Absent-get x pids j d.0 (ground arith))
same_slot (x ∷ pids) (suc i) zero pid d p q = absurd (Absent-get x pids i d.0 (ground arith))
same_slot (x ∷ pids) (suc i) (suc j) pid d p q = ap suc (same_slot pids i j pid d.1 p q)

-- Which slots are in a list.
abbrev pub contains : ℕ → List ℕ → Bool
contains i [] = false
contains i (j ∷ js) = i == j || contains i js

-- No slot stands in the list twice.
abbrev pub Once : List ℕ → Type 0
Once [] = Unit
Once (i ∷ is) = (contains i is ≡ false) × Once is

-- Each slot of the list has a process.
abbrev pub Inside : List ℤ → List ℕ → Type 0
Inside pids [] = Unit
Inside pids (i ∷ is) = ((pid : ℤ) × (get_elem? pids i ≡ some pid)) × Inside pids is

pub get_of_lt {ℓ} :
    {A : Type ℓ} (xs : List A) (i : ℕ) → i < length xs → (x : A) × (get_elem? xs i ≡ some x)
get_of_lt [] i h = absurd (omega arith)
get_of_lt (x ∷ xs) zero h = (x, refl)
get_of_lt (x ∷ xs) (suc i) h = get_of_lt xs i (omega arith)

-- The map of futures after `add_process` of each.
unfoldable pub added : List ℤ → List (ℤ × Future) → List (ℤ × Future)
added [] s = s
added (pid ∷ pids) s = added pids (insert pid waiting s)

pub Distinct-added : (pids : List ℤ) (s : List (ℤ × Future)) → Distinct s → Distinct (added pids s)
unfolding added
Distinct-added [] s d = d
Distinct-added (pid ∷ pids) s d =
    Distinct-added pids (insert pid waiting s) (Distinct-insert pid waiting s d)

lookup-added_there :
    (pids : List ℤ) (s : List (ℤ × Future)) (k : ℤ)
    → lookup k s ≡ some waiting
    → lookup k (added pids s) ≡ some waiting
unfolding added
lookup-added_there [] s k e = e
lookup-added_there (pid ∷ pids) s k e =
    lookup-added_there pids (insert pid waiting s) k (ground (arith, lookup-insert pid k waiting s))

pub lookup-added :
    (pids : List ℤ) (s : List (ℤ × Future)) (i : ℕ) (k : ℤ)
    → get_elem? pids i ≡ some k
    → lookup k (added pids s) ≡ some waiting
unfolding added
lookup-added [] s i k e = cc
lookup-added (pid ∷ pids) s zero k e =
    lookup-added_there pids (insert pid waiting s) k
      (ground (arith, lookup-insert pid k waiting s, eqb_ℤ_iff pid k))
lookup-added (pid ∷ pids) s (suc i) k e = lookup-added pids (insert pid waiting s) i k e

pub added_only :
    (pids : List ℤ) (s : List (ℤ × Future)) (k : ℤ) (f : Future)
    → lookup k (added pids s) ≡ some f
    → (lookup k s ≡ some f) ⊎ ((i : ℕ) × (get_elem? pids i ≡ some k))
unfolding added
added_only [] s k f e = inl e
added_only (pid ∷ pids) s k f e = elim (added_only pids (insert pid waiting s) k f e) [
  | inr (i, at) ↦ inr (suc i, at)
  | inl there ↦ first (eqb_ℤ pid k) refl there
]
  where
    first :
        (b : Bool)
        → eqb_ℤ pid k ≡ b
        → lookup k (insert pid waiting s) ≡ some f
        → (lookup k s ≡ some f) ⊎ ((i : ℕ) × (get_elem? (pid ∷ pids) i ≡ some k))
    first true q there = inr (zero, ap some ((eqb_ℤ_iff pid k).0 q))
    first false q there = inl (ground (arith, lookup-insert pid k waiting s))

-- None of the processes has a future yet.
abbrev pub AllAbsent : List ℤ → List (ℤ × Future) → Type 0
AllAbsent [] s = Unit
AllAbsent (pid ∷ pids) s = (lookup pid s ≡ none) × AllAbsent pids s

pub AllAbsent-empty : (ps : List ℤ) → AllAbsent ps []
unfolding lookup
AllAbsent-empty [] = tt
AllAbsent-empty (p ∷ ps) = (refl, AllAbsent-empty ps)

pub AllAbsent-insert :
    (q : ℤ) (pids : List ℤ) (s : List (ℤ × Future))
    → Absent q pids
    → AllAbsent pids s
    → AllAbsent pids (insert q waiting s)
AllAbsent-insert q [] s a h = tt
AllAbsent-insert q (pid ∷ pids) s a h = (
  ground (arith, lookup-insert q pid waiting s, eqb_ℤ_iff q pid),
  AllAbsent-insert q pids s a.1 h.1,
)

pub Once-append_right : (is js : List ℕ) → Once (is ++ js) → Once js
Once-append_right [] js o = o
Once-append_right (i ∷ is) js o = Once-append_right is js o.1
