-- ===== src/Hopper/Cpus.antt =====
-- The table of allocated CPUs: the first free one, and how many are free.
use aser.Prelude.{
  ℕ, zero, suc, ◌<◌, ◌≡◌, refl, ap, Bool, true, false, List, [], ◌∷◌, Option, none, some, arith,
  get_elem?, set, ◌⊎◌, inl, inr,
}
use mathlib.Core.Option

-- `std::find(begin, end, false)`, as an index.
unfoldable pub find_false : List Bool → Option ℕ
find_false [] = none
find_false (false ∷ bs) = some 0
find_false (true ∷ bs) = Option.map suc (find_false bs)

-- The number of free CPUs.
unfoldable pub free : List Bool → ℕ
free [] = 0
free (false ∷ bs) = suc (free bs)
free (true ∷ bs) = free bs

-- CPU `i` is free, and every CPU before it is taken.
pub record IsFirstFree (bs : List Bool) (i : ℕ) : Type 0 where
  pub is_free : get_elem? bs i ≡ some false
  pub before : (j : ℕ) → j < i → get_elem? bs j ≡ some true

IsFirstFree-cons : (bs : List Bool) {i : ℕ} → IsFirstFree bs i → IsFirstFree (true ∷ bs) (suc i)
IsFirstFree-cons bs {i} f = record { is_free = f.is_free; before = before' }
  where
    before' : (j : ℕ) → j < suc i → get_elem? (true ∷ bs) j ≡ some true
    before' zero lt = refl
    before' (suc j) lt = f.before j (omega arith)

-- The search fails if no CPU is free, and finds the first free one otherwise.
abbrev pub Finds : List Bool → Option ℕ → Type 0
Finds bs r =
    ((free bs ≡ 0) × (r ≡ none)) ⊎ ((i : ℕ) × (r ≡ some i) × (0 < free bs) × IsFirstFree bs i)

pub find_false-Finds : (bs : List Bool) → Finds bs (find_false bs)
unfolding find_false free
find_false-Finds [] = inl (refl, refl)
find_false-Finds (false ∷ bs) =
    inr (0, refl, omega arith, record { is_free = refl; before = λ j lt. elim lt [ ] })
find_false-Finds (true ∷ bs) = elim (find_false-Finds bs) [
  | inl (z, e) ↦ inl (z, rw e)
  | inr (i, e, p, f) ↦ inr (suc i, rw e, p, IsFirstFree-cons bs f)
]

pub free-set-true :
    (bs : List Bool) (i : ℕ) → get_elem? bs i ≡ some false → suc (free (set bs i true)) ≡ free bs
unfolding free
free-set-true [] i h = cc
free-set-true (false ∷ bs) zero h = refl
free-set-true (true ∷ bs) zero h = ground arith
free-set-true (false ∷ bs) (suc i) h = ap suc (free-set-true bs i h)
free-set-true (true ∷ bs) (suc i) h = free-set-true bs i h

pub free-set-false :
    (bs : List Bool) (i : ℕ) → get_elem? bs i ≡ some true → free (set bs i false) ≡ suc (free bs)
unfolding free
free-set-false [] i h = cc
free-set-false (false ∷ bs) zero h = ground arith
free-set-false (true ∷ bs) zero h = refl
free-set-false (false ∷ bs) (suc i) h = ap suc (free-set-false bs i h)
free-set-false (true ∷ bs) (suc i) h = free-set-false bs i h
