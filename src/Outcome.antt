-- ===== src/Outcome.antt =====
-- How a call ends: it returns, throws a C++ exception, fails an assertion, or ends the process.
use aser.Prelude.{ap, ◌≡◌, ◌⊎◌, refl, inl, inr, ℕ, ℤ, String, Bool, true, false}

pub data Exception : Type 0 where
  system_error : ℤ → String → Exception
  invalid_argument : String → Exception
  runtime_error : String → Exception
  logic_error : String → Exception

pub data Stop : Type 0 where
  thrown : Exception → Stop
  aborted : Stop
  exited : ℕ → Stop
  replaced : Stop

pub data Result {ℓ} (A : Type ℓ) : Type ℓ where
  ok : A → Result A
  stop : Stop → Result A

pub Result-cases {ℓ} :
    {A : Type ℓ} (r : Result A) → ((a : A) × (r ≡ ok a)) ⊎ ((x : Stop) × (r ≡ stop x))
Result-cases (ok a) = inl (a, refl)
Result-cases (stop x) = inr (x, refl)

-- A call on a state. What was written before an exception stays written.
abbrev pub Exec {ℓ} : Type ℓ → Type ℓ → Type ℓ
Exec S A = S → Result A × S

module _ {ℓ} {S A : Type ℓ} where
  abbrev pub pure : A → Exec S A
  pure a s = (ok a, s)

  abbrev pub halt : Stop → Exec S A
  halt x s = (stop x, s)

  abbrev pub throw : Exception → Exec S A
  throw e s = (stop (thrown e), s)

  abbrev pub gets : (S → A) → Exec S A
  gets f s = (ok (f s), s)

module _ {ℓ} {S A B : Type ℓ} where
  abbrev pub continue : Result A → (A → Exec S B) → Exec S B
  continue (ok a) f s = f a s
  continue (stop x) f s = (stop x, s)

  infixl 5 ◌>>=◌ ◌>>◌
  abbrev pub ◌>>=◌ : Exec S A → (A → Exec S B) → Exec S B
  ◌>>=◌ m f s = let (r, s') = m s in continue r f s'

  abbrev pub ◌>>◌ : Exec S A → Exec S B → Exec S B
  m >> n = m >>= λ _. n

-- A call that has returned.
pub >>-ok {ℓ} :
    {S A B : Type ℓ} (m : Exec S A) (n : Exec S B) (s s' : S) (a : A)
    → m s ≡ (ok a, s')
    → (m >> n) s ≡ n s'
>>-ok m n s s' a e = ap (λ r. continue r.0 (λ _. n) r.1) e

-- `try { … } catch (const std::exception&) { … }`: every exception of the program is one.
abbrev pub handle {ℓ} : {S A : Type ℓ} → Result A → (Exception → Exec S A) → Exec S A
handle (ok a) f s = (ok a, s)
handle (stop (thrown e)) f s = f e s
handle (stop aborted) f s = (stop aborted, s)
handle (stop (exited n)) f s = (stop (exited n), s)
handle (stop replaced) f s = (stop replaced, s)

abbrev pub try {ℓ} : {S A : Type ℓ} → Exec S A → (Exception → Exec S A) → Exec S A
try m f s = let (r, s') = m s in handle r f s'

abbrev pub modify : {S : Type 0} → (S → S) → Exec S (Unit {0})
modify f s = (ok tt, f s)

-- `assert(b)`, in a build with assertions.
abbrev pub assert : {S : Type 0} → Bool → Exec S (Unit {0})
assert true s = (ok tt, s)
assert false s = (stop aborted, s)
