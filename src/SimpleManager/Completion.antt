-- ===== src/SimpleManager/Completion.antt =====
-- A whole execution of the simple manager, when the calls of the system succeed.
use aser.Prelude.{
  ℕ, zero, suc, ℤ, ◌<◌, ◌≡◌, ◌⊎◌, refl, ap, inl, inr, List, [], ◌∷◌, Option, none, some, arith,
  length, get_elem?, insert, ℤ_key,
}
use aser.Outcome.{Result, ok}
use aser.ProcessClass.{ProcessClass}
use aser.ProcessClass.Contract.{Contract}
use aser.ProcessClass.Watching.{Watched, Signalling, AllWent}
use aser.ProcessMonitor.{ProcessMonitor, waiting, add_process}
use aser.SimpleManager.Slots.{add_slots, start_slots, kill_slots}
use aser.SimpleManager.Indices.{AllAbsent, AllAbsent-insert, AllDifferent, added}

-- Each slot has a process in that phase, with that pid.
abbrev pub Aligned : {P : Type 0} → (ℤ → P → Type 0) → List ℤ → List (Option P) → Type 0
Aligned Q [] [] = Unit
Aligned Q [] (x ∷ ps) = ⊥
Aligned Q (pid ∷ pids) [] = ⊥
Aligned Q (pid ∷ pids) (none ∷ ps) = ⊥
Aligned Q (pid ∷ pids) (some p ∷ ps) = Q pid p × Aligned Q pids ps

pub length-Aligned :
    {P : Type 0} (Q : ℤ → P → Type 0) (pids : List ℤ) (ps : List (Option P))
    → Aligned Q pids ps
    → length ps ≡ length pids
length-Aligned Q [] [] a = refl
length-Aligned Q [] (x ∷ ps) a = absurd a
length-Aligned Q (pid ∷ pids) [] a = absurd a
length-Aligned Q (pid ∷ pids) (none ∷ ps) a = absurd a
length-Aligned Q (pid ∷ pids) (some p ∷ ps) a = ap suc (length-Aligned Q pids ps a.1)

pub Aligned-get :
    {P : Type 0} (Q : ℤ → P → Type 0) (pids : List ℤ) (ps : List (Option P)) (i : ℕ) (pid : ℤ)
    → Aligned Q pids ps
    → get_elem? pids i ≡ some pid
    → (p : P) × (get_elem? ps i ≡ some (some p)) × Q pid p
Aligned-get Q [] ps i pid a e = cc
Aligned-get Q (x ∷ pids) [] i pid a e = absurd a
Aligned-get Q (x ∷ pids) (none ∷ ps) i pid a e = absurd a
Aligned-get {P} Q (x ∷ pids) (some p ∷ ps) zero pid a e =
    let same : x ≡ pid = cc in (p, refl, rw (← same) a.0)
Aligned-get Q (x ∷ pids) (some p ∷ ps) (suc i) pid a e = Aligned-get Q pids ps i pid a.1 e

pub Aligned-map :
    {P : Type 0} (Q R : ℤ → P → Type 0) (pids : List ℤ) (ps : List (Option P))
    → ((pid : ℤ) (p : P) → Q pid p → R pid p)
    → Aligned Q pids ps
    → Aligned R pids ps
Aligned-map Q R [] [] f a = tt
Aligned-map Q R [] (x ∷ ps) f a = absurd a
Aligned-map Q R (pid ∷ pids) [] f a = absurd a
Aligned-map Q R (pid ∷ pids) (none ∷ ps) f a = absurd a
Aligned-map Q R (pid ∷ pids) (some p ∷ ps) f a = (f pid p a.0, Aligned-map Q R pids ps f a.1)

module _ {P W : Type 0} (c : ProcessClass P W) (Q : ℤ → P → Type 0)
    (pid_of : (pid : ℤ) (p : P) → Q pid p → c.pid p ≡ ok pid) where
  pub add_slots_lem :
      (pids : List ℤ) (ps : List (Option P)) (m : ProcessMonitor)
      → Aligned Q pids ps
      → AllDifferent pids
      → AllAbsent pids m.status
      → add_slots c ps m ≡ (ok tt, record m { status = added pids m.status })
  unfolding add_slots added add_process
  add_slots_lem [] [] m a d h = refl
  add_slots_lem [] (x ∷ ps) m a d h = absurd a
  add_slots_lem (pid ∷ pids) [] m a d h = absurd a
  add_slots_lem (pid ∷ pids) (none ∷ ps) m a d h = absurd a
  add_slots_lem (pid ∷ pids) (some p ∷ ps) m a d h =
      rw (pid_of pid p a.0, h.0, add_slots)
        (add_slots_lem pids ps (record m { status = insert pid waiting m.status }) a.1 d.1
          (AllAbsent-insert pid pids m.status d.0 h.1))

module _ {P W : Type 0} {c : ProcessClass P W} (k : Contract c) (Went : P → W → Type 0) where
  open k use {Prepared, Started, Ended}

  pub start_slots_lem :
      (Q : W → Type 0)
      → Watched k Went Q
      → (pids : List ℤ) (ps : List (Option P)) (w : W) → Aligned Prepared pids ps
      → (ps' : List (Option P)) × (w' : W) × (start_slots c ps w ≡ (ok tt, ps', w'))
        × Aligned Started pids ps'
        × AllWent Went ps w'
        × (Q w → Q w')
        × ((p : P) → Went p w → Went p w')
  unfolding start_slots
  start_slots_lem Q t [] [] w a = ([], w, refl, tt, tt, (λ q. q), λ p g. g)
  start_slots_lem Q t [] (x ∷ ps) w a = absurd a
  start_slots_lem Q t (pid ∷ pids) [] w a = absurd a
  start_slots_lem Q t (pid ∷ pids) (none ∷ ps) w a = absurd a
  start_slots_lem Q t (pid ∷ pids) (some p ∷ ps) w a =
      let (p', w₁, starts, started) = k.start_lem pid p w a.0 in
      let (ps', w', rest, all, went, quiet, keeps) = start_slots_lem Q t pids ps w₁ a.1 in
      (
        some p' ∷ ps',
        w',
        rw (starts, start_slots, rest),
        (started, all),
        (keeps p (t.went pid p w p' w₁ a.0 starts), went),
        (λ q. quiet (t.start_keeps pid p w p' w₁ a.0 starts q)),
        λ x g. keeps x (t.start_went x pid p w p' w₁ a.0 starts g),
      )

  shot_at :
      {Shot : ℤ → W → Type 0} (p : P) (ps : List (Option P)) (n : ℤ) (i : ℕ) (q : P) (w w₁ w' : W)
      (r : Result (Unit {0}))
      → Signalling k Went Shot
      → c.kill_process p w ≡ (r, p, w₁)
      → (Shot n w₁ → Shot n w')
      → ((j : ℕ) (m : ℤ) (x : P) → get_elem? ps j ≡ some (some x) → Started m x → Shot m w')
      → get_elem? (some p ∷ ps) i ≡ some (some q)
      → Started n q
      → Shot n w'
  shot_at p ps n zero q w w₁ w' r t kills keeps all there run =
      let same : q ≡ p = cc in keeps (t.shot n p w r w₁ (rw (← same) run) kills)
  shot_at p ps n (suc i) q w w₁ w' r t kills keeps all there run = all i n q there run

  pub kill_slots_lem :
      (Shot : ℤ → W → Type 0)
      → Signalling k Went Shot
      → (ps : List (Option P)) (w : W)
      → ((i : ℕ)
          → i < length ps
          → (pid : ℤ) × (p : P) × (get_elem? ps i ≡ some (some p)) × (Started pid p ⊎ Ended pid p))
      → (w' : W) × (kill_slots c ps w ≡ (ok tt, ps, w'))
        × ((p : P) → Went p w → Went p w')
        × ((n : ℤ) → Shot n w → Shot n w')
        × ((i : ℕ) (n : ℤ) (p : P) → get_elem? ps i ≡ some (some p) → Started n p → Shot n w')
  unfolding kill_slots
  kill_slots_lem Shot t [] w all = (w, refl, (λ p g. g), (λ n h. h), λ i n p at run. cc)
  kill_slots_lem Shot t (none ∷ ps) w all =
      let (pid, p, at, phase) = all zero (omega arith) in absurd (ground arith)
  kill_slots_lem Shot t (some p ∷ ps) w all =
      let (pid, p₀, at, phase₀) = all zero (omega arith) in
      let same : p₀ ≡ p = ground arith in
      let phase : Started pid p ⊎ Ended pid p = rw (← same) phase₀ in
      let (r, w₁, kills, drops) = k.kill_lem pid p w phase in
      let (w', rest, went, shot, all_shot) =
        kill_slots_lem Shot t ps w₁ (λ i h. all (suc i) (omega arith)) in
      (
        w',
        elim drops [
          | inl e ↦ rw (kills, e, kill_slots, rest)
          | inr (x, e) ↦ rw (kills, e, kill_slots, rest)
        ],
        (λ q g. went q (t.kill_went q pid p w r w₁ phase kills g)),
        (λ n h. shot n (t.kill_shot n pid p w r w₁ phase kills h)),
        λ i n q there run. shot_at p ps n i q w w₁ w' r t kills (shot n) (all_shot) there run,
      )
