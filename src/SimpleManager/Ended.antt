-- ===== src/SimpleManager/Ended.antt =====
-- The state of an execution while processes are waited for, and after one of them has ended.
use mathlib.Core.Path.{subst}
use aser.Prelude.{
  ==_iff, if◌then◌else◌, lt_length_of_get, ℕ, ℤ, ◌<◌, ◌≡◌, ◌≢◌, ◌⊎◌, sym, ap, ◌∙◌, inl, inr, true,
  false, List, [], ◌∷◌, ◌++◌, Option, some, arith, length, get_elem?, set, ◌==◌, get_elem?-set,
  length-set, lookup, insert, ℤ_key, eqb_ℤ, eqb_ℤ_iff, ne→eqb_ℤ, lookup-insert, Distinct,
  Distinct-insert, Bool-cases,
}
use aser.Outcome.{ok}
use aser.ProcessClass.{ProcessClass}
use aser.ProcessClass.Contract.{Contract}
use aser.ProcessMonitor.{ProcessMonitor, Future, waiting, notified, ready, wait_for_process, finish}
use aser.SimpleManager.Execution.{Session}
use aser.SimpleManager.Futures.{Settled, Ready}
use aser.SimpleManager.Indices.{AllDifferent, same_slot, contains}

module _ {P W : Type 0} {c : ProcessClass P W} (k : Contract c) where
  open k use {Started, Ended}

  -- A slot: its process runs and is waited for, as long as the slot is in the list `left`.
  abbrev pub Slot : List ℕ → ℕ → ℤ → P → Option Future → Type 0
  Slot left i pid p f =
      ((contains i left ≡ true) × Started pid p × (f ≡ some waiting))
      ⊎ ((contains i left ≡ false) × Ended pid p × Settled f)

  pub record Inv {D : Type 0} (pids : List ℤ) (left : List ℕ) (s : Session P D W) : Type 0 where
    pub size : length s.manager.processes ≡ length pids
    pub slots :
        (i : ℕ) (pid : ℤ)
        → get_elem? pids i ≡ some pid
        → (p : P) × (get_elem? s.manager.processes i ≡ some (some p))
          × Slot left i pid p (lookup pid s.monitor.status)
    pub only :
        (q : ℤ) (f : Future)
        → lookup q s.monitor.status ≡ some f
        → (i : ℕ) × (get_elem? pids i ≡ some q)
    pub distinct : Distinct s.monitor.status

  -- The session after the thread of a slot.
  abbrev pub ended_at : {D : Type 0} → ℕ → P → W → ℤ → ℤ → Session P D W → Session P D W
  ended_at i p w pid st s = record {
    manager = record (s.manager) { processes = set s.manager.processes i (some p); system = w };
    monitor = finish pid st (wait_for_process pid (ok st) s.monitor);
  }

  lookup-ended :
      (pid st q : ℤ) (m : ProcessMonitor)
      → lookup q (finish pid st (wait_for_process pid (ok st) m)).status
        ≡ (if eqb_ℤ pid q then some (ready st) else lookup q m.status)
  unfolding finish wait_for_process
  lookup-ended pid st q m = ground (
    arith,
    lookup-insert pid q (ready st) (insert pid (notified st) m.status),
    lookup-insert pid q (notified st) m.status,
  )

  contains_other : (i j : ℕ) (left : List ℕ) → i ≢ j → contains j (i ∷ left) ≡ contains j left
  contains_other i j left ne = ground arith

  pub Ready-ended :
      (pid st : ℤ) (m : ProcessMonitor) (qs : List ℤ)
      → Ready m.status qs
      → Ready (finish pid st (wait_for_process pid (ok st) m)).status (qs ++ pid ∷ [])
  Ready-ended pid st m [] r =
      ((st, ground (arith, lookup-ended pid st pid m, eqb_ℤ_iff pid pid)), tt)
  Ready-ended pid st m (q ∷ qs) ((old, there), r) = elim (Bool-cases (eqb_ℤ pid q)) [
    | inl same ↦ ((st, ground (arith, lookup-ended pid st q m)), Ready-ended pid st m qs r)
    | inr other ↦ ((old, ground (arith, lookup-ended pid st q m)), Ready-ended pid st m qs r)
  ]

  module _ {D : Type 0} (pids : List ℤ) (different : AllDifferent pids) where
    -- The slot whose thread has ended, and another one.
    ended_here :
        (left : List ℕ) (i : ℕ) (pid st : ℤ) (p' : P) (w' : W) (s : Session P D W)
        → contains i left ≡ false
        → i < length s.manager.processes
        → Ended pid p'
        → (p : P) × (get_elem? (ended_at i p' w' pid st s).manager.processes i ≡ some (some p))
          × Slot left i pid p (lookup pid (ended_at i p' w' pid st s).monitor.status)
    ended_here left i pid st p' w' s gone inside e =
        let there : lookup pid (ended_at i p' w' pid st s).monitor.status ≡ some (ready st) =
          ground (arith, lookup-ended pid st pid s.monitor, eqb_ℤ_iff pid pid) in
        (
          p',
          ground (arith, get_elem?-set s.manager.processes i (some p') i),
          inr (gone, e, rw there tt),
        )

    ended_elsewhere :
        (left : List ℕ) (i j : ℕ) (pid q st : ℤ) (p' : P) (w' : W) (s : Session P D W)
        → i ≢ j
        → get_elem? pids i ≡ some pid
        → get_elem? pids j ≡ some q
        → (p : P) × (get_elem? s.manager.processes j ≡ some (some p))
          × Slot (i ∷ left) j q p (lookup q s.monitor.status)
        → (p : P) × (get_elem? (ended_at i p' w' pid st s).manager.processes j ≡ some (some p))
          × Slot left j q p (lookup q (ended_at i p' w' pid st s).monitor.status)
    ended_elsewhere left i j pid q st p' w' s ne ati atj (p, at, phase) =
        let apart : pid ≢ q =
          λ same. ne (same_slot pids i j pid different ati (atj ∙ ap some (sym same))) in
        let same : lookup q (ended_at i p' w' pid st s).monitor.status ≡ lookup q s.monitor.status =
          ground (arith, lookup-ended pid st q s.monitor, ne→eqb_ℤ pid q apart) in
        (
          p,
          ground (arith, get_elem?-set s.manager.processes i (some p') j),
          elim phase [
            | inl (here, run, wait) ↦
                inl (sym (contains_other i j left ne) ∙ here, run, same ∙ wait)
            | inr (gone, end, over) ↦
                inr (sym (contains_other i j left ne) ∙ gone, end, rw same over)
          ],
        )

    pub ended-Inv :
        (left : List ℕ) (i : ℕ) (pid st : ℤ) (p' : P) (w' : W) (s : Session P D W)
        → contains i left ≡ false
        → get_elem? pids i ≡ some pid
        → Ended pid p'
        → Inv pids (i ∷ left) s
        → Inv pids left (ended_at i p' w' pid st s)
    unfolding finish wait_for_process
    ended-Inv left i pid st p' w' s gone at e v = record {
      size = length-set s.manager.processes i (some p') ∙ v.size;
      slots = λ j q atj. elim (Bool-cases (i == j)) [
        | inr ne ↦
            ended_elsewhere left i j pid q st p' w' s (λ same. ground arith) at atj
              (v.slots j q atj)
        | inl same ↦
            let slot : i ≡ j = (==_iff i j).0 same in
            let process : pid ≡ q = cc in
            subst (λ n. At n q) slot
              (subst (λ r. At i r) process
                (ended_here left i pid st p' w' s gone
                  (lt_length_of_get s.manager.processes i (some (v.slots i pid at).0)
                    (v.slots i pid at).1)
                  e))
      ];
      only = λ q f there. elim (Bool-cases (eqb_ℤ pid q)) [
        | inl same ↦ (i, at ∙ ap some ((eqb_ℤ_iff pid q).0 same))
        | inr other ↦ v.only q f (ground (arith, lookup-ended pid st q s.monitor))
      ];
      distinct =
          Distinct-insert pid (ready st) (insert pid (notified st) s.monitor.status)
            (Distinct-insert pid (notified st) s.monitor.status v.distinct);
    }
      where
        s' : Session P D W
        s' = ended_at i p' w' pid st s

        At : ℕ → ℤ → Type 0
        At j q =
            (p : P) × (get_elem? s'.manager.processes j ≡ some (some p))
            × Slot left j q p (lookup q s'.monitor.status)
