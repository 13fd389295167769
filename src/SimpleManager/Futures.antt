-- ===== src/SimpleManager/Futures.antt =====
-- The futures that the process monitor of a manager holds, as its processes end.

use aser.Prelude.{
  ℤ, ◌<◌, ◌≡◌, refl, List, [], ◌∷◌, Option, none, some, arith, length, lookup, erase, ℤ_key,
  eqb_ℤ_iff, Distinct,
}
use aser.Outcome.{ok}
use aser.Queue.{pop}
use aser.ProcessMonitor.{
  wait_for_any, done, ProcessMonitor, Future, waiting, notified, ready, failed, may_be_destroyed,
}

-- The future of a process that has ended: it has its result, or it has been taken.
abbrev pub Settled : Option Future → Type 0
Settled none = Unit
Settled (some (ready st)) = Unit
Settled (some waiting) = ⊥
Settled (some (notified st)) = ⊥
Settled (some (failed e)) = ⊥

-- The processes in the queue have their result.
abbrev pub Ready : List (ℤ × Future) → List ℤ → Type 0
Ready s [] = Unit
Ready s (q ∷ qs) = ((st : ℤ) × (lookup q s ≡ some (ready st))) × Ready s qs

abbrev pub AllReady : ProcessMonitor → Type 0
AllReady m = Ready m.status m.ended_process_queue.queue

pub first_ready :
    (m : ProcessMonitor)
    → AllReady m
    → 0 < length m.ended_process_queue.queue
    → (q : ℤ) × (rest : List ℤ) × (m.ended_process_queue.queue ≡ q ∷ rest)
      × ((st : ℤ) × (lookup q m.status ≡ some (ready st)))
first_ready m r long = go m.ended_process_queue.queue r long refl
  where
    go :
        (qs : List ℤ)
        → Ready m.status qs
        → 0 < length qs
        → m.ended_process_queue.queue ≡ qs
        → (q : ℤ) × (rest : List ℤ) × (m.ended_process_queue.queue ≡ q ∷ rest)
          × ((st : ℤ) × (lookup q m.status ≡ some (ready st)))
    go [] a l e = absurd (omega arith)
    go (q ∷ rest) a l e = (q, rest, e, a.0)

pub wait_for_any_first :
    (m : ProcessMonitor) (q st : ℤ) (rest : List ℤ)
    → m.ended_process_queue.queue ≡ q ∷ rest
    → lookup q m.status ≡ some (ready st)
    → wait_for_any m
      ≡ done
          (ok (q, st))
          (record { status = erase q m.status; ended_process_queue = record { queue = rest } })
unfolding wait_for_any pop
wait_for_any_first m q st rest e there = ground arith

pub destroyed_lem :
    (s : List (ℤ × Future))
    → Distinct s
    → ((q : ℤ) (f : Future) → lookup q s ≡ some f → Settled (some f))
    → may_be_destroyed s ≡ some tt
unfolding may_be_destroyed lookup
destroyed_lem [] d h = refl
destroyed_lem ((q, f) ∷ s) d h =
    let rest = destroyed_lem s d.1 (λ j g there. h j g (ground (arith, eqb_ℤ_iff q j))) in
    settled_head f (h q f (ground (arith, eqb_ℤ_iff q q))) rest
  where
    settled_head :
        (g : Future)
        → Settled (some g)
        → may_be_destroyed s ≡ some tt
        → may_be_destroyed ((q, g) ∷ s) ≡ some tt
    settled_head waiting a r = absurd a
    settled_head (notified st) a r = absurd a
    settled_head (ready st) a r = r
    settled_head (failed e) a r = absurd a
