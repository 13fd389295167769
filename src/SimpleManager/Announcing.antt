-- ===== src/SimpleManager/Announcing.antt =====
-- What a successful preparation leaves: a process in each slot, and its event in the queue of the
-- monitor.
use mathlib.Core.List.{append_assoc, append-nil}
use mathlib.Core.Path.{subst}
use aser.Queue.{push_rvalue}
use aser.ExecMonitor.{ExecEvent, ExecMonitor, process_created, enqueue_event}
use aser.ExecMonitor.Events.{with}
use aser.Prelude.{
  ℕ, suc, ℤ, ◌+◌, ◌^◌, ◌<◌, ◌≡◌, refl, sym, ap, ◌∙◌, inl, inr, String, List, [], ◌∷◌, ◌++◌, Option,
  none, some, arith, length, length-append, replicate, get_elem?, set,
}
use aser.Outcome.{ok}
use aser.Benchmark.{Benchmark}
use aser.ProcessClass.{ProcessClass}
use aser.Manager
use aser.Manager.{ExecManager, notify_process_creation}
use aser.SimpleManager.Bench.{Prepared, prepare_bench_lem}
use aser.SimpleManager.Preparing.{next_id}
use aser.SimpleManager.Completion.{Aligned}
use aser.SimpleManager.{SimpleManager, assign_ids, construct, prepare_benches}

-- The process was made and prepared, and has that pid.
abbrev pub Announced : {P W : Type 0} → ProcessClass P W → ℤ → P → Type 0
Announced c pid p = (args : List String) × (q : Prepared c args p) × (q.pid ≡ pid)

unfoldable pub notified : {D : Type 0} → List ℤ → ExecManager D → ExecManager D
notified [] b = b
notified (pid ∷ pids) b = notified pids (notify_process_creation pid b).1

get-append_here :
    {A : Type 0} (xs ys : List A) (a : A) → get_elem? (xs ++ a ∷ ys) (length xs) ≡ some a
get-append_here [] ys a = refl
get-append_here (x ∷ xs) ys a = get-append_here xs ys a

set-append_here :
    {A : Type 0} (xs ys : List A) (a b : A)
    → set (xs ++ a ∷ ys) (length xs) b ≡ (xs ++ b ∷ []) ++ ys
set-append_here [] ys a b = refl
set-append_here (x ∷ xs) ys a b = ap (λ l. x ∷ l) (set-append_here xs ys a b)

module _ {P D W : Type 0} (c : ProcessClass P W) where
  prepare_all :
      (bs : List Benchmark) (id : ℕ) (filled : List (Option P)) (s s₁ : SimpleManager P D W)
      → length filled ≡ id
      → id + length bs < 2 ^ 32
      → s.processes ≡ filled ++ replicate (length bs) none
      → prepare_benches c (assign_ids id bs) s ≡ (ok tt, s₁)
      → (pids : List ℤ) × (ps : List (Option P)) × (s₁.processes ≡ filled ++ ps)
        × Aligned (Announced c) pids ps
        × (s₁.base ≡ notified pids s.base)
        × (length pids ≡ length bs)
  unfolding prepare_benches assign_ids notified
  prepare_all [] id filled s s₁ size room free run =
      let same : s ≡ s₁ = cc in
      ([], [], ap (λ t. t.processes) (sym same) ∙ free, tt, ap (λ t. t.base) (sym same), refl)
  prepare_all (b ∷ bs) id filled s s₁ size room free run =
      let here : get_elem? s.processes id ≡ some none =
        rw (free, ← size) (get-append_here filled (replicate (length bs) none) none) in
      elim (prepare_bench_lem c (record b { id = id }) s here) [
        | inr (x, s', stops, _, _) ↦ absurd (let broken = rw stops at run in cc)
        | inl (p, s', q, returns, sets, base) ↦
            let rest : prepare_benches c (assign_ids (id + 1) bs) s' ≡ (ok tt, s₁) =
              rw (returns, next_id id (length bs) room) at run in
            let (pids, ps, slots, aligned, all, long) =
              prepare_all bs (id + 1) (filled ++ some p ∷ []) s' s₁
                (omega (arith, length-append filled (some p ∷ []), size)) (omega arith)
                (sets
                  ∙ rw (free, ← size)
                      (set-append_here filled (replicate (length bs) none) none (some p)))
                rest in
            (
              q.pid ∷ pids,
              some p ∷ ps,
              slots ∙ append_assoc filled (some p ∷ []) ps,
              ((b.args, q, refl), aligned),
              all ∙ ap (notified pids) base,
              omega (arith, long),
            )
      ]

  -- With fewer than 2^32 benchmarks: after a preparation that returns, every slot has a process that
  -- was made and prepared, and the monitor has one event for each, in the order of the slots.
  pub prepare_benches-notified :
      (base : ExecManager D) (benchs : List Benchmark) (w : W) (s₁ : SimpleManager P D W)
      → length benchs < 2 ^ 32
      → prepare_benches c (assign_ids 0 benchs) (construct base benchs w) ≡ (ok tt, s₁)
      → (pids : List ℤ) × Aligned (Announced c) pids s₁.processes
        × (s₁.base ≡ notified pids base)
        × (length pids ≡ length benchs)
  unfolding construct
  prepare_benches-notified base benchs w s₁ room run =
      let (pids, ps, slots, aligned, all, long) =
        prepare_all benchs 0 [] (construct base benchs w) s₁ refl (omega arith) refl run in
      (pids, subst (Aligned (Announced c) pids) (sym slots) aligned, all, long)

-- The events that the processes have caused.
abbrev pub created_all : List ℤ → List ExecEvent
created_all [] = []
created_all (pid ∷ pids) = record { type = process_created; pid = pid } ∷ created_all pids

pub notified_lem :
    {D : Type 0} (pids : List ℤ) (b : ExecManager D)
    → notified pids b ≡ record b {
      exec_monitor =
          with
            (b.exec_monitor.event_queue.queue ++ created_all pids)
            b.exec_monitor.derived
            b.exec_monitor;
    }
unfolding notified notify_process_creation enqueue_event push_rvalue
notified_lem [] b = rw append-nil
notified_lem (pid ∷ pids) b =
    notified_lem pids (notify_process_creation pid b).1
    ∙ ap (λ q. record b { exec_monitor = with q b.exec_monitor.derived b.exec_monitor })
        (append_assoc b.exec_monitor.event_queue.queue
          (record { type = process_created; pid = pid } ∷ []) (created_all pids))

pub length-created_all : (pids : List ℤ) → length (created_all pids) ≡ length pids
length-created_all [] = refl
length-created_all (pid ∷ pids) = ap suc (length-created_all pids)

-- A monitor whose queue was empty.
pub notified_new :
    {D : Type 0} (pids : List ℤ) (m : ExecMonitor D)
    → m.event_queue.queue ≡ []
    → (notified pids (Manager.construct m)).exec_monitor ≡ with (created_all pids) m.derived m
unfolding Manager.construct
notified_new pids m none_waiting =
    ap (λ b. b.exec_monitor) (notified_lem pids (Manager.construct m))
    ∙ ap (λ l. with (l ++ created_all pids) m.derived m) none_waiting
