-- ===== src/ProcessMonitor/Invariant.antt =====
-- What the queue of ended processes and the map of futures have to do with each other.
use mathlib.Core.List.{append_assoc}
use aser.Prelude.{
  ℤ, ◌≡◌, ◌≢◌, refl, sym, ap, ◌∙◌, ◌⊎◌, inl, inr, List, [], ◌∷◌, ◌++◌, some, none, arith, lookup,
  insert, erase, ℤ_key, eqb_ℤ, eqb_ℤ_iff, eqb_ℤ_refl, ne→eqb_ℤ, Bool-cases, lookup-insert,
  lookup-erase_ne, minus_one,
}
use mathlib.Core.Path.{subst}
use aser.Outcome.{ok, runtime_error}
use aser.Queue.{empty, push, pop}
use aser.ProcessMonitor.{
  ProcessMonitor, Future, waiting, notified, ready, failed, init, add_process, wait_for_pid,
  wait_for_process, finish, blocked, done, wait_for_any,
}
use aser.ProcessMonitor.Threads.{
  History, new, Step, adds, ends, ends_pid, fails, fails_pid, returns, reports, Reach, start, later,
}

abbrev Futures : Type 0
Futures = List (ℤ × Future)

abbrev Absent : ℤ → List (ℤ × ℤ) → Type 0
Absent p [] = Unit
Absent p ((q, _) ∷ l) = (q ≢ p) × Absent p l

-- The future of each process of the list has its status, or has put the pid in the queue and is
-- about to have it; no process is there twice.
abbrev pub Held : Futures → List (ℤ × ℤ) → Type 0
Held s [] = Unit
Held s ((p, st) ∷ l) =
    ((lookup p s ≡ some (notified st)) ⊎ (lookup p s ≡ some (ready st))) × Absent p l × Held s l

abbrev pub pids : List (ℤ × ℤ) → List ℤ
pids [] = []
pids ((p, st) ∷ l) = p ∷ pids l

-- `pending` are the processes that have ended and have not been reported.
pub record Inv (h : History) : Type 0 where
  pub pending : List (ℤ × ℤ)
  pub queued : h.monitor.ended_process_queue.queue ≡ pids pending
  pub held : Held h.monitor.status pending
  pub in_order : h.reported ++ pending ≡ h.ended

-- A process whose future is not in that state is not in the list.
Held-Absent :
    (s : Futures) (p : ℤ) (l : List (ℤ × ℤ))
    → (lookup p s ≡ none) ⊎ (lookup p s ≡ some waiting)
    → Held s l
    → Absent p l
Held-Absent s p [] e h = tt
Held-Absent s p ((q, st) ∷ l) e h = (λ same. ground arith, Held-Absent s p l e h.2)

-- A write to the future of another process.
Held-insert :
    (s : Futures) (p : ℤ) (f : Future) (l : List (ℤ × ℤ))
    → Absent p l
    → Held s l
    → Held (insert p f s) l
Held-insert s p f [] a h = tt
Held-insert s p f ((q, st) ∷ l) a h =
    (ground (arith, lookup-insert p q f s, eqb_ℤ_iff p q), h.1, Held-insert s p f l a.1 h.2)

Held-erase : (s : Futures) (p : ℤ) (l : List (ℤ × ℤ)) → Absent p l → Held s l → Held (erase p s) l
Held-erase s p [] a h = tt
Held-erase s p ((q, st) ∷ l) a h =
    (ground (arith, lookup-erase_ne p q s), h.1, Held-erase s p l a.1 h.2)

Held-finish :
    (s : Futures) (p v : ℤ) (l : List (ℤ × ℤ))
    → lookup p s ≡ some (notified v)
    → Held s l
    → Held (insert p (ready v) s) l
Held-finish s p v [] e h = tt
Held-finish s p v ((q, st) ∷ l) e h =
    (ground (arith, lookup-insert p q (ready v) s, eqb_ℤ_iff p q), h.1, Held-finish s p v l e h.2)

-- A process joins the list at its end.
Absent-append : (p q v : ℤ) (l : List (ℤ × ℤ)) → q ≢ p → Absent q l → Absent q (l ++ (p, v) ∷ [])
Absent-append p q v [] ne a = (λ e. ne (sym e), tt)
Absent-append p q v ((r, st) ∷ l) ne a = (a.0, Absent-append p q v l ne a.1)

Held-append :
    (s : Futures) (p v : ℤ) (l : List (ℤ × ℤ))
    → Absent p l
    → Held s l
    → lookup p s ≡ some (notified v)
    → Held s (l ++ (p, v) ∷ [])
Held-append s p v [] a h e = (inl e, tt, tt)
Held-append s p v ((q, st) ∷ l) a h e =
    (h.0, Absent-append p q v l a.0 h.1, Held-append s p v l a.1 h.2 e)

pids-append : (p v : ℤ) (l : List (ℤ × ℤ)) → pids (l ++ (p, v) ∷ []) ≡ pids l ++ p ∷ []
pids-append p v [] = refl
pids-append p v ((q, st) ∷ l) = ap (◌∷◌ q) (pids-append p v l)

init-Inv : Inv new
unfolding init empty
init-Inv = record { pending = []; queued = refl; held = tt; in_order = refl }

-- The step at which a wait succeeds, for both kinds of it.
ended-Inv :
    (h : History) (pid st : ℤ)
    → lookup pid h.monitor.status ≡ some waiting
    → Inv h
    → Inv (record h {
      monitor = wait_for_process pid (ok st) h.monitor;
      ended = h.ended ++ (pid, st) ∷ [];
    })
unfolding wait_for_process push
ended-Inv h pid st e v =
    let gone = Held-Absent h.monitor.status pid v.pending (inr e) v.held in
    record {
      pending = v.pending ++ (pid, st) ∷ [];
      queued = ap (λ q. q ++ pid ∷ []) v.queued ∙ sym (pids-append pid st v.pending);
      held =
          Held-append (insert pid (notified st) h.monitor.status) pid st v.pending gone
            (Held-insert h.monitor.status pid (notified st) v.pending gone v.held)
            (ground (arith, lookup-insert pid pid (notified st) h.monitor.status, eqb_ℤ_refl pid));
      in_order =
          sym (append_assoc h.reported v.pending ((pid, st) ∷ []))
          ∙ ap (λ l. l ++ (pid, st) ∷ []) v.in_order;
    }

-- The step at which a wait fails.
failed-Inv :
    (h : History) (pid : ℤ) (x : Future)
    → lookup pid h.monitor.status ≡ some waiting
    → Inv h
    → Inv (record h { monitor = record (h.monitor) { status = insert pid x h.monitor.status } })
failed-Inv h pid x e v = record {
  pending = v.pending;
  queued = v.queued;
  held =
      Held-insert h.monitor.status pid x v.pending
        (Held-Absent h.monitor.status pid v.pending (inr e) v.held) v.held;
  in_order = v.in_order;
}

wait_for_pid-ok :
    (pid st : ℤ) (m : ProcessMonitor)
    → pid ≢ minus_one
    → wait_for_pid pid pid st m ≡ wait_for_process pid (ok st) m
unfolding wait_for_pid wait_for_process
wait_for_pid-ok pid st m ne = rw (ne→eqb_ℤ pid minus_one ne, eqb_ℤ_refl pid)

wait_for_pid-failed :
    (pid res st : ℤ) (m : ProcessMonitor)
    → res ≢ pid
    → (x : Future) × (wait_for_pid pid res st m ≡ record m { status = insert pid x m.status })
unfolding wait_for_pid
wait_for_pid-failed pid res st m ne = elim (Bool-cases (eqb_ℤ res minus_one)) [
  | inl e ↦ (failed (runtime_error "Error waiting for process"), rw e)
  | inr e ↦ (failed (runtime_error "Unexpected error"), rw (e, ne→eqb_ℤ res pid ne))
]

-- What `wait_for_any` does with the first process that is pending.
module _ (m : ProcessMonitor) (p v : ℤ) (l : List (ℤ × ℤ))
    (queued : m.ended_process_queue.queue ≡ pids ((p, v) ∷ l))
    (held : Held m.status ((p, v) ∷ l)) where
  pub wait_for_any-pending :
      (lookup p m.status ≡ some (ready v)
        → wait_for_any m
          ≡ done (ok (p, v)) (record {
            status = erase p m.status;
            ended_process_queue = record { queue = pids l };
          }))
      × (lookup p m.status ≡ some (notified v) → wait_for_any m ≡ blocked)
  unfolding wait_for_any pop
  wait_for_any-pending = (λ e. ground arith, λ e. ground arith)

pub wait_for_any-idle :
    (m : ProcessMonitor) → m.ended_process_queue.queue ≡ [] → wait_for_any m ≡ blocked
unfolding wait_for_any pop
wait_for_any-idle m e = ground arith

report-Inv :
    (h : History) (pid st : ℤ) (m : ProcessMonitor) (l : List (ℤ × ℤ))
    → wait_for_any h.monitor ≡ done (ok (pid, st)) m
    → h.monitor.ended_process_queue.queue ≡ pids l
    → Held h.monitor.status l
    → h.reported ++ l ≡ h.ended
    → Inv (record h { monitor = m; reported = h.reported ++ (pid, st) ∷ [] })
report-Inv h pid st m [] e q d o = absurd (ground (arith, wait_for_any-idle h.monitor q))
report-Inv h pid st m ((p, v) ∷ l) e q d o = elim d.0 [
  | inl n ↦ absurd (ground (arith, (wait_for_any-pending h.monitor p v l q d).1 n))
  | inr r ↦
      let same = sym ((wait_for_any-pending h.monitor p v l q d).0 r) ∙ e in
      let status : erase p h.monitor.status ≡ m.status = cc in
      let queue : m.ended_process_queue.queue ≡ pids l = ground arith in
      let front : ◌≡◌ {A = ℤ × ℤ} (p, v) (pid, st) = ground arith in
      record {
        pending = l;
        queued = queue;
        held = subst (λ s. Held s l) status (Held-erase h.monitor.status p l d.1 d.2);
        in_order =
            append_assoc h.reported ((pid, st) ∷ []) l
            ∙ (ap (λ x. h.reported ++ x ∷ l) (sym front) ∙ o);
      }
]

add_process_lem :
    (pid : ℤ) (m m' : ProcessMonitor)
    → add_process pid m ≡ (ok tt, m')
    → (lookup pid m.status ≡ none) × (m' ≡ record m { status = insert pid waiting m.status })
unfolding add_process
add_process_lem pid m m' e = (ground arith, ground arith)

added-Inv :
    (h : History) (pid : ℤ) (m : ProcessMonitor)
    → add_process pid h.monitor ≡ (ok tt, m)
    → Inv h
    → Inv (record h { monitor = m })
added-Inv h pid m e v =
    let (fresh, same) = add_process_lem pid h.monitor m e in
    subst (λ n. Inv (record h { monitor = n })) (sym same)
      (record {
        pending = v.pending;
        queued = v.queued;
        held =
            Held-insert h.monitor.status pid waiting v.pending
              (Held-Absent h.monitor.status pid v.pending (inl fresh) v.held) v.held;
        in_order = v.in_order;
      })

pub Step-Inv : {g h : History} → Step g h → Inv g → Inv h
Step-Inv {g} (adds pid m e) v = added-Inv g pid m e v
Step-Inv {g} (ends pid st e) v = ended-Inv g pid st e v
Step-Inv {g} (ends_pid pid st e ne) v =
    rw (wait_for_pid-ok pid st g.monitor ne) (ended-Inv g pid st e v)
Step-Inv {g} (fails pid x e) v = unfold wait_for_process in failed-Inv g pid (failed x) e v
Step-Inv {g} (fails_pid pid res st e ne) v =
    let (x, same) = wait_for_pid-failed pid res st g.monitor ne in rw same (failed-Inv g pid x e v)
Step-Inv {g} (returns pid st e) v =
    unfold finish in
    record {
      pending = v.pending;
      queued = v.queued;
      held = Held-finish g.monitor.status pid st v.pending e v.held;
      in_order = v.in_order;
    }
Step-Inv {g} (reports pid st m e) v = report-Inv g pid st m v.pending e v.queued v.held v.in_order

pub Reach-Inv : {h : History} → Reach h → Inv h
Reach-Inv start = init-Inv
Reach-Inv (later r st) = Step-Inv st (Reach-Inv r)
