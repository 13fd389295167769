-- ===== src/ProcessMonitor/Reports.antt =====
-- What `wait_for_any` returns in every reachable state.
use mathlib.Core.List.{append-nil}
use aser.Prelude.{ℤ, ◌≡◌, sym, ◌∙◌, ◌⊎◌, inl, inr, List, [], ◌∷◌, ◌++◌, some, lookup, ℤ_key}
use aser.Outcome.{ok}
use aser.ProcessMonitor.{ProcessMonitor, notified, blocked, done, wait_for_any}
use aser.ProcessMonitor.Threads.{History, Reach}
use aser.ProcessMonitor.Invariant.{Held, pids, Reach-Inv, wait_for_any-pending, wait_for_any-idle}

-- `wait_for_any` returns the process that has ended first among those not yet reported, with the
-- status of its wait.
abbrev pub ReportsOldest : History → Type 0
ReportsOldest h =
    (pid : ℤ) × (st : ℤ) × (m : ProcessMonitor) × (rest : List (ℤ × ℤ)) × (wait_for_any h.monitor
      ≡ done (ok (pid, st)) m)
    × (h.reported ++ (pid, st) ∷ rest ≡ h.ended)

-- It waits for the thread of that process to return, which is all that it has left to do.
abbrev pub AwaitsOldest : History → Type 0
AwaitsOldest h =
    (pid : ℤ) × (st : ℤ) × (rest : List (ℤ × ℤ)) × (wait_for_any h.monitor ≡ blocked)
    × (lookup pid h.monitor.status ≡ some (notified st))
    × (h.reported ++ (pid, st) ∷ rest ≡ h.ended)

reports_pending :
    (h : History) (l : List (ℤ × ℤ))
    → h.monitor.ended_process_queue.queue ≡ pids l
    → Held h.monitor.status l
    → h.reported ++ l ≡ h.ended
    → ((wait_for_any h.monitor ≡ blocked) × (h.reported ≡ h.ended))
      ⊎ (AwaitsOldest h ⊎ ReportsOldest h)
reports_pending h [] q d o = inl (wait_for_any-idle h.monitor q, sym (append-nil h.reported) ∙ o)
reports_pending h ((p, v) ∷ l) q d o =
    let (go, wait) = wait_for_any-pending h.monitor p v l q d in
    elim d.0 [ inl n ↦ inr (inl (p, v, l, wait n, n, o)) | inr r ↦ inr (inr (p, v, _, l, go r, o)) ]

-- In every reachable state `wait_for_any` never fails its assertion and never throws: either every
-- process whose wait has succeeded has been reported, and the call blocks; or the oldest one that
-- is not reported is in the queue and its thread has still to return, and the call blocks; or the
-- call returns that process and its status.
pub wait_for_any_lem :
    {h : History}
    → Reach h
    → ((wait_for_any h.monitor ≡ blocked) × (h.reported ≡ h.ended))
      ⊎ (AwaitsOldest h ⊎ ReportsOldest h)
wait_for_any_lem {h} r =
    let v = Reach-Inv r in reports_pending h v.pending v.queued v.held v.in_order

-- In every reachable state the reports are the first of the waits that succeeded, in their order
-- and with their status; the pids of the others are in the queue.
pub reported-ended :
    {h : History}
    → Reach h
    → (pending : List (ℤ × ℤ)) × (h.reported ++ pending ≡ h.ended)
      × (h.monitor.ended_process_queue.queue ≡ pids pending)
reported-ended r = let v = Reach-Inv r in (v.pending, v.in_order, v.queued)
