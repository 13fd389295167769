-- ===== src/ProcessMonitor/Threads.antt =====
-- The steps of the owner of a monitor and of the threads that wait.
use aser.Prelude.{ℤ, minus_one, ◌≡◌, ◌≢◌, List, [], ◌∷◌, ◌++◌, some, lookup, ℤ_key}
use aser.Outcome.{Exception, ok, stop, thrown}
use aser.ProcessMonitor.{
  ProcessMonitor, waiting, notified, init, add_process, wait_for_pid, wait_for_process, finish,
  done, wait_for_any,
}

-- The monitor, and what has happened: the processes whose wait succeeded, with their status, and
-- what `wait_for_any` has returned; both in the order of time.
pub record History : Type 0 where
  pub monitor : ProcessMonitor
  pub ended : List (ℤ × ℤ)
  pub reported : List (ℤ × ℤ)

abbrev pub new : History
new = record { monitor = init; ended = []; reported = [] }

pub data Step (h : History) : History → Type 0 where
  adds :
      (pid : ℤ) (m : ProcessMonitor)
      → add_process pid h.monitor ≡ (ok tt, m)
      → Step h (record h { monitor = m })
  -- The wait in the thread of `pid` ends, for `add_process` and for `add_pid`.
  ends :
      (pid status : ℤ)
      → lookup pid h.monitor.status ≡ some waiting
      → Step h (record h {
        monitor = wait_for_process pid (ok status) h.monitor;
        ended = h.ended ++ (pid, status) ∷ [];
      })
  ends_pid :
      (pid status : ℤ)
      → lookup pid h.monitor.status ≡ some waiting
      → pid ≢ minus_one
      → Step h (record h {
        monitor = wait_for_pid pid pid status h.monitor;
        ended = h.ended ++ (pid, status) ∷ [];
      })
  fails :
      (pid : ℤ) (e : Exception)
      → lookup pid h.monitor.status ≡ some waiting
      → Step h (record h { monitor = wait_for_process pid (stop (thrown e)) h.monitor })
  fails_pid :
      (pid res status : ℤ)
      → lookup pid h.monitor.status ≡ some waiting
      → res ≢ pid
      → Step h (record h { monitor = wait_for_pid pid res status h.monitor })
  returns :
      (pid status : ℤ)
      → lookup pid h.monitor.status ≡ some (notified status)
      → Step h (record h { monitor = finish pid status h.monitor })
  reports :
      (pid status : ℤ) (m : ProcessMonitor)
      → wait_for_any h.monitor ≡ done (ok (pid, status)) m
      → Step h (record h { monitor = m; reported = h.reported ++ (pid, status) ∷ [] })

pub data Reach : History → Type 0 where
  start : Reach new
  later : {g h : History} → Reach g → Step g h → Reach h
