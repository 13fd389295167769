-- ===== src/Tests/MonitorTests.antt =====
-- A process that ends, and is reported.
use aser.Prelude.{ℤ, pos, ◌≡◌, ◌⊎◌, refl, List, [], ◌∷◌, ◌++◌, lookup, insert, insert_new, replace}
use aser.Outcome.{ok}
use aser.ProcessMonitor.{wait_for_any, wait_for_process, finish, add_process, init, blocked}
use aser.ProcessMonitor.Threads.{History, Reach, adds, ends, returns, start, later}
use aser.ProcessMonitor.Invariant.{pids}
use aser.ProcessMonitor.Reports.{AwaitsOldest, ReportsOldest, wait_for_any_lem, reported-ended}

-- Process 100 was added, it has ended with status 3, and its thread has returned.
abbrev one_ended : History
one_ended = record {
  monitor =
      finish (pos 100) (pos 3)
        (wait_for_process (pos 100) (ok (pos 3)) (add_process (pos 100) init).1);
  ended = (pos 100, pos 3) ∷ [];
  reported = [];
}

one_ended-Reach : Reach one_ended
unfolding add_process wait_for_process init lookup insert insert_new replace
one_ended-Reach =
    later
      (later (later start (adds (pos 100) (add_process (pos 100) init).1 refl))
        (ends (pos 100) (pos 3) refl))
      (returns (pos 100) (pos 3) refl)

wait_for_any_lem_example :
    ((wait_for_any one_ended.monitor ≡ blocked) × ([] ≡ one_ended.ended))
    ⊎ (AwaitsOldest one_ended ⊎ ReportsOldest one_ended)
wait_for_any_lem_example = wait_for_any_lem one_ended-Reach

reported-ended_example :
    (pending : List (ℤ × ℤ)) × ([] ++ pending ≡ (pos 100, pos 3) ∷ [])
    × (one_ended.monitor.ended_process_queue.queue ≡ pids pending)
reported-ended_example = reported-ended one_ended-Reach
