-- ===== src/ProcessMonitor.antt =====
-- core/process_monitor.h and core/impl/process_monitor.h: a thread waits for each process, and the
-- owner takes the processes as they end. What the threads do meanwhile is in
-- ProcessMonitor/Threads.
pub mod Threads
pub mod Invariant
pub mod Reports
use aser.Prelude.{
  ℤ, minus_one, List, [], ◌∷◌, Option, none, some, lookup, insert, erase, ℤ_key, eqb_ℤ,
  if◌then◌else◌,
}
use aser.Outcome.{Result, ok, stop, thrown, aborted, Exception, invalid_argument, runtime_error}
use aser.Queue.{ConcurrentQueue, empty, push, pop}

-- What stands in `std::future<int>`, by how far the function that fills it has come: it waits for
-- the process, it has put the pid in the queue and not yet returned, it has returned, or thrown.
pub data Future : Type 0 where
  waiting : Future
  notified : ℤ → Future
  ready : ℤ → Future
  failed : Exception → Future

pub record ProcessMonitor : Type 0 where
  pub status : List (ℤ × Future)
  pub ended_process_queue : ConcurrentQueue ℤ

unfoldable pub init : ProcessMonitor
init = record { status = []; ended_process_queue = empty }

-- `check_duplicated_pid` and the assignment that follows it in `add_pid` and `add_process`: the
-- function of the future starts at once, in a thread of its own.
add_unless : Option Future → ℤ → ProcessMonitor → Result (Unit {0}) × ProcessMonitor
add_unless (some _) pid m = (stop (thrown (invalid_argument "Duplicated pid")), m)
add_unless none pid m = (ok tt, record m { status = insert pid waiting m.status })

unfoldable pub add_pid : ℤ → ProcessMonitor → Result (Unit {0}) × ProcessMonitor
unfolding add_unless
add_pid pid m = add_unless (lookup pid m.status) pid m

-- `add_process`, by the pid of the process.
unfoldable pub add_process : ℤ → ProcessMonitor → Result (Unit {0}) × ProcessMonitor
unfolding add_unless
add_process pid m = add_unless (lookup pid m.status) pid m

-- The function of a future, when its wait has ended: `res` and `status` are what `waitpid` gave.
-- For `wait_for_process` the wait is `process->wait()`, which throws by itself.
unfoldable pub wait_for_pid : ℤ → ℤ → ℤ → ProcessMonitor → ProcessMonitor
wait_for_pid pid res status m =
    if eqb_ℤ res minus_one
    then record m {
      status = insert pid (failed (runtime_error "Error waiting for process")) m.status;
    }
    else if eqb_ℤ res pid
    then record m {
      status = insert pid (notified status) m.status;
      ended_process_queue = push pid m.ended_process_queue;
    }
    else record m { status = insert pid (failed (runtime_error "Unexpected error")) m.status }

unfoldable pub wait_for_process : ℤ → Result ℤ → ProcessMonitor → ProcessMonitor
wait_for_process pid (ok status) m = record m {
  status = insert pid (notified status) m.status;
  ended_process_queue = push pid m.ended_process_queue;
}
wait_for_process pid (stop (thrown e)) m = record m { status = insert pid (failed e) m.status }
wait_for_process pid (stop x) m = m

-- How `wait_for_any` ends: it waits for the queue or for the future, or it returns or throws.
pub data Waited : Type 0 where
  blocked : Waited
  done : Result (ℤ × ℤ) → ProcessMonitor → Waited

-- `it->second.get()` and what follows; an exception of the future leaves the entry.
take_status : ℤ → ProcessMonitor → Option Future → Waited
take_status pid m none = done (stop aborted) m
take_status pid m (some waiting) = blocked
take_status pid m (some (notified _)) = blocked
take_status pid m (some (ready status)) =
    done (ok (pid, status)) (record m { status = erase pid m.status })
take_status pid m (some (failed e)) = done (stop (thrown e)) m

take_ended : ProcessMonitor → Option (ℤ × ConcurrentQueue ℤ) → Waited
unfolding take_status
take_ended m none = blocked
take_ended m (some (pid, rest)) =
    take_status pid (record m { ended_process_queue = rest }) (lookup pid m.status)

unfoldable pub wait_for_any : ProcessMonitor → Waited
unfolding take_ended
wait_for_any m = take_ended m (pop m.ended_process_queue)

-- Whether every future has a result, so that the destructor, which gets each one, does not block.
unfoldable pub may_be_destroyed : List (ℤ × Future) → Option (Unit {0})
may_be_destroyed [] = some tt
may_be_destroyed ((pid, waiting) ∷ s) = none
may_be_destroyed ((pid, notified _) ∷ s) = none
may_be_destroyed ((pid, ready _) ∷ s) = may_be_destroyed s
may_be_destroyed ((pid, failed _) ∷ s) = may_be_destroyed s

-- The function of the future of `pid` returns, after its push.
unfoldable pub finish : ℤ → ℤ → ProcessMonitor → ProcessMonitor
finish pid status m = record m { status = insert pid (ready status) m.status }
