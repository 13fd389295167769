-- ===== src/Timer.antt =====
-- The class `callback_timer` of util/timer.h and util/timer.cc: its thread, and the destructor.
pub mod Cancelling
use aser.Prelude.{ℕ, suc, Bool, true, false, ◌≡◌, ◌≢◌}

-- How far the thread that runs `run` is: it waits for the condition, or it has returned.
pub data RunState : Type 0 where
  waiting returned : RunState

-- How far the destructor is.
pub data Destruction : Type 0 where
  alive signalled joined : Destruction

-- `calls` counts the calls of `callback_`.
pub record Timer : Type 0 where
  pub canceled : Bool
  pub run_state : RunState
  pub destruction : Destruction
  pub calls : ℕ

unfoldable pub construct : Timer
construct = record { canceled = false; run_state = waiting; destruction = alive; calls = 0 }

-- `wait_for` returns the value of its predicate, which the thread reads with the lock held; it keeps
-- the lock for the callback. `false` is possible after the time only.
unfoldable pub wait_returns : Bool → Timer → Timer
wait_returns true t = record t { run_state = returned }
wait_returns false t = record t { run_state = returned; calls = suc t.calls }

-- The destructor, up to its notification.
unfoldable pub cancel : Timer → Timer
cancel t = record t { canceled = true; destruction = signalled }

unfoldable pub join : Timer → Timer
join t = record t { destruction = joined }

-- The threads: the time runs out, or the thread finds that the timer is canceled, or the destructor
-- goes on; `join` needs the thread to have returned.
pub data Step (t : Timer) : Timer → Type 0 where
  expires : t.run_state ≡ waiting → Step t (wait_returns t.canceled t)
  notices : t.run_state ≡ waiting → t.canceled ≡ true → Step t (wait_returns true t)
  cancels : t.destruction ≡ alive → Step t (cancel t)
  joins : t.destruction ≡ signalled → t.run_state ≡ returned → Step t (join t)

-- Any number of steps.
pub data Steps (t : Timer) : Timer → Type 0 where
  none : Steps t t
  more : {u v : Timer} → Steps t u → Step u v → Steps t v
