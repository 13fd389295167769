-- ===== src/Condition.antt =====
-- The class `condition` of util/thread.h, and the threads that use one object of it.
pub mod Waiters
use aser.Prelude.{ℕ, suc, ◌+◌, Bool, true, false, ◌≡◌}

pub record Condition : Type 0 where
  pub ready : Bool

unfoldable pub construct : Condition
construct = record { ready = false }

-- The block of `notify` that holds the lock.
unfoldable pub mark_ready : Condition → Condition
mark_ready c = record { ready = true }

-- `notifying` threads are in `notify`, after that block and before `notify_all`; `sleeping` threads
-- wait on the condition variable; `woken` ones have left it and have still to look at the flag;
-- `passed` calls of `wait` have returned.
pub record Threads : Type 0 where
  pub shared : Condition
  pub notifying : ℕ
  pub sleeping : ℕ
  pub woken : ℕ
  pub passed : ℕ

unfoldable pub idle : Threads
unfolding construct
idle = record { shared = construct; notifying = 0; sleeping = 0; woken = 0; passed = 0 }

unfoldable pub notify_all : Threads → Threads
notify_all t = record t { sleeping = 0; woken = t.woken + t.sleeping }

pub data Step (t : Threads) : Threads → Type 0 where
  -- A caller of `wait` that finds the flag set, or not.
  passes : t.shared.ready ≡ true → Step t (record t { passed = suc t.passed })
  sleeps : t.shared.ready ≡ false → Step t (record t { sleeping = suc t.sleeping })
  -- The two halves of `notify`.
  marks : Step t (record t { shared = mark_ready t.shared; notifying = suc t.notifying })
  signals : (n : ℕ) → t.notifying ≡ suc n → Step t (notify_all (record t { notifying = n }))
  -- A woken thread looks at the flag again.
  leaves :
      (n : ℕ)
      → t.woken ≡ suc n
      → t.shared.ready ≡ true
      → Step t (record t { woken = n; passed = suc t.passed })
  sleeps_again :
      (n : ℕ)
      → t.woken ≡ suc n
      → t.shared.ready ≡ false
      → Step t (record t { woken = n; sleeping = suc t.sleeping })
  -- A wake-up with no cause.
  wakes : (n : ℕ) → t.sleeping ≡ suc n → Step t (record t { sleeping = n; woken = suc t.woken })

pub data Reach : Threads → Type 0 where
  start : Reach idle
  later : {t u : Threads} → Reach t → Step t u → Reach u

-- What `wait_for` of a `std::future` returns.
pub data FutureStatus : Type 0 where
  deferred timeout ready : FutureStatus

is_status_ready : FutureStatus → Bool
is_status_ready ready = true
is_status_ready timeout = false
is_status_ready deferred = false

-- `is_ready`, of a future with that `wait_for`, which takes a duration.
unfoldable pub is_ready : (ℕ → FutureStatus) → Bool
unfolding is_status_ready
is_ready wait_for = is_status_ready (wait_for 0)
