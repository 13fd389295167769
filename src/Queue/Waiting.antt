-- ===== src/Queue/Waiting.antt =====
-- The threads at one queue: pushes, pops, the condition variable, timeouts, spurious wake-ups.
use aser.Prelude.{ℕ, zero, suc, ◌≡◌, List, [], ◌∷◌, ◌++◌, some, none}
use aser.Queue.{ConcurrentQueue, empty, push, pop}

-- `notifying` threads are in `push` between the end of its block and `notify_one`; `sleeping`
-- threads wait on the condition variable and `woken` ones have left it and have not yet looked
-- at the queue. `pushed` and `popped` are the values that calls have put in and got, in order.
pub record Threads (A : Type 0) : Type 0 where
  pub shared : ConcurrentQueue A
  pub notifying : ℕ
  pub sleeping : ℕ
  pub woken : ℕ
  pub pushed : List A
  pub popped : List A

abbrev pub idle : {A : Type 0} → Threads A
idle = record { shared = empty; notifying = 0; sleeping = 0; woken = 0; pushed = []; popped = [] }

-- `notify_one` wakes a sleeper, if there is one.
unfoldable pub notify_one : {A : Type 0} → Threads A → Threads A
notify_one t = elim t.sleeping [ zero ↦ t | suc k ↦ record t { sleeping = k; woken = suc t.woken } ]

pub data Step {A : Type 0} (t : Threads A) : Threads A → Type 0 where
  pushes :
      (value : A)
      → Step t (record t {
        shared = push value t.shared;
        notifying = suc t.notifying;
        pushed = t.pushed ++ value ∷ [];
      })
  notifies : (n : ℕ) → t.notifying ≡ suc n → Step t (notify_one (record t { notifying = n }))
  -- A caller of `pop` that finds the queue filled, or empty.
  finds :
      (value : A) (rest : ConcurrentQueue A)
      → pop t.shared ≡ some (value, rest)
      → Step t (record t { shared = rest; popped = t.popped ++ value ∷ [] })
  sleeps : pop t.shared ≡ none → Step t (record t { sleeping = suc t.sleeping })
  -- A woken thread looks at the queue again.
  takes :
      (n : ℕ) (value : A) (rest : ConcurrentQueue A)
      → t.woken ≡ suc n
      → pop t.shared ≡ some (value, rest)
      → Step t (record t { shared = rest; woken = n; popped = t.popped ++ value ∷ [] })
  resumes :
      (n : ℕ)
      → t.woken ≡ suc n
      → pop t.shared ≡ none
      → Step t (record t { woken = n; sleeping = suc t.sleeping })
  -- A wake-up with no cause, or by a timeout.
  wakes : (n : ℕ) → t.sleeping ≡ suc n → Step t (record t { sleeping = n; woken = suc t.woken })
  -- `pop(timeout)` gives up after its time: its last look finds nothing.
  gives_up : (n : ℕ) → t.woken ≡ suc n → pop t.shared ≡ none → Step t (record t { woken = n })

pub data Reach {A : Type 0} : Threads A → Type 0 where
  start : Reach idle
  later : {t u : Threads A} → Reach t → Step t u → Reach u
