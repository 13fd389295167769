-- ===== src/Queue.antt =====
-- util/concurrent_queue.h: what each call does to the queue, under its lock. Who sleeps on the
-- condition variable, and who is woken, is in Queue/Waiting.
pub mod Waiting
pub mod Wakeups
use aser.Prelude.{Bool, true, false, List, [], ◌∷◌, ◌++◌, Option, none, some}

-- The front of the queue is the head of the list.
pub record ConcurrentQueue {ℓ} (A : Type ℓ) : Type ℓ where
  pub queue : List A

module _ {ℓ} {A : Type ℓ} where
  unfoldable pub empty : ConcurrentQueue A
  empty = record { queue = [] }

  -- `push(const value_type&)`
  unfoldable pub push : A → ConcurrentQueue A → ConcurrentQueue A
  push value q = record { queue = q.queue ++ value ∷ [] }

  -- `push(value_type&&)`, which copies too: the name of the argument is no rvalue.
  unfoldable pub push_rvalue : A → ConcurrentQueue A → ConcurrentQueue A
  push_rvalue value q = record { queue = q.queue ++ value ∷ [] }

  take_front : List A → Option (A × ConcurrentQueue A)
  take_front [] = none
  take_front (value ∷ rest) = some (value, record { queue = rest })

  -- `pop()`; `none` is a caller that blocks, since the predicate of its wait fails.
  unfoldable pub pop : ConcurrentQueue A → Option (A × ConcurrentQueue A)
  unfolding take_front
  pop q = take_front q.queue

  found_or : A → ConcurrentQueue A → Option (A × ConcurrentQueue A) → (Bool × A) × ConcurrentQueue A
  found_or default q none = ((false, default), q)
  found_or default q (some (value, q')) = ((true, value), q')

  -- `pop(timeout)`, at the moment when its wait ends; `default` is the value of `value_type{}`.
  unfoldable pub pop_for : A → ConcurrentQueue A → (Bool × A) × ConcurrentQueue A
  unfolding pop found_or
  pop_for default q = found_or default q (pop q)
