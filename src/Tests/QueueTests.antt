-- ===== src/Tests/QueueTests.antt =====
-- A queue with a sleeping consumer.
use aser.Prelude.{ℕ, ◌≤◌, ◌≡◌, refl, true, false, [], ◌∷◌, ◌++◌, arith, length}
use aser.Queue.{empty, push, pop, pop_for, push_rvalue}
use aser.Queue.Waiting.{Threads, Reach, pushes, sleeps, start, later}
use aser.Queue.Wakeups.{popped-append-queue, no_lost_wakeup}

-- Two consumers sleep, a producer pushes 7 and has not yet notified.
abbrev pushed_one : Threads ℕ
pushed_one = record {
  shared = push 7 empty;
  notifying = 1;
  sleeping = 2;
  woken = 0;
  pushed = 7 ∷ [];
  popped = [];
}

pushed_one-Reach : Reach pushed_one
unfolding pop empty
pushed_one-Reach = later (later (later start (sleeps refl)) (sleeps refl)) (pushes 7)

popped-append-queue_example : [] ++ pushed_one.shared.queue ≡ 7 ∷ []
popped-append-queue_example = popped-append-queue pushed_one-Reach

no_lost_wakeup_example : length pushed_one.shared.queue ≤ 1
no_lost_wakeup_example = no_lost_wakeup pushed_one-Reach (omega arith)

pops_in_order : pop_for {A = ℕ} 0 (push_rvalue 2 (push 1 empty)) ≡ ((true, 1), push 2 empty)
unfolding pop_for push_rvalue push empty
pops_in_order = refl

pop_for-empty : pop_for {A = ℕ} 0 empty ≡ ((false, 0), empty)
unfolding pop_for empty
pop_for-empty = refl
