-- ===== src/ExecMonitor.antt =====
-- core/exec_event.h, core/exec_monitor.h and core/exec_monitor.cc: the base class of the monitors.
-- `D` is the derived object with the state of the system.
pub mod Events
pub mod Rounds
pub mod Hopping
pub mod Calls
pub mod Queued
pub mod Refusing
pub mod Sampling
use aser.Prelude.{
  ℕ, zero, suc, ℤ, pos, Bool, true, false, not, List, [], ◌∷◌, Option, none, some, Key, lookup,
  insert_new, ◌↔◌, ◌≡◌, refl,
}
use aser.Outcome.{
  Exec, Result, ok, stop, aborted, pure, assert, ◌>>=◌, ◌>>◌, thrown, system_error, continue,
}
use aser.Queue.{ConcurrentQueue, empty, push_rvalue, pop_for}

pub data EventType : Type 0 where
  process_created : EventType

pub record ExecEvent : Type 0 where
  pub type : EventType
  pub pid : ℤ

unfoldable pub same_type : EventType → EventType → Bool
same_type process_created process_created = true

pub same_type_iff : (a b : EventType) → (same_type a b ≡ true) ↔ (a ≡ b)
unfolding same_type
same_type_iff process_created process_created = (λ e. refl, λ e. refl)

instance abbrev pub event_type_key : Key EventType
unfolding same_type
event_type_key = record { beq = same_type; lt = λ a b. false; beq_iff = same_type_iff }

abbrev pub Handler : Type 0 → Type 0
Handler D = ExecEvent → Exec D (Unit {0})

-- The virtual functions of a monitor.
pub record Virtual (D : Type 0) : Type 0 where
  pub initialize_impl : Exec D (Unit {0})
  pub finalize_impl : Exec D (Unit {0})
  pub prepare_impl : Exec D (Unit {0})
  pub loop_impl : Exec D (Unit {0})

-- Whether `thread_` has a thread to join.
pub data ThreadState : Type 0 where
  no_thread running : ThreadState

pub record ExecMonitor (D : Type 0) : Type 0 where
  pub initialized : Bool
  pub thread : ThreadState
  pub event_queue : ConcurrentQueue ExecEvent
  pub event_handlers : List (EventType × Handler D)
  pub derived : D

-- `exec_event{}`
abbrev pub no_event : ExecEvent
no_event = record { type = process_created; pid = pos 0 }

module _ {D : Type 0} where
  unfoldable pub construct : D → ExecMonitor D
  construct d = record {
    initialized = false;
    thread = no_thread;
    event_queue = empty;
    event_handlers = [];
    derived = d;
  }

  on_derived : Exec D (Unit {0}) → Exec (ExecMonitor D) (Unit {0})
  on_derived m s = let (r, d) = m s.derived in (r, record s { derived = d })

  -- `emplace`, and the assertion that there was no handler of that type.
  emplace : Option (Handler D) → EventType → Handler D → Exec (ExecMonitor D) (Unit {0})
  emplace (some _) type func s = (stop aborted, s)
  emplace none type func s =
      (ok tt, record s { event_handlers = insert_new type func s.event_handlers })

  unfoldable pub register_event_handler : EventType → Handler D → Exec (ExecMonitor D) (Unit {0})
  unfolding emplace
  register_event_handler type func s = emplace (lookup type s.event_handlers) type func s

  module _ (virtual : Virtual D) where
    unfoldable pub initialize : Exec (ExecMonitor D) (Unit {0})
    unfolding on_derived
    initialize s =
        (assert (not s.initialized)
            >> (on_derived virtual.initialize_impl >> λ t.
                (ok tt, record t { initialized = true })))
          s

    unfoldable pub finalize : Exec (ExecMonitor D) (Unit {0})
    unfolding on_derived
    finalize s = (assert s.initialized >> on_derived virtual.finalize_impl) s

    unfoldable pub prepare : Exec (ExecMonitor D) (Unit {0})
    unfolding on_derived
    prepare s = (assert s.initialized >> on_derived virtual.prepare_impl) s

  -- A thread that is assigned over one that runs ends the program.
  launch : ThreadState → Exec (ExecMonitor D) (Unit {0})
  launch no_thread s = (ok tt, record s { thread = running })
  launch running s = (stop aborted, s)

  -- The thread that it starts is `run_thread`.
  unfoldable pub start : Exec (ExecMonitor D) (Unit {0})
  unfolding launch
  start s = (assert s.initialized >> launch s.thread) s

  join_thread : ThreadState → Exec (ExecMonitor D) (Unit {0})
  join_thread no_thread s = (stop (thrown (system_error (pos 22) "Invalid argument")), s)
  join_thread running s = (ok tt, record s { thread = no_thread })

  -- `join`, when the thread has ended.
  unfoldable pub join : Exec (ExecMonitor D) (Unit {0})
  unfolding join_thread
  join s = (assert s.initialized >> join_thread s.thread) s

  unfoldable pub enqueue_event : ExecEvent → ExecMonitor D → ExecMonitor D
  enqueue_event event s = record s { event_queue = push_rvalue event s.event_queue }

  unfoldable pub call : Option (Handler D) → Handler D
  call none event d = (ok tt, d)
  call (some func) event d = func event d

  unfoldable pub event_handler : ExecEvent → Exec (ExecMonitor D) (Unit {0})
  unfolding call on_derived
  event_handler event s = on_derived (call (lookup event.type s.event_handlers) event) s

  -- The rest of a loop after a call: `none` is a loop that has used up its fuel.
  go_on :
      Result (Unit {0}) × ExecMonitor D
      → (ExecMonitor D → Option (Result (Unit {0}) × ExecMonitor D))
      → Option (Result (Unit {0}) × ExecMonitor D)
  go_on (ok _, s) rest = rest s
  go_on (stop x, s) rest = some (stop x, s)

  popped :
      (ExecMonitor D → Option (Result (Unit {0}) × ExecMonitor D))
      → ExecMonitor D
      → (Bool × ExecEvent) × ConcurrentQueue ExecEvent
      → Option (Result (Unit {0}) × ExecMonitor D)
  unfolding go_on
  popped rest s ((false, _), q) = some (ok tt, record s { event_queue = q })
  popped rest s ((true, event), q) = go_on (event_handler event (record s { event_queue = q })) rest

  unfoldable pub process_events : ℕ → ExecMonitor D → Option (Result (Unit {0}) × ExecMonitor D)
  unfolding popped
  process_events zero s = none
  process_events (suc fuel) s = popped (process_events fuel) s (pop_for no_event s.event_queue)

  -- What other threads put in the queue.
  unfoldable pub enqueue_events : List ExecEvent → ExecMonitor D → ExecMonitor D
  enqueue_events [] s = s
  enqueue_events (event ∷ events) s = enqueue_events events (enqueue_event event s)

  next_round :
      Option (Result (Unit {0}) × ExecMonitor D)
      → (ExecMonitor D → Option (Result (Unit {0}) × ExecMonitor D))
      → Option (Result (Unit {0}) × ExecMonitor D)
  unfolding go_on
  next_round none rest = none
  next_round (some r) rest = go_on r rest

  -- The loop of the thread. There is a round for each list of events: it is what arrives after
  -- `is_execution_over` has returned false and before the events are processed. Then the execution is
  -- over. The fuel is for the events of one round.
  unfoldable pub run_thread :
      Virtual D
      → ℕ
      → List (List ExecEvent)
      → ExecMonitor D
      → Option (Result (Unit {0}) × ExecMonitor D)
  unfolding go_on on_derived next_round
  run_thread virtual fuel [] s = some (ok tt, s)
  run_thread virtual fuel (arriving ∷ rounds) s =
      go_on (on_derived virtual.loop_impl (enqueue_events arriving s))
        (λ t. next_round (process_events fuel t) (run_thread virtual fuel rounds))
