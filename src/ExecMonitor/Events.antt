-- ===== src/ExecMonitor/Events.antt =====
-- The events of a round are handled once each, in their order.
use mathlib.Core.List.{append_assoc, append-nil}
use aser.Prelude.{
  ℕ, zero, suc, ◌<◌, ◌≡◌, refl, ◌∙◌, ap, List, [], ◌∷◌, ◌++◌, some, lookup, length, arith, inl, inr,
}
use aser.Outcome.{Result-cases, Result, ok, stop}
use aser.Queue.{push_rvalue, pop_for}
use aser.ExecMonitor.{
  ExecEvent, EventType, Handler, ExecMonitor, event_type_key, event_handler, call, process_events,
  enqueue_event, enqueue_events,
}

module _ {D : Type 0} (handlers : List (EventType × Handler D)) where
  -- What a monitor with these handlers does with one event.
  unfoldable pub dispatch : Handler D
  dispatch event = call (lookup event.type handlers) event

  -- The events one after the other; an exception leaves the later ones.
  unfoldable pub handle_all : List ExecEvent → D → Result (Unit {0}) × List ExecEvent × D
  handle_all [] d = (ok tt, [], d)
  handle_all (event ∷ events) d = elim (dispatch event d).0 [
    | ok _ ↦ handle_all events (dispatch event d).1
    | stop x ↦ (stop x, events, (dispatch event d).1)
  ]

  pub handle_all-cons :
      (event : ExecEvent) (events : List ExecEvent) (d d' : D)
      → dispatch event d ≡ (ok tt, d')
      → handle_all (event ∷ events) d ≡ handle_all events d'
  unfolding handle_all
  handle_all-cons event events d d' h =
      ap
        (λ (r : Result (Unit {0}) × D). elim r.0 as (λ _. Result (Unit {0}) × List ExecEvent × D) [
          | ok _ ↦ handle_all events r.1
          | stop x ↦ (stop x, events, r.1)
        ])
        h

module _ {D : Type 0} where
  -- The monitor with other events in its queue and another derived object.
  abbrev pub with : List ExecEvent → D → ExecMonitor D → ExecMonitor D
  with events d s = record s { event_queue = record { queue = events }; derived = d }

  abbrev pub outcome :
      ExecMonitor D → Result (Unit {0}) × List ExecEvent × D → Result (Unit {0}) × ExecMonitor D
  outcome s (r, left, d) = (r, with left d s)

  process_events-with :
      (s : ExecMonitor D) (fuel : ℕ) (events : List ExecEvent) (d : D)
      → length events < fuel
      → process_events fuel (with events d s)
        ≡ some (outcome s (handle_all s.event_handlers events d))
  unfolding process_events pop_for event_handler handle_all dispatch
  process_events-with s zero events d h = absurd (omega arith)
  process_events-with s (suc fuel) [] d h = refl
  process_events-with s (suc fuel) (event ∷ events) d h =
      elim (Result-cases (dispatch s.event_handlers event d).0) [
        | inl (u, e) ↦
            rw (e, handle_all)
              (process_events-with s fuel events (dispatch s.event_handlers event d).1
                (omega arith))
        | inr (x, e) ↦ rw (e, handle_all)
      ]

  -- With more fuel than there are events in the queue, `process_events` ends; it has handled the
  -- events of the queue in their order, up to the first whose handler does not return, and the
  -- events after that one are left in the queue.
  pub process_events-handle_all :
      (s : ExecMonitor D) (fuel : ℕ)
      → length s.event_queue.queue < fuel
      → process_events fuel s
        ≡ some (outcome s (handle_all s.event_handlers s.event_queue.queue s.derived))
  process_events-handle_all s fuel h = process_events-with s fuel s.event_queue.queue s.derived h

  pub enqueue_events_lem :
      (events : List ExecEvent) (s : ExecMonitor D)
      → enqueue_events events s ≡ with (s.event_queue.queue ++ events) s.derived s
  unfolding enqueue_events enqueue_event push_rvalue
  enqueue_events_lem [] s = rw append-nil
  enqueue_events_lem (event ∷ events) s =
      enqueue_events_lem events (enqueue_event event s)
      ∙ ap (λ q. with q s.derived s) (append_assoc s.event_queue.queue (event ∷ []) events)
