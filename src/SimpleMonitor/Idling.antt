-- ===== src/SimpleMonitor/Idling.antt =====
-- The thread of a simple monitor.
use aser.Prelude.{ℕ, ◌≡◌, refl, ◌∙◌, ap, List, [], ◌∷◌, some, lookup, insert_new}
use aser.Outcome.{ok}
use aser.Queue.{empty}
use aser.ExecMonitor.{
  ExecMonitor, ExecEvent, EventType, process_created, same_type, event_type_key, Handler,
  run_thread, call, register_event_handler,
}
use aser.ExecMonitor
use aser.ExecMonitor.Events.{dispatch, handle_all, handle_all-cons, outcome, with}
use aser.ExecMonitor.Rounds.{all_rounds, all_rounds-cons, Fits, run_thread-all_rounds}
use aser.SimpleMonitor.{
  SimpleMonitor, add_process, loop_impl, on_created, construct, simple_monitor,
}

abbrev pub handlers : List (EventType × Handler SimpleMonitor)
handlers = (process_created, on_created) ∷ []

registered : (t : EventType) → lookup t handlers ≡ some on_created
unfolding lookup same_type
registered process_created = refl

dispatch-idle : (e : ExecEvent) (d : SimpleMonitor) → dispatch handlers e d ≡ (ok tt, d)
unfolding dispatch call on_created add_process
dispatch-idle e d = ap (λ h. call h e d) (registered e.type)

handle_all-idle :
    (es : List ExecEvent) (d : SimpleMonitor) → handle_all handlers es d ≡ (ok tt, [], d)
unfolding handle_all
handle_all-idle [] d = refl
handle_all-idle (e ∷ es) d =
    handle_all-cons handlers e es d d (dispatch-idle e d) ∙ handle_all-idle es d

all_rounds-idle :
    (rounds : List (List ExecEvent)) (d : SimpleMonitor)
    → all_rounds loop_impl handlers rounds d ≡ (ok tt, [], d)
unfolding all_rounds loop_impl
all_rounds-idle [] d = refl
all_rounds-idle (arriving ∷ rounds) d =
    all_rounds-cons loop_impl handlers arriving rounds d d d refl (handle_all-idle arriving d)
    ∙ all_rounds-idle rounds d

pub run_thread-idle :
    (fuel : ℕ) (rounds : List (List ExecEvent)) (d : SimpleMonitor) (m : ExecMonitor SimpleMonitor)
    → m.event_handlers ≡ handlers
    → Fits fuel rounds
    → run_thread simple_monitor fuel rounds (with [] d m) ≡ some (ok tt, with [] d m)
unfolding simple_monitor
run_thread-idle fuel rounds d m same fits =
    run_thread-all_rounds simple_monitor fuel rounds d m fits ∙ rw (same, all_rounds-idle rounds d)

pub construct-handlers :
    (sampling_length : ℕ) → (construct sampling_length).1.event_handlers ≡ handlers
unfolding construct register_event_handler ExecMonitor.construct lookup insert_new
construct-handlers sampling_length = refl

-- The constructor returns. With more fuel than events arrive in a round, the thread of the monitor
-- that it makes ends without an exception, whatever events arrive: it takes every event from the
-- queue and changes nothing else.
run_thread-simple_monitor :
    (sampling_length fuel : ℕ) (rounds : List (List ExecEvent))
    → Fits fuel rounds
    → let (r, m) = construct sampling_length in
      (r ≡ ok tt) × (run_thread simple_monitor fuel rounds m ≡ some (ok tt, m))
unfolding construct simple_monitor register_event_handler ExecMonitor.construct lookup insert_new
    empty
run_thread-simple_monitor sampling_length fuel rounds fits = (
  refl,
  run_thread-all_rounds simple_monitor fuel rounds (record { sampling_interval = sampling_length })
        (construct sampling_length).1 fits
      ∙ ap (λ o. some (outcome (construct sampling_length).1 o))
          (all_rounds-idle rounds (record { sampling_interval = sampling_length })),
)
