-- ===== src/ExecMonitor/Queued.antt =====
-- The thread of a monitor that starts with events in its queue, and that no event reaches later.
use aser.Prelude.{ℕ, zero, suc, ◌<◌, ◌≡◌, refl, ◌∙◌, List, [], ◌∷◌, some, length, replicate, arith}
use mathlib.Core.List.{append-nil}
use aser.Outcome.{ok}
use aser.ExecMonitor.{ExecEvent, ExecMonitor, Virtual, enqueue_events, run_thread}
use aser.ExecMonitor.Events.{with, enqueue_events_lem}
use aser.ExecMonitor.Rounds.{Fits}

pub Fits-queued :
    (fuel n : ℕ) (events : List ExecEvent)
    → length events < fuel
    → Fits fuel (events ∷ replicate n [])
Fits-queued fuel n events h = (h, none_later fuel n (omega arith))
  where
    none_later : (fuel n : ℕ) → 0 < fuel → Fits fuel (replicate n [])
    none_later fuel zero h = tt
    none_later fuel (suc n) h = (h, none_later fuel n h)

module _ {D : Type 0} (virtual : Virtual D) (fuel : ℕ) where
  -- The events are handled in the first round.
  pub run_thread-queued :
      (n : ℕ) (events : List ExecEvent) (d : D) (m : ExecMonitor D)
      → run_thread virtual fuel (replicate (suc n) []) (with events d m)
        ≡ run_thread virtual fuel (events ∷ replicate n []) (with [] d m)
  unfolding run_thread
  run_thread-queued n events d m =
      let first : enqueue_events [] (with events d m) ≡ with events d m =
        enqueue_events_lem [] (with events d m) ∙ rw append-nil in
      rw (first, enqueue_events_lem events (with [] d m))

  pub run_thread-no_round :
      (events : List ExecEvent) (d : D) (m : ExecMonitor D)
      → run_thread virtual fuel [] (with events d m) ≡ some (ok tt, with events d m)
  unfolding run_thread
  run_thread-no_round events d m = refl
