-- ===== src/ExecMonitor/Rounds.antt =====
-- The thread of a monitor against its specification: in each round the loop body, then the events.
use aser.Prelude.{ℕ, ◌<◌, ◌≡◌, refl, ap, ◌∙◌, List, [], ◌∷◌, some, length, arith, inl, inr}
use aser.Outcome.{Result-cases, Exec, Result, Stop, ok, stop}
use aser.ExecMonitor.{
  ExecEvent, EventType, Handler, Virtual, ExecMonitor, enqueue_events, run_thread,
}
use aser.ExecMonitor.Events.{
  handle_all, dispatch, with, outcome, process_events-handle_all, enqueue_events_lem,
}

module _ {D : Type 0} (loop_impl : Exec D (Unit {0}))
    (handlers : List (EventType × Handler D)) where
  -- The result, the events that are left in the queue, and the derived object.
  unfoldable pub all_rounds : List (List ExecEvent) → D → Result (Unit {0}) × List ExecEvent × D
  all_rounds [] d = (ok tt, [], d)
  all_rounds (arriving ∷ rounds) d = elim (loop_impl d).0 [
    | stop x ↦ (stop x, arriving, (loop_impl d).1)
    | ok _ ↦ elim (handle_all handlers arriving (loop_impl d).1).0 [
      | stop x ↦ handle_all handlers arriving (loop_impl d).1
      | ok _ ↦ all_rounds rounds (handle_all handlers arriving (loop_impl d).1).2
    ]
  ]

  pub all_rounds-cons :
      (arriving : List ExecEvent) (rounds : List (List ExecEvent)) (d d₁ d₂ : D)
      → loop_impl d ≡ (ok tt, d₁)
      → handle_all handlers arriving d₁ ≡ (ok tt, [], d₂)
      → all_rounds (arriving ∷ rounds) d ≡ all_rounds rounds d₂
  unfolding all_rounds
  all_rounds-cons arriving rounds d d₁ d₂ loops handles =
      ap
        (λ (r : Result (Unit {0}) × D). elim r.0 as (λ _. Result (Unit {0}) × List ExecEvent × D) [
          | stop x ↦ (stop x, arriving, r.1)
          | ok _ ↦
              elim (handle_all handlers arriving r.1).0
                as (λ _. Result (Unit {0}) × List ExecEvent × D) [
                  | stop x ↦ handle_all handlers arriving r.1
                  | ok _ ↦ all_rounds rounds (handle_all handlers arriving r.1).2
                ]
        ])
        loops
      ∙ ap
          (λ (r : Result (Unit {0}) × List ExecEvent × D).
            elim r.0 as (λ _. Result (Unit {0}) × List ExecEvent × D) [
              | stop x ↦ r
              | ok _ ↦ all_rounds rounds r.2
            ])
          handles

  pub all_rounds-stops :
      (arriving : List ExecEvent) (rounds : List (List ExecEvent)) (d d₁ : D) (x : Stop)
      → loop_impl d ≡ (ok tt, d₁)
      → (handle_all handlers arriving d₁).0 ≡ stop x
      → (all_rounds (arriving ∷ rounds) d).0 ≡ stop x
  unfolding all_rounds
  all_rounds-stops arriving rounds d d₁ x loops stops =
      let returns : (loop_impl d).0 ≡ ok tt = ap (λ r. r.0) loops in
      let there : (handle_all handlers arriving (loop_impl d).1).0 ≡ stop x =
        ap (λ r. (handle_all handlers arriving r.1).0) loops ∙ stops in
      rw (returns, there, all_rounds) there

  -- If all the events were handled, none is left.
  handle_all-left :
      (events : List ExecEvent) (d : D)
      → (handle_all handlers events d).0 ≡ ok tt
      → (handle_all handlers events d).1 ≡ []
  unfolding handle_all
  handle_all-left [] d h = refl
  handle_all-left (event ∷ events) d h = elim (Result-cases (dispatch handlers event d).0) [
    | inl (u, e) ↦
        rw (e, handle_all)
          (handle_all-left events (dispatch handlers event d).1 (rw (e, handle_all) at h))
    | inr (x, e) ↦ absurd (ground arith)
  ]

abbrev pub Fits : ℕ → List (List ExecEvent) → Type 0
Fits fuel [] = Unit
Fits fuel (arriving ∷ rounds) = (length arriving < fuel) × Fits fuel rounds

module _ {D : Type 0} (virtual : Virtual D) where
  -- With more fuel than events arrive in a round, and no event in the queue at first, the thread
  -- ends; each round has run the loop body and handled the events that had arrived, in their order,
  -- up to the first call that does not return.
  pub run_thread-all_rounds :
      (fuel : ℕ) (rounds : List (List ExecEvent)) (d : D) (s : ExecMonitor D)
      → Fits fuel rounds
      → run_thread virtual fuel rounds (with [] d s)
        ≡ some (outcome s (all_rounds virtual.loop_impl s.event_handlers rounds d))
  unfolding run_thread all_rounds
  run_thread-all_rounds fuel [] d s h = refl
  run_thread-all_rounds fuel (arriving ∷ rounds) d s h =
      let enqueued : enqueue_events arriving (with [] d s) ≡ with arriving d s =
        enqueue_events_lem arriving (with [] d s) in
      let d₁ = (virtual.loop_impl d).1 in
      let handled = handle_all s.event_handlers arriving d₁ in
      elim (Result-cases (virtual.loop_impl d).0) [
        | inr (x, e) ↦ rw (enqueued, e, all_rounds)
        | inl (u, e) ↦
            rw (enqueued, e, all_rounds, process_events-handle_all (with arriving d₁ s) fuel h.0)
              (elim (Result-cases handled.0) [
                | inr (x, f) ↦ rw (f, all_rounds) (rw f)
                | inl (v, f) ↦
                    rw
                      (
                        f,
                        all_rounds,
                        handle_all-left virtual.loop_impl s.event_handlers arriving d₁ f,
                      )
                      (run_thread-all_rounds fuel rounds handled.2 s h.1)
              ])
      ]
