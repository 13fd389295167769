-- ===== src/Tests/UtilTests.antt =====
-- Pipes, the factory and the timer.
use aser.Prelude.{ℕ, String, pos, ◌≡◌, ◌≤◌, refl, true, List, [], ◌∷◌, lookup, Distinct}
use aser.Outcome.{ok, stop, aborted}
use aser.Tests.Machine.{machine}
use aser.Process.Pipe.{Pipe, Running, closed, is_open, descriptor, destroy, move}
use aser.Process.Pipe.Ends.{pipe_destroy-move}
use aser.Factory.{string_key, register_creator, create}
use aser.Factory.Registrars.{
  cpu_hopper_registar, pmc_sampler_linux_registar, pmc_sampler_dummy_registar,
  simple_monitor_registar, run_registrars, create-run_registrars,
}
use aser.Factory.Registry.{create-register_creator}
use aser.Condition
use aser.Condition.{
  Threads, Reach, idle, notify_all, mark_ready, sleeps, marks, signals, leaves, later,
}
use aser.Condition.Waiters.{no_one_left_asleep}
use aser.Timer.{
  Timer, Steps, construct, cancel, cancels, notices, none as no_step, more, wait_returns, joined,
  returned,
}
use aser.Timer.Cancelling.{callback_calls, destruction_ends}

abbrev pipe : Pipe
pipe = record { read_fd = pos 3; write_fd = pos 4 }

abbrev pipe_five : Running ℕ
pipe_five = record { pipe = pipe; world = 5 }

pipe_destroy-move_example :
    let (new, old) = move pipe in
    (destroy machine (record { pipe = new; world = 5 })
      ≡ (ok tt, record { pipe = closed; world = 5 }))
    × (destroy machine (record { pipe = old; world = 5 })
        ≡ (ok tt, record { pipe = closed; world = 5 }))
unfolding is_open descriptor
pipe_destroy-move_example = pipe_destroy-move machine (λ fd w. refl) pipe 5 refl refl

create-register_creator_example :
    (creators' : List (String × ℕ)) × (register_creator "simple" 7 [] ≡ (ok tt, creators'))
    × (create "simple" creators' ≡ ok 7)
    × (create "cpu-hopper" creators' ≡ create "cpu-hopper" [])
    × (register_creator "simple" 8 creators' ≡ (stop aborted, creators'))
unfolding lookup
create-register_creator_example =
    create-register_creator "simple" "cpu-hopper" 7 8 [] refl (λ e. cc)

-- A timer whose destructor runs before the time.
abbrev canceled_timer : Timer
canceled_timer = cancel construct

canceled_timer-Steps : Steps construct canceled_timer
unfolding construct
canceled_timer-Steps = more no_step (cancels refl)

callback_calls_example :
    (canceled_timer.calls ≤ 1) × ((wait_returns true canceled_timer).calls ≡ canceled_timer.calls)
unfolding construct cancel
callback_calls_example = callback_calls canceled_timer-Steps (more no_step (notices refl refl)) refl

destruction_ends_example :
    (u : Timer) × Steps canceled_timer u
    × (u.destruction ≡ joined)
    × (u.run_state ≡ returned)
    × (u.calls ≡ canceled_timer.calls)
unfolding construct cancel
destruction_ends_example = destruction_ends canceled_timer-Steps refl (λ e. cc)

-- One thread sleeps, another sets the flag and has notified.
abbrev notified : Threads
notified = record {
  shared = record { ready = true };
  notifying = 0;
  sleeping = 0;
  woken = 1;
  passed = 0;
}

notified-Reach : Reach notified
unfolding idle Condition.construct notify_all mark_ready
notified-Reach = later (later (later Condition.start (sleeps refl)) marks) (signals 0 refl)

no_one_left_asleep_example : notified.sleeping ≡ 0
no_one_left_asleep_example = no_one_left_asleep notified-Reach refl refl

-- The registrars of the monitors.
abbrev registrars : List (String × ℕ)
registrars =
    simple_monitor_registar 4
    ∷ pmc_sampler_linux_registar 2
    ∷ pmc_sampler_dummy_registar 3
    ∷ cpu_hopper_registar 1
    ∷ []

different_names : Distinct registrars
unfolding lookup
different_names = (refl, (refl, (refl, (refl, tt))))

create-run_registrars_example :
    let (result, creators') = run_registrars registrars [] in
    (result ≡ ok tt)
    × (create "pmc-sampler[dummy]" creators' ≡ create "pmc-sampler[dummy]" registrars)
create-run_registrars_example =
    create-run_registrars registrars "pmc-sampler[dummy]" different_names
