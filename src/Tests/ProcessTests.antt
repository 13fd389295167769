-- ===== src/Tests/ProcessTests.antt =====
-- Runs of processes.
use aser.Prelude.{ℕ, pos, minus_one, ◌≡◌, ◌≢◌, ◌⊎◌, refl, true, false, [], ◌∷◌, some}
use aser.Outcome.{ok, stop, thrown, aborted, system_error}
use aser.Libc.{Posix}
use aser.Tests.Machine.{machine}
use aser.Process.Config.{default_config, on_fork_setup}
use aser.Process.Pipe.{closed}
use aser.Process.Pipe
use aser.Process.Sync.{Channels, lift, sync_config, wait_for_parent, on_go, on_ready}
use aser.Process.Child.{sync_exec_error_throws}
use aser.Process.Starting.{ForkFailed, Forked, start-parent}
use aser.Process.Lifecycle.{wait_lem, terminated_is_final, destroy-moved}
use aser.Process.{Process, Running, tree, forked, started, wait, kill_process, destroy, move}

-- A process with identifier 100 that runs.
abbrev running : Process ℕ
running = record {
  config = default_config;
  args = "/bin/true" ∷ [];
  pid = pos 100;
  termination_status = pos 0;
  terminated = false;
}

abbrev ended : Running ℕ
ended = record { process = record running { terminated = true }; world = 5 }

-- No program can be executed.
abbrev no_program : Posix ℕ
no_program = record machine { execvp = λ args w. some w; errno = λ w. pos 2 }

abbrev channels : Channels ℕ
channels = record {
  go_pipe = record { read_fd = pos 3; write_fd = pos 4 };
  child_ready_pipe = record { read_fd = pos 5; write_fd = pos 6 };
  system = 7;
}

-- What the child has when the parent has told it to go on.
abbrev channels_ready : Channels ℕ
channels_ready = record {
  go_pipe = record { read_fd = pos 3; write_fd = minus_one };
  child_ready_pipe = closed;
  system = 7;
}

abbrev child_of_sync : Running (Channels ℕ)
child_of_sync = record {
  process = record {
    config = sync_config no_program 0 default_config;
    args = "/bin/none" ∷ [];
    pid = minus_one;
    termination_status = pos 0;
    terminated = false;
  };
  world = channels;
}

sync_exec_error_throws_example : forked (lift no_program) (pos 0) child_of_sync ≡ (
  stop (thrown (system_error (pos 2) "Exec failed")),
  record child_of_sync { world = channels_ready },
)
unfolding wait_for_parent lift on_go on_ready Pipe.close Pipe.write Pipe.read Pipe.is_open
    Pipe.descriptor Pipe.forget
sync_exec_error_throws_example =
    sync_exec_error_throws no_program 0 child_of_sync default_config channels_ready channels_ready
      refl refl refl

wait_lem_example :
    let s : Running ℕ = record { process = running; world = 5 } in
    let (result, s') = wait machine s in
    (s'.process.termination_status ≡ pos 0)
    × (((pos 100 ≡ minus_one)
          × (result ≡ stop (thrown (system_error (pos 0) "Error waiting for process")))
          × (s'.process.terminated ≡ false))
        ⊎ ((pos 100 ≢ minus_one) × (result ≡ ok tt) × (s'.process.terminated ≡ true)))
unfolding started
wait_lem_example = wait_lem machine (record { process = running; world = 5 }) refl refl

terminated_is_final_example :
    (kill_process machine tree ended ≡ (ok tt, ended))
    × (destroy machine ended ≡ (ok tt, ended))
    × (wait machine ended ≡ (stop aborted, ended))
unfolding started
terminated_is_final_example = terminated_is_final machine ended tree refl refl

destroy-moved_example :
    let (new, old) = move running default_config [] in
    ((destroy machine (record { process = old; world = 5 })).1.world ≡ 5)
    × (new.pid ≡ pos 100)
    × (new.terminated ≡ false)
unfolding started
destroy-moved_example = destroy-moved machine running 5 default_config [] refl refl (λ e. cc)

-- It has not been started.
abbrev ready : Running ℕ
ready = record { process = record running { pid = minus_one }; world = 5 }

start-parent_example :
    ((pos 105 ≡ minus_one) × ForkFailed machine ready 6)
    ⊎ ((pos 105 ≢ minus_one) × Forked machine (pos 105) ready 6)
unfolding started on_fork_setup
start-parent_example =
    start-parent machine ready "/bin/true" [] 5 6 (pos 105) refl refl refl refl refl (λ e. cc)
