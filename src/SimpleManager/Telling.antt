-- ===== src/SimpleManager/Telling.antt =====
-- What the simple manager has asked of the system for its processes when it returns.
use aser.Prelude.{ℕ, ℤ, ◌≡◌, true, List, Option, some, get_elem?}
use aser.Libc.{Posix}
use aser.ProcessClass.Watching.{AllWent}
use aser.Process.Sync.Object.{SyncObject}
use aser.Process.Sync.Recording.{Recorded, Went}
use aser.SimpleManager.Execution.{Schedule}
use aser.SimpleManager.Indices.{contains}

-- For each object a byte was written to its go pipe, and SIGKILL was sent to each process that the
-- schedule lets end after the loop that kills the processes.
pub record Told {W : Type 0} {posix : Posix W} (recorded : Recorded posix) (schedule : Schedule)
    (pids : List ℤ) (ps : List (Option (SyncObject W))) (w : W) : Type 0 where
  pub went : AllWent (Went recorded) ps w
  pub shot :
      (i : ℕ) (pid : ℤ)
      → get_elem? pids i ≡ some pid
      → contains i schedule.third ≡ true
      → recorded.Signalled pid w
