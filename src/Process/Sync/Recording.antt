-- ===== src/Process/Sync/Recording.antt =====
-- What a system remembers of the calls that a `sync_process` makes in `start`, `wait` and `kill`.
use aser.Prelude.{ℕ, ℤ, ◌≡◌, ◌⊎◌, sym, ap, ◌∙◌, inl, inr, List, [], ◌∷◌, if◌then◌else◌, Bool-cases}
use mathlib.Core.Path.{subst}
use aser.Outcome.{Result, ok}
use aser.Libc.{Posix}
use aser.ProcessClass.{ProcessClass}
use aser.ProcessClass.Contract.{Contract}
use aser.ProcessClass.Watching.{StartKeeps, WaitKeeps, KillKeeps, Watched, Signalling}
use aser.Process.Sync.Object.{SyncObject, sync_class}
use aser.Process.Sync.Keeping.{
  Willing, signalled, kill_process_lem, sync_contract, sync_start_lem, sync_wait_lem,
}

-- `Wrote fd` says of a system that a byte was written to a descriptor, and `Signalled pid` that SIGKILL
-- was sent to a process: what was done stays done, whatever is called later.
pub record Recorded {W : Type 0} (posix : Posix W) : Type 1 where
  pub Wrote : ℤ → W → Type 0
  pub Signalled : ℤ → W → Type 0
  pub writes : (fd : ℤ) (w : W) → Wrote fd (posix.write fd (0 ∷ []) w).1
  pub kills : (pid : ℤ) (w : W) → Signalled pid (posix.kill pid posix.sigkill w).1
  pub write_wrote :
      (f fd : ℤ) (bytes : List ℕ) (w : W) → Wrote f w → Wrote f (posix.write fd bytes w).1
  pub close_wrote : (f fd : ℤ) (w : W) → Wrote f w → Wrote f (posix.close fd w).1
  pub waitpid_wrote : (f pid st : ℤ) (w : W) → Wrote f w → Wrote f (posix.waitpid pid st w).2
  pub kill_wrote : (f pid sig : ℤ) (w : W) → Wrote f w → Wrote f (posix.kill pid sig w).1
  pub setaffinity_wrote :
      (f pid : ℤ) (cpus : List ℕ) (w : W)
      → Wrote f w
      → Wrote f (posix.sched_setaffinity pid cpus w).1
  pub waitpid_signalled :
      (q pid st : ℤ) (w : W) → Signalled q w → Signalled q (posix.waitpid pid st w).2
  pub kill_signalled :
      (q pid sig : ℤ) (w : W) → Signalled q w → Signalled q (posix.kill pid sig w).1

-- Something about a system that the calls `write`, `close` and `waitpid` keep.
pub record Quiet {W : Type 0} (posix : Posix W) (Q : W → Type 0) : Type 0 where
  pub write : (fd : ℤ) (bytes : List ℕ) (w : W) → Q w → Q (posix.write fd bytes w).1
  pub close : (fd : ℤ) (w : W) → Q w → Q (posix.close fd w).1
  pub waitpid : (pid st : ℤ) (w : W) → Q w → Q (posix.waitpid pid st w).2

-- The object was told to go on: a byte was written to its go pipe.
abbrev pub Went : {W : Type 0} {posix : Posix W} → Recorded posix → SyncObject W → W → Type 0
Went recorded o w = recorded.Wrote o.go_pipe.write_fd w

module _ {W : Type 0} (posix : Posix W) (willing : Willing posix) (cloexec status : ℤ)
    (garbage : ℕ) where
  abbrev class : ProcessClass (SyncObject W) W
  class = sync_class posix cloexec status garbage

  abbrev contract : Contract class
  contract = sync_contract posix willing cloexec status garbage

  start_world :
      (pid : ℤ) (o o' : SyncObject W) (w w' : W)
      → contract.Prepared pid o
      → class.start o w ≡ (ok tt, o', w')
      → (posix.close o.go_pipe.write_fd (posix.write o.go_pipe.write_fd (0 ∷ []) w).1).1 ≡ w'
  unfolding sync_contract
  start_world pid o o' w w' a e =
      ap (λ r. r.2) (sym (sync_start_lem posix willing cloexec status garbage pid o w a) ∙ e)

  wait_world :
      (pid : ℤ) (o o' : SyncObject W) (w w' : W)
      → contract.Started pid o
      → class.wait o w ≡ (ok tt, o', w')
      → (posix.waitpid o.process.pid o.process.termination_status w).2 ≡ w'
  unfolding sync_contract
  wait_world pid o o' w w' a e =
      ap (λ r. r.2) (sym (sync_wait_lem posix willing cloexec status garbage pid o w a) ∙ e)

  kill_world :
      (pid : ℤ) (o : SyncObject W) (w w' : W) (r : Result (Unit {0}))
      → contract.Started pid o ⊎ contract.Ended pid o
      → class.kill_process o w ≡ (r, o, w')
      → signalled posix o w ≡ w'
  unfolding sync_contract
  kill_world pid o w w' r (inl a) e =
      ap (λ x. x.2) (sym (kill_process_lem posix cloexec status garbage o w a.0.1).1 ∙ e)
  kill_world pid o w w' r (inr a) e =
      ap (λ x. x.2) (sym (kill_process_lem posix cloexec status garbage o w a.0.1).1 ∙ e)

  shot_world :
      (pid : ℤ) (o : SyncObject W) (w w' : W) (r : Result (Unit {0}))
      → contract.Started pid o
      → class.kill_process o w ≡ (r, o, w')
      → (posix.kill pid posix.sigkill w).1 ≡ w'
  unfolding sync_contract
  shot_world pid o w w' r a e =
      let world : signalled posix o w ≡ w' = kill_world pid o w w' r (inl a) e in
      ap (λ q. (posix.kill q posix.sigkill w).1) (sym a.0.0)
      ∙ ap (λ b. if b then w else (posix.kill o.process.pid posix.sigkill w).1) (sym a.1)
      ∙ world

  quiet_start : (Q : W → Type 0) → Quiet posix Q → StartKeeps contract Q
  quiet_start Q t pid o w o' w' a e q =
      subst Q (start_world pid o o' w w' a e)
        (t.close o.go_pipe.write_fd _ (t.write o.go_pipe.write_fd (0 ∷ []) w q))

  quiet_wait : (Q : W → Type 0) → Quiet posix Q → WaitKeeps contract Q
  quiet_wait Q t pid o w o' w' a e q =
      subst Q (wait_world pid o o' w w' a e)
        (t.waitpid o.process.pid o.process.termination_status w q)

  killed :
      (Q : W → Type 0)
      → ((pid sig : ℤ) (w : W) → Q w → Q (posix.kill pid sig w).1)
      → KillKeeps contract Q
  killed Q keeps pid o w r w' a e q =
      subst Q (kill_world pid o w w' r a e)
        (elim (Bool-cases o.process.terminated) as (λ _. Q (signalled posix o w)) [
          | inl over ↦ rw over q
          | inr live ↦ rw live (keeps o.process.pid posix.sigkill w q)
        ])

  -- Nothing is said of the objects.
  pub sync-quiet : (Q : W → Type 0) → Quiet posix Q → Watched contract (λ o w. Unit {0}) Q
  sync-quiet Q t = record {
    went = λ pid o w o' w' a e. tt;
    start_went = λ p pid o w o' w' a e u. tt;
    wait_went = λ p pid o w o' w' a e u. tt;
    start_keeps = quiet_start Q t;
    wait_keeps = quiet_wait Q t;
  }

  module _ (recorded : Recorded posix) where
    wrote-Quiet : (o : SyncObject W) → Quiet posix (Went recorded o)
    wrote-Quiet o = record {
      write = recorded.write_wrote o.go_pipe.write_fd;
      close = recorded.close_wrote o.go_pipe.write_fd;
      waitpid = recorded.waitpid_wrote o.go_pipe.write_fd;
    }

    pub sync-Watched : Watched contract (Went recorded) (λ w. Unit {0})
    sync-Watched = record {
      went = λ pid o w o' w' a e. subst (Went recorded o) (start_world pid o o' w w' a e) (
          recorded.close_wrote o.go_pipe.write_fd o.go_pipe.write_fd _
            (recorded.writes o.go_pipe.write_fd w));
      start_went = λ p. quiet_start (Went recorded p) (wrote-Quiet p);
      wait_went = λ p. quiet_wait (Went recorded p) (wrote-Quiet p);
      start_keeps = λ pid o w o' w' a e u. tt;
      wait_keeps = λ pid o w o' w' a e u. tt;
    }

    pub sync-Signalling : Signalling contract (Went recorded) recorded.Signalled
    sync-Signalling = record {
      shot = λ pid o w r w' a e.
          subst (recorded.Signalled pid) (shot_world pid o w w' r a e) (recorded.kills pid w);
      wait_shot = λ q pid o w o' w' a e h.
          subst (recorded.Signalled q) (wait_world pid o o' w w' a e)
            (recorded.waitpid_signalled q o.process.pid o.process.termination_status w h);
      kill_shot = λ q. killed (recorded.Signalled q) (recorded.kill_signalled q);
      kill_went = λ p. killed (Went recorded p) (recorded.kill_wrote p.go_pipe.write_fd);
    }
