-- ===== src/Process/Sync/Keeping.antt =====
-- The class `sync_process` keeps the contract that a manager relies on.
use aser.Prelude.{
  if◌then◌else◌, ℕ, ℤ, pos, minus_one, ◌≡◌, ◌≢◌, ◌⊎◌, refl, ap, ◌∙◌, inl, inr, true, false, ◌||◌,
  List, [], ◌∷◌, eqb_ℤ, ne→eqb_ℤ, Bool-cases,
}
use aser.Outcome.{Result, ok, stop, thrown, system_error}
use aser.Libc.{Posix}
use aser.Process.Pipe
use aser.Process.Pipe.{Pipe, is_open, write_end, descriptor, forget}
use aser.Process.Kill.{kill}
use aser.Process.{Process, started}
use aser.Process
use aser.Process.Sync.{lift, start, wait, on_go}
use aser.Process.Sync.Object.{SyncObject, sync_class, if_started, on_object}
use aser.ProcessClass.{ProcessClass}
use aser.ProcessClass.Contract.{Contract, Drops}

-- The calls of the system that a process makes after its fork succeed, and what `waitpid` reports
-- is that the process has ended.
pub record Willing {W : Type 0} (posix : Posix W) : Type 0 where
  pub writes : (fd : ℤ) (bytes : List ℕ) (w : W) → (posix.write fd bytes w).0 ≢ minus_one
  pub closes : (fd : ℤ) (w : W) → (posix.close fd w).0 ≡ pos 0
  pub waits :
      (pid st : ℤ) (w : W) → eqb_ℤ pid minus_one ≡ false → (posix.waitpid pid st w).0 ≢ minus_one
  pub reports :
      (pid st : ℤ) (w : W)
      → (posix.wifexited (posix.waitpid pid st w).1 || posix.wifsignaled (posix.waitpid pid st w).1)
        ≡ true

module _ {W : Type 0} where
  -- The process has been forked and has that pid.
  abbrev WithPid : ℤ → SyncObject W → Type 0
  WithPid pid o = (o.process.pid ≡ pid) × (eqb_ℤ o.process.pid minus_one ≡ false)

  abbrev pub SyncPrepared : ℤ → SyncObject W → Type 0
  SyncPrepared pid o =
      WithPid pid o × (o.process.terminated ≡ false) × (eqb_ℤ o.go_pipe.write_fd minus_one ≡ false)

  abbrev pub SyncStarted : ℤ → SyncObject W → Type 0
  SyncStarted pid o = WithPid pid o × (o.process.terminated ≡ false)

  abbrev pub SyncEnded : ℤ → SyncObject W → Type 0
  SyncEnded pid o = WithPid pid o × (o.process.terminated ≡ true)

  started_lem : (pid : ℤ) (o : SyncObject W) → WithPid pid o → started o.process ≡ true
  unfolding started
  started_lem pid o h = rw h.1

  -- The system after a process is killed, which is not signalled if it counts as terminated.
  abbrev pub signalled : Posix W → SyncObject W → W → W
  signalled posix o w =
      if o.process.terminated then w else (posix.kill o.process.pid posix.sigkill w).1

  -- Whether the signal can be sent or not.
  pub kill_process_lem :
      (posix : Posix W) (cloexec status : ℤ) (garbage : ℕ) (o : SyncObject W) (w : W)
      → eqb_ℤ o.process.pid minus_one ≡ false
      → (r : Result (Unit {0})) × ((sync_class posix cloexec status garbage).kill_process o w
          ≡ (r, o, signalled posix o w))
        × Drops r
  unfolding sync_class on_object Process.kill_process kill lift started
  kill_process_lem posix cloexec status garbage o w h =
      let (r, v) = posix.kill o.process.pid posix.sigkill w in
      elim (Bool-cases o.process.terminated) [
        | inl over ↦ (ok tt, rw (h, over), inl refl)
        | inr live ↦ elim (Bool-cases (eqb_ℤ r minus_one)) [
          | inl fails ↦ (
            stop (thrown (system_error (posix.errno v) "Error killing a process")),
            rw (h, live, fails),
            inr (_, refl),
          )
          | inr works ↦ (ok tt, rw (h, live, works), inl refl)
        ]
      ]

  module _ (posix : Posix W) (willing : Willing posix) (cloexec status : ℤ) (garbage : ℕ) where
    abbrev class : ProcessClass (SyncObject W) W
    class = sync_class posix cloexec status garbage

    pub pid_of : (pid : ℤ) (o : SyncObject W) → WithPid pid o → class.pid o ≡ ok pid
    unfolding sync_class
    pid_of pid o h =
        ap (λ b. if_started b o.process.pid) (started_lem pid o h)
        ∙ (unfold if_started in ap ok h.0)

    -- The calls that a prepared process makes to start: it writes a byte to the go pipe and closes it.
    pub sync_start_lem :
        (pid : ℤ) (o : SyncObject W) (w : W)
        → SyncPrepared pid o
        → class.start o w ≡ (
          ok tt,
          record o { go_pipe = forget write_end o.go_pipe },
          (posix.close o.go_pipe.write_fd (posix.write o.go_pipe.write_fd (0 ∷ []) w).1).1,
        )
    unfolding sync_class on_object start on_go Pipe.write Pipe.close is_open descriptor forget
    sync_start_lem pid o w (has, live, open_end) =
        let (n, v) = posix.write o.go_pipe.write_fd (0 ∷ []) w in
        let wrote = ne→eqb_ℤ _ _ (willing.writes o.go_pipe.write_fd (0 ∷ []) w) in
        let shut = willing.closes o.go_pipe.write_fd v in
        rw (started_lem pid o has, open_end, wrote, open_end, shut)

    pub sync_start :
        (pid : ℤ) (o : SyncObject W) (w : W)
        → SyncPrepared pid o
        → (o' : SyncObject W) × (w' : W) × (class.start o w ≡ (ok tt, o', w')) × SyncStarted pid o'
    unfolding forget
    sync_start pid o w a = (_, _, sync_start_lem pid o w a, (a.0, a.1))

    -- A started process is waited for by one call of `waitpid`.
    abbrev pub waited : SyncObject W → W → SyncObject W
    waited o w = record o {
      process = record (o.process) {
        termination_status = (posix.waitpid o.process.pid o.process.termination_status w).1;
        terminated = true;
      };
    }

    pub sync_wait_lem :
        (pid : ℤ) (o : SyncObject W) (w : W)
        → SyncStarted pid o
        → class.wait o w
          ≡ (ok tt, waited o w, (posix.waitpid o.process.pid o.process.termination_status w).2)
    unfolding sync_class on_object wait Process.wait lift
    sync_wait_lem pid o w (has, live) =
        let there =
          ne→eqb_ℤ _ _ (willing.waits o.process.pid o.process.termination_status w has.1) in
        let over = willing.reports o.process.pid o.process.termination_status w in
        rw (started_lem pid o has, live, there, over)

    pub sync_wait :
        (pid : ℤ) (o : SyncObject W) (w : W)
        → SyncStarted pid o
        → (o' : SyncObject W) × (w' : W) × (st : ℤ) × (class.wait o w ≡ (ok tt, o', w'))
          × SyncEnded pid o'
          × (class.pid o' ≡ ok pid)
          × (class.termination_status o' ≡ ok st)
    unfolding sync_class
    sync_wait pid o w (has, live) =
        let running = started_lem pid (waited o w) has in
        (
          waited o w,
          (posix.waitpid o.process.pid o.process.termination_status w).2,
          (posix.waitpid o.process.pid o.process.termination_status w).1,
          sync_wait_lem pid o w (has, live),
          (has, refl),
          pid_of pid (waited o w) has,
          rw (running, if_started),
        )

    pub sync_kill :
        (pid : ℤ) (o : SyncObject W) (w : W)
        → SyncStarted pid o ⊎ SyncEnded pid o
        → (r : Result (Unit {0})) × (w' : W) × (class.kill_process o w ≡ (r, o, w')) × Drops r
    sync_kill pid o w phase =
        let (has, _) = elim phase as (λ _. WithPid pid o × Unit {0}) [
          | inl (has, _) ↦ (has, tt)
          | inr (has, _) ↦ (has, tt)
        ] in
        let (r, kills, drops) = kill_process_lem posix cloexec status garbage o w has.1 in
        (r, signalled posix o w, kills, drops)

    -- The class keeps the contract on any system that lets it.
    unfoldable pub sync_contract : Contract class
    sync_contract = record {
      Prepared = SyncPrepared;
      Started = SyncStarted;
      Ended = SyncEnded;
      pid_lem = λ pid o prepared. pid_of pid o prepared.0;
      start_lem = sync_start;
      wait_lem = sync_wait;
      kill_lem = sync_kill;
    }

    pub SyncPrepared-Prepared :
        (pid : ℤ) (o : SyncObject W) → SyncPrepared pid o → sync_contract.Prepared pid o
    unfolding sync_contract
    SyncPrepared-Prepared pid o prepared = prepared

    pub Ended-SyncEnded : (pid : ℤ) (o : SyncObject W) → sync_contract.Ended pid o → SyncEnded pid o
    unfolding sync_contract
    Ended-SyncEnded pid o ended = ended

    pub Started-SyncStarted :
        (pid : ℤ) (o : SyncObject W) → sync_contract.Started pid o → SyncStarted pid o
    unfolding sync_contract
    Started-SyncStarted pid o started_now = started_now
