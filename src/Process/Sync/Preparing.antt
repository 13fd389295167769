-- ===== src/Process/Sync/Preparing.antt =====
-- What a call of `prepare` that returns has made of a new `sync_process`.
use mathlib.Core.Path.{subst}
use aser.Prelude.{
  ℕ, ℤ, pos, minus_one, ◌≡◌, refl, sym, ap, ◌∙◌, inl, inr, true, false, List, [], ◌∷◌, String,
  Bool-cases, eqb_ℤ, eqb_ℤ_iff,
}
use aser.Outcome.{Exec, pure, Result, Result-cases, ok, stop, continue, ◌>>=◌}
use aser.Libc.{Posix}
use aser.Process.Pipe
use aser.Process.Pipe.{read_end, write_end}
use aser.Process.Config.{
  default_config, set_fork_error, set_fork_success, set_exec_setup, set_exec_error, on_fork_error,
  on_fork_success, on_fork_setup,
}
use aser.Process.{Process, started}
use aser.Process
use aser.Process.Child.{child_never_returns}
use aser.Process.Sync.{
  Channels, lift, on_go, on_ready, wait_for_child, sync_config, prepare, construct, ready_made,
  go_made, process_made,
}
use aser.Process.Sync.Object.{
  SyncObject, sync_class, attach, detach, constructed, on_object, if_started,
}
use aser.Process.Sync.Keeping.{SyncPrepared}
use aser.SimpleManager.Bench.{Prepared}
use aser.Os

module _ {W : Type 0} where
  -- The call leaves the end to write of the go pipe as it is.
  abbrev KeepsGo : {A : Type 0} → Exec (Channels W) A → Type 0
  KeepsGo m = (c : Channels W) → (m c).1.go_pipe.write_fd ≡ c.go_pipe.write_fd

  bind-KeepsGo :
      {A B : Type 0} (m : Exec (Channels W) A) (f : A → Exec (Channels W) B)
      → KeepsGo m
      → ((a : A) → KeepsGo (f a))
      → KeepsGo (m >>= f)
  bind-KeepsGo {A} {B} m f first rest c = go (m c).0 (m c).1 (first c)
    where
      go :
          (r : Result A) (d : Channels W)
          → d.go_pipe.write_fd ≡ c.go_pipe.write_fd
          → (continue r f d).1.go_pipe.write_fd ≡ c.go_pipe.write_fd
      go (ok a) d e = rest a d ∙ e
      go (stop x) d e = e

  on_ready-KeepsGo : {A : Type 0} (m : Exec (Pipe.Running W) A) → KeepsGo (on_ready m)
  unfolding on_ready
  on_ready-KeepsGo m c = refl

  module _ (posix : Posix W) where
    close_read-KeepsGo : KeepsGo (on_go (Pipe.close posix read_end))
    unfolding on_go Pipe.close Pipe.is_open Pipe.descriptor
    close_read-KeepsGo c = elim (Bool-cases (eqb_ℤ c.go_pipe.read_fd minus_one)) [
      | inl shut ↦ rw shut refl
      | inr still_open ↦
          elim (Bool-cases (eqb_ℤ (posix.close c.go_pipe.read_fd c.system).0 (pos 0))) [
            | inl closes ↦ rw (still_open, closes) refl
            | inr fails ↦ rw (still_open, fails) refl
          ]
    ]

    wait_for_child-KeepsGo : KeepsGo (wait_for_child posix)
    unfolding wait_for_child
    wait_for_child-KeepsGo =
        bind-KeepsGo (on_ready (Pipe.close posix write_end)) _ (on_ready-KeepsGo _) (λ _.
          bind-KeepsGo (on_go (Pipe.close posix read_end)) _ close_read-KeepsGo (λ _.
            bind-KeepsGo (on_ready (Pipe.read posix 1)) _ (on_ready-KeepsGo _)
              (λ _. on_ready-KeepsGo _)))

    -- A new object, as the constructor makes it.
    pub record IsNew (garbage : ℕ) (o : SyncObject W) : Type 0 where
      pub config : o.process.config ≡ sync_config posix garbage default_config
      pub not_started : eqb_ℤ o.process.pid minus_one ≡ true
      pub live : o.process.terminated ≡ false
      pub can_write : eqb_ℤ o.go_pipe.write_fd minus_one ≡ false

    -- In the parent, after the call.
    abbrev pub IsPrepared : Process.Running (Channels W) → Type 0
    IsPrepared s =
        (eqb_ℤ s.process.pid minus_one ≡ false)
        × (s.process.terminated ≡ false)
        × (eqb_ℤ s.world.go_pipe.write_fd minus_one ≡ false)

    forked_lem :
        (garbage : ℕ) (o : SyncObject W) (pid : ℤ) (c : Channels W)
        → IsNew garbage o
        → c.go_pipe.write_fd ≡ o.go_pipe.write_fd
        → let (r, s) =
            Process.forked (lift posix) pid (record { process = o.process; world = c }) in
          r ≡ ok tt → IsPrepared s
    unfolding Process.forked sync_config set_fork_error set_fork_success set_exec_setup
        set_exec_error on_fork_error on_fork_success
    forked_lem garbage o pid c new same returns = elim (Bool-cases (eqb_ℤ pid minus_one)) [
      | inl fails ↦ absurd (let thrown = rw (fails, new.config) at returns in cc)
      | inr forks ↦ elim (Bool-cases (eqb_ℤ pid (pos 0))) [
        | inl in_child ↦
            let zero : pid ≡ pos 0 = (eqb_ℤ_iff pid (pos 0)).0 in_child in
            absurd (
              child_never_returns (lift posix) (record { process = o.process; world = c })
                (rw zero at returns))
        | inr in_parent ↦
            rw (forks, in_parent, new.config)
              (forks, new.live, rw (wait_for_child-KeepsGo c, same) new.can_write)
      ]
    ]

    no_setup :
        (garbage : ℕ) (o : SyncObject W)
        → IsNew garbage o
        → on_fork_setup o.process.config ≡ pure tt
    unfolding on_fork_setup sync_config set_fork_error set_fork_success set_exec_setup
        set_exec_error
    no_setup garbage o new = rw new.config refl

    pub prepare_lem :
        (garbage : ℕ) (o : SyncObject W) (w : W)
        → IsNew garbage o
        → let (r, s) = prepare posix (attach o w) in r ≡ ok tt → IsPrepared s
    unfolding prepare Process.start Process.started attach lift Process.fork_now
    prepare_lem garbage o w new returns =
        let c : Channels W = record {
          go_pipe = o.go_pipe;
          child_ready_pipe = o.child_ready_pipe;
          system = w;
        } in
        let (pid, v) = posix.fork w in
        elim (Bool-cases (Process.path_exists (lift posix) o.process.args c)) [
          | inr missing ↦ absurd (let thrown = rw (new.not_started, missing) at returns in cc)
          | inl there ↦
              rw (new.not_started, there, no_setup garbage o new)
                (forked_lem garbage o pid (record c { system = v }) new refl
                  (rw (new.not_started, there, no_setup garbage o new) at returns))
        ]

    -- A pipe that `pipe2` makes has an end to write.
    pub record Opens : Type 0 where
      pub opens :
          (flags : ℤ) (fd : ℤ × ℤ) (w : W)
          → let (r, fd', w') = posix.pipe2 flags fd w in r ≡ pos 0 → eqb_ℤ fd'.1 minus_one ≡ false

    pipe2_lem :
        (opens : Opens) (flags : ℤ) (w w' : W) (p : Pipe.Pipe)
        → Pipe.make_with posix flags w ≡ (ok p, w')
        → eqb_ℤ p.write_fd minus_one ≡ false
    unfolding Pipe.make_with Os.pipe2
    pipe2_lem opens flags w w' p makes =
        let (r, fd, v) = posix.pipe2 flags (minus_one, minus_one) w in
        elim (Bool-cases (eqb_ℤ r (pos 0))) [
          | inr fails ↦ absurd (let thrown = rw fails at makes in cc)
          | inl succeeds ↦
              let same : fd ≡ (p.read_fd, p.write_fd) = let made = rw succeeds at makes in cc in
              ap (λ z. eqb_ℤ z.1 minus_one) (sym same)
              ∙ opens.opens flags (minus_one, minus_one) w ((eqb_ℤ_iff r (pos 0)).0 succeeds)
        ]

    module _ (cloexec status : ℤ) (garbage : ℕ) where
      module _ (path : String) (rest : List String) where
        abbrev new_process : Process (Channels W)
        new_process = record {
          config = default_config;
          args = path ∷ rest;
          pid = minus_one;
          termination_status = status;
          terminated = false;
        }

        ready_lem :
            (go : Pipe.Pipe) (r : Result Pipe.Pipe × W) (o : SyncObject W) (w' : W)
            → constructed (ready_made posix garbage new_process go r) ≡ (ok o, w')
            → eqb_ℤ go.write_fd minus_one ≡ false
            → IsNew garbage o
        unfolding constructed ready_made detach
        ready_lem go (ok ready, v) o w' makes can_write =
            let same : record {
              process = record new_process { config = sync_config posix garbage default_config };
              go_pipe = go;
              child_ready_pipe = ready;
            }
                ≡ o =
              cc in
            subst (IsNew garbage) same
              (record { config = refl; not_started = refl; live = refl; can_write = can_write })
        ready_lem go (stop x, v) o w' makes can_write = absurd cc

        go_lem :
            (opens : Opens) (w : W) (o : SyncObject W) (w' : W)
            → constructed (go_made posix garbage new_process (Pipe.make_with posix cloexec w))
              ≡ (ok o, w')
            → IsNew garbage o
        unfolding constructed go_made
        go_lem opens w o w' makes = elim (Result-cases (Pipe.make_with posix cloexec w).0) [
          | inl (go, returns) ↦
              let v = (Pipe.make_with posix cloexec w).1 in
              let made : Pipe.make_with posix cloexec w ≡ (ok go, v) = cc in
              ready_lem go (Pipe.make posix v) o w' (rw made at makes)
                (pipe2_lem opens cloexec w v go made)
          | inr (x, stops) ↦ absurd (let thrown = rw stops at makes in cc)
        ]

      pub make_lem :
          (opens : Opens) (args : List String) (w w' : W) (o : SyncObject W)
          → (sync_class posix cloexec status garbage).make args w ≡ (ok o, w')
          → IsNew garbage o
      unfolding sync_class construct constructed process_made Process.make
      make_lem opens [] w w' o makes = absurd cc
      make_lem opens (path ∷ rest) w w' o makes = go_lem path rest opens w o w' makes

      -- A process that was made and prepared has its pid, its end, and the end to write of its pipe.
      pub Prepared-SyncPrepared :
          (opens : Opens) (args : List String) (o : SyncObject W)
          → (q : Prepared (sync_class posix cloexec status garbage) args o) → SyncPrepared q.pid o
      unfolding sync_class on_object attach detach if_started started
      Prepared-SyncPrepared opens args o q =
          let new = make_lem opens args q.before q.between q.new q.makes in
          let run = prepare posix (attach q.new q.between) in
          let same : (detach run.1).0 ≡ o = let prepared = q.prepares in cc in
          let (forked, live, can_write) =
            prepare_lem garbage q.new q.between new (let prepared = q.prepares in cc) in
          let asked : if_started (started (detach run.1).0.process) (detach run.1).0.process.pid
              ≡ ok q.pid =
            ap (λ x. if_started (started x.process) x.process.pid) same ∙ q.has_pid in
          let has : run.1.process.pid ≡ q.pid = let found = rw forked at asked in cc in
          subst (SyncPrepared q.pid) same ((has, forked), live, can_write)
