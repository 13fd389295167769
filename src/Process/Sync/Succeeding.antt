-- ===== src/Process/Sync/Succeeding.antt =====
-- The construction and the preparation of a `sync_process`, on a system that makes their calls.
use aser.Prelude.{
  ℕ, ℤ, pos, minus_one, ◌≡◌, ◌≢◌, refl, ap, ◌∙◌, inl, inr, true, false, List, ◌∷◌, String,
  Bool-cases, eqb_ℤ, ne→eqb_ℤ,
}
use aser.Outcome.{Exec, ok, continue, ◌>>=◌}
use aser.Libc.{Posix}
use aser.Os
use aser.Process.Pipe
use aser.Process.Pipe.{Pipe, EndPoint, read_end, write_end, descriptor, is_open, forget}
use aser.Process.Config.{
  default_config, set_fork_error, set_fork_success, set_exec_setup, set_exec_error, on_fork_success,
  on_fork_setup,
}
use aser.Process.{Process, started}
use aser.Process
use aser.Process.Sync.{
  Channels, lift, on_go, on_ready, wait_for_child, sync_config, prepare, construct, ready_made,
  go_made, process_made,
}
use aser.Process.Sync.Object.{SyncObject, sync_class, attach, detach, constructed}

-- The calls of the system up to the fork succeed: it makes pipes, forks, reads and closes. What `fork`
-- returns is what it returns in the parent.
pub record Obliging {W : Type 0} (posix : Posix W) : Type 0 where
  pub pipes : (fd : ℤ × ℤ) (w : W) → (posix.pipe fd w).0 ≡ pos 0
  pub end_to_read : (fd : ℤ × ℤ) (w : W) → eqb_ℤ (posix.pipe fd w).1.0 minus_one ≡ false
  pub pipes2 : (flags : ℤ) (fd : ℤ × ℤ) (w : W) → (posix.pipe2 flags fd w).0 ≡ pos 0
  pub closes : (fd : ℤ) (w : W) → (posix.close fd w).0 ≡ pos 0
  pub reads : (fd : ℤ) (n : ℕ) (w : W) → (posix.read fd n w).0 ≢ minus_one
  pub forks : (w : W) → eqb_ℤ (posix.fork w).0 minus_one ≡ false
  pub in_parent : (w : W) → eqb_ℤ (posix.fork w).0 (pos 0) ≡ false

module _ {W : Type 0} (posix : Posix W) (obliging : Obliging posix) where
  close_returns : (ep : EndPoint) (s : Pipe.Running W) → (Pipe.close posix ep s).0 ≡ ok tt
  unfolding Pipe.close is_open
  close_returns ep s = elim (Bool-cases (eqb_ℤ (descriptor ep s.pipe) minus_one)) [
    | inl shut ↦ rw shut refl
    | inr still_open ↦ rw (still_open, obliging.closes (descriptor ep s.pipe) s.world) refl
  ]

  close_write-read_fd :
      (s : Pipe.Running W) → (Pipe.close posix write_end s).1.pipe.read_fd ≡ s.pipe.read_fd
  unfolding Pipe.close is_open descriptor forget
  close_write-read_fd s = elim (Bool-cases (eqb_ℤ s.pipe.write_fd minus_one)) [
    | inl shut ↦ rw shut refl
    | inr still_open ↦ rw (still_open, obliging.closes s.pipe.write_fd s.world) refl
  ]

  read_returns :
      (s : Pipe.Running W)
      → eqb_ℤ s.pipe.read_fd minus_one ≡ false
      → (a : ℕ × List ℕ) × ((Pipe.read posix 1 s).0 ≡ ok a)
  unfolding Pipe.read is_open descriptor
  read_returns s can_read =
      let (r, bytes, w) = posix.read s.pipe.read_fd 1 s.world in
      let reads : eqb_ℤ r minus_one ≡ false =
        ne→eqb_ℤ r minus_one (obliging.reads s.pipe.read_fd 1 s.world) in
      ((Pipe.to_size r, bytes), rw (can_read, reads) refl)

  -- A call that returns, followed by another.
  then_returns :
      {S A B : Type 0} (m : Exec S A) (f : A → Exec S B) (s : S) (a : A) (b : B)
      → (m s).0 ≡ ok a
      → (f a (m s).1).0 ≡ ok b
      → ((m >>= f) s).0 ≡ ok b
  then_returns m f s a b first rest = ap (λ r. (continue r f (m s).1).0) first ∙ rest

  wait_for_child_returns :
      (c : Channels W)
      → eqb_ℤ c.child_ready_pipe.read_fd minus_one ≡ false
      → (wait_for_child posix c).0 ≡ ok tt
  unfolding wait_for_child on_ready on_go
  wait_for_child_returns c can_read =
      let close_write = on_ready (Pipe.close posix write_end) in
      let close_read = on_go (Pipe.close posix read_end) in
      let read = on_ready (Pipe.read posix 1) in
      let c₁ = (close_write c).1 in
      let c₂ = (close_read c₁).1 in
      let ready : Pipe.Running W = record { pipe = c.child_ready_pipe; world = c.system } in
      let still : eqb_ℤ c₂.child_ready_pipe.read_fd minus_one ≡ false =
        ap (λ fd. eqb_ℤ fd minus_one) (close_write-read_fd ready) ∙ can_read in
      let (a, reads) =
        read_returns (record { pipe = c₂.child_ready_pipe; world = c₂.system }) still in
      let c₃ = (read c₂).1 in
      then_returns close_write _ c tt tt (close_returns write_end ready) (
        then_returns close_read _ c₁ tt tt
          (close_returns read_end (record { pipe = c₁.go_pipe; world = c₁.system }))
          (then_returns read _ c₂ a tt reads
            (close_returns read_end (record { pipe = c₃.child_ready_pipe; world = c₃.system }))))

  -- The object that the constructor makes of a pipe and another one.
  module _ (cloexec status : ℤ) (garbage : ℕ) where
    abbrev pub new_object : List String → ℤ × ℤ → ℤ × ℤ → SyncObject W
    new_object args go ready = record {
      process = record {
        config = sync_config posix garbage default_config;
        args = args;
        pid = minus_one;
        termination_status = status;
        terminated = false;
      };
      go_pipe = record { read_fd = go.0; write_fd = go.1 };
      child_ready_pipe = record { read_fd = ready.0; write_fd = ready.1 };
    }

    pub make_returns :
        (path : String) (rest : List String) (w : W)
        → let (_, go, v) = posix.pipe2 cloexec (minus_one, minus_one) w in
          let (_, ready, u) = posix.pipe (minus_one, minus_one) v in
          (sync_class posix cloexec status garbage).make (path ∷ rest) w
          ≡ (ok (new_object (path ∷ rest) go ready), u)
    unfolding sync_class construct constructed detach process_made go_made ready_made Process.make
        Pipe.make_with Pipe.make Os.pipe2
    make_returns path rest w =
        let (r, go, v) = posix.pipe2 cloexec (minus_one, minus_one) w in
        rw
          (
            obliging.pipes2 cloexec (minus_one, minus_one) w,
            obliging.pipes (minus_one, minus_one) v,
          )
          refl

    pub prepare_returns :
        (path : String) (rest : List String) (go ready : ℤ × ℤ) (w : W)
        → posix.exists path w ≡ true
        → eqb_ℤ ready.0 minus_one ≡ false
        → (prepare posix (attach (new_object (path ∷ rest) go ready) w)).0 ≡ ok tt
    unfolding prepare Process.start Process.started Process.path_exists Process.fork_now
        Process.forked attach lift sync_config on_fork_setup on_fork_success set_fork_error
        set_fork_success set_exec_setup set_exec_error
    prepare_returns path rest go ready w there can_read =
        let c : Channels W = record {
          go_pipe = record { read_fd = go.0; write_fd = go.1 };
          child_ready_pipe = record { read_fd = ready.0; write_fd = ready.1 };
          system = (posix.fork w).1;
        } in
        rw (there, obliging.forks w, obliging.in_parent w) (wait_for_child_returns c can_read)
