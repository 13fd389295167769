-- ===== src/Tests/Logging.antt =====
-- A system in which every call succeeds, that numbers processes and descriptors as in `machine`, and
-- that remembers the descriptors written to, the processes signalled and the CPU of each process.
use aser.Prelude.{
  ℕ, ℤ, pos, ◌+◌, ◌≡◌, ◌⊎◌, inl, inr, refl, sym, true, List, [], ◌∷◌, Option, none, some, eqb_ℤ,
  eqb_ℤ_refl, ne→eqb_ℤ, if◌then◌else◌,
}
use aser.Libc.{Posix}
use aser.Hopper.Affinity.{Affinity}
use aser.Process.Sync.Recording.{Recorded, Quiet}

pub record State : Type 0 where
  pub next : ℕ
  pub written : List ℤ
  pub signalled : List ℤ
  pub given : ℤ → Option ℕ

-- Nothing was written, signalled or given.
abbrev pub at : ℕ → State
at n = record { next = n; written = []; signalled = []; given = λ q. none }

abbrev pub give : ℤ → List ℕ → State → State
give pid [] s = s
give pid (cpu ∷ cpus) s = record s { given = λ q. if eqb_ℤ pid q then some cpu else s.given q }

abbrev two_more : State → State
two_more s = record s { next = s.next + 2 }

-- `r` is what a write returns.
abbrev pub logging : ℤ → Posix State
logging r = record {
  errno = λ s. pos 0;
  sigkill = pos 9;
  kill = λ pid sig s. (pos 0, record s { signalled = pid ∷ s.signalled });
  getpid = λ s. pos 100;
  getpgid = λ pid s. (pid, s);
  setpgid = λ pid pgid s. (pos 0, s);
  pipe = λ fd s. (pos 0, (pos s.next, pos (s.next + 1)), two_more s);
  pipe2 = λ flags fd s. (pos 0, (pos s.next, pos (s.next + 1)), two_more s);
  close = λ fd s. (pos 0, s);
  read = λ fd n s. (pos 1, 0 ∷ [], s);
  write = λ fd bytes s. (r, record s { written = fd ∷ s.written });
  fork = λ s. (pos (s.next + 100), record s { next = s.next + 1 });
  execvp = λ args s. none;
  waitpid = λ pid status s. (pid, pos 0, s);
  wifexited = λ status. true;
  wifsignaled = λ status. true;
  sched_setaffinity = λ pid cpus s. (pos 0, give pid cpus s);
  exists = λ path s. true;
}

abbrev pub In : ℤ → List ℤ → Type 0
In x [] = ⊥
In x (y ∷ ys) = (x ≡ y) ⊎ In x ys

pub recorded : (r : ℤ) → Recorded (logging r)
recorded r = record {
  Wrote = λ fd s. In fd s.written;
  Signalled = λ pid s. In pid s.signalled;
  writes = λ fd s. inl refl;
  kills = λ pid s. inl refl;
  write_wrote = λ f fd bytes s h. inr h;
  close_wrote = λ f fd s h. h;
  waitpid_wrote = λ f pid st s h. h;
  kill_wrote = λ f pid sig s h. h;
  setaffinity_wrote = λ f pid cpus s h. given_wrote f pid cpus s h;
  waitpid_signalled = λ q pid st s h. h;
  kill_signalled = λ q pid sig s h. inr h;
}
  where
    given_wrote :
        (f pid : ℤ) (cpus : List ℕ) (s : State) → In f s.written → In f (give pid cpus s).written
    given_wrote f pid [] s h = h
    given_wrote f pid (cpu ∷ cpus) s h = h

pub affinity : (r : ℤ) → Affinity (logging r)
affinity r = record {
  asked = λ pid s. s.given pid;
  sets = λ pid cpu s. rw (eqb_ℤ_refl pid) refl;
  others = λ pid q cpu s ne. rw (ne→eqb_ℤ pid q (λ e. ne (sym e))) refl;
}

-- No process was signalled.
abbrev pub NoneSignalled : State → Type 0
NoneSignalled s = s.signalled ≡ []

pub quiet : (r : ℤ) → Quiet (logging r) NoneSignalled
quiet r = record { write = λ fd bytes s h. h; close = λ fd s h. h; waitpid = λ pid st s h. h }
