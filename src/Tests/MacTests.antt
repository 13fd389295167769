-- ===== src/Tests/MacTests.antt =====
-- A system that keeps the flags of its descriptors and whose `pipe` makes the descriptors 3 and 4.
use aser.Prelude.{
  ℕ, ℤ, pos, negsuc, minus_one, ◌^◌, ◌≡◌, ◌⊎◌, refl, ◌||◌, true, false, [], none, eqb_ℤ,
  if◌then◌else◌,
}
use aser.Outcome.{ok, stop, thrown, invalid_argument}
use aser.Libc.{Posix}
use aser.MacOs.{Fcntl, has_others, pipe2}
use aser.MacOs.Marking.{KeepsFlags, marked, pipe2-KeepsFlags}

abbrev table : Posix (ℤ → ℕ)
table = record {
  errno = λ w. pos 0;
  sigkill = pos 9;
  kill = λ pid sig w. (pos 0, w);
  getpid = λ w. pos 100;
  getpgid = λ pid w. (pid, w);
  setpgid = λ pid pgid w. (pos 0, w);
  pipe = λ fd w. (pos 0, (pos 3, pos 4), w);
  pipe2 = λ flags fd w. (minus_one, fd, w);
  close = λ fd w. (pos 0, w);
  read = λ fd n w. (pos 0, [], w);
  write = λ fd bytes w. (pos 0, w);
  fork = λ w. (minus_one, w);
  execvp = λ args w. none;
  waitpid = λ pid status w. (pid, pos 0, w);
  wifexited = λ status. true;
  wifsignaled = λ status. true;
  sched_setaffinity = λ pid cpus w. (pos 0, w);
  exists = λ path w. true;
}

abbrev magnitude : ℤ → ℕ
magnitude (pos n) = n
magnitude (negsuc n) = 0

abbrev fcntl : Fcntl (ℤ → ℕ)
fcntl = record {
  getfd = λ fd w. (pos (w fd), w);
  setfd = λ fd v w. (pos 0, λ q. if eqb_ℤ q fd then magnitude v else w q);
  o_cloexec = 24;
  fd_cloexec = 0;
}

keeps : KeepsFlags fcntl
keeps = record {
  flags_of = λ fd w. w fd;
  gets = λ fd w. refl;
  sets = λ fd v w e. cc;
  then_reads = λ fd q v w. refl;
}

pipe2-KeepsFlags_example :
    let (result, v') = pipe2 table fcntl (minus_one, minus_one) (pos (2 ^ 24)) (λ q. 0) in
    ((has_others 24 (pos (2 ^ 24)) ≡ false)
      × (result ≡ ok (pos 3, pos 4))
      × (keeps.flags_of (pos 4) v' ≡ (
          if eqb_ℤ (pos 4) (pos 3) || eqb_ℤ (pos 4) (pos 4)
          then marked table keeps (pos (2 ^ 24)) (keeps.flags_of (pos 4) (λ q. 0))
          else keeps.flags_of (pos 4) (λ q. 0))))
    ⊎ ((has_others 24 (pos (2 ^ 24)) ≡ true)
        × (result ≡ stop (thrown (invalid_argument "Flags not supported")))
        × (v' ≡ (λ q. 0)))
pipe2-KeepsFlags_example =
    pipe2-KeepsFlags table keeps (minus_one, minus_one) (pos (2 ^ 24)) (pos 4) (λ q. 0) refl refl
