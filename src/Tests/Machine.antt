-- ===== src/Tests/Machine.antt =====
-- A system in which every call succeeds: processes have identifiers from 100 on, descriptors
-- count up from 3, and the state is the next number.
use aser.Prelude.{ℕ, pos, ◌+◌, true, [], ◌∷◌, none}
use aser.Libc.{Posix}

abbrev pub machine : Posix ℕ
machine = record {
  errno = λ w. pos 0;
  sigkill = pos 9;
  kill = λ pid sig w. (pos 0, w);
  getpid = λ w. pos 100;
  getpgid = λ pid w. (pid, w);
  setpgid = λ pid pgid w. (pos 0, w);
  pipe = λ fd w. (pos 0, (pos w, pos (w + 1)), w + 2);
  pipe2 = λ flags fd w. (pos 0, (pos w, pos (w + 1)), w + 2);
  close = λ fd w. (pos 0, w);
  read = λ fd n w. (pos 1, 0 ∷ [], w);
  write = λ fd bytes w. (pos 1, w);
  fork = λ w. (pos (w + 100), w + 1);
  execvp = λ args w. none;
  waitpid = λ pid status w. (pid, pos 0, w);
  wifexited = λ status. true;
  wifsignaled = λ status. true;
  sched_setaffinity = λ pid cpus w. (pos 0, w);
  exists = λ path w. true;
}
