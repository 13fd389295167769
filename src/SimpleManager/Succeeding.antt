-- ===== src/SimpleManager/Succeeding.antt =====
-- The preparation of benchmarks of the class that the source gives the simple manager, on a system that
-- makes its calls.
use aser.Prelude.{
  ℕ, zero, suc, ℤ, ◌^◌, ◌<◌, ◌≡◌, refl, ap, ◌∙◌, true, String, List, [], ◌∷◌, some, minus_one,
  arith, length, get_elem?,
}
use mathlib.Core.Path.{subst}
use aser.Outcome.{Result, Stop, ok, stop}
use aser.Libc.{Posix}
use aser.Benchmark.{Benchmark}
use aser.Manager.{ExecManager}
use aser.Process.{started}
use aser.Process.Sync.{prepare}
use aser.Process.Sync.Object.{SyncObject, sync_class, attach, detach, on_object, if_started}
use aser.Process.Sync.Preparing.{Opens, make_lem, prepare_lem}
use aser.Process.Sync.Succeeding.{Obliging, new_object, make_returns, prepare_returns}
use aser.SimpleManager.Bench.{Fails, at_make, at_prepare, at_pid}
use aser.SimpleManager.Preparing.{Progress, all_prepared, failed_at, Filled, prepare_benches-Filled}
use aser.SimpleManager.{SimpleManager, construct, assign_ids, prepare_benches}

module _ {W : Type 0} (posix : Posix W) where
  -- There is a program at the path, whatever has happened before.
  abbrev pub Runnable : List String → Type 0
  Runnable [] = Unit
  Runnable (path ∷ rest) = (w : W) → posix.exists path w ≡ true

  abbrev pub AllRunnable : List Benchmark → Type 0
  AllRunnable [] = Unit
  AllRunnable (b ∷ bs) = (0 < length b.args) × Runnable b.args × AllRunnable bs

  AllRunnable-get :
      (bs : List Benchmark) (k : ℕ) (b : Benchmark)
      → AllRunnable bs
      → get_elem? bs k ≡ some b
      → (0 < length b.args) × Runnable b.args
  AllRunnable-get [] k b all at = absurd cc
  AllRunnable-get (a ∷ bs) zero b all at =
      let same : a ≡ b = cc in
      subst (λ x. (0 < length x.args) × Runnable x.args) same (all.0, all.1)
  AllRunnable-get (a ∷ bs) (suc k) b all at = AllRunnable-get bs k b all.2 at

  module _ (obliging : Obliging posix) (opens : Opens posix) (cloexec status : ℤ)
      (garbage : ℕ) where
    sync_class-Fails :
        (args : List String) (x : Stop)
        → 0 < length args
        → Runnable args
        → Fails (sync_class posix cloexec status garbage) args x
        → ⊥
    unfolding on_object sync_class if_started started
    sync_class-Fails [] x some_arg there fails = omega arith
    sync_class-Fails (path ∷ rest) x some_arg there (at_make w w' makes) =
        let returns = make_returns posix obliging cloexec status garbage path rest w in cc
    sync_class-Fails (path ∷ rest) x some_arg there (at_prepare new p w w₁ w₂ y makes prepares _) =
        let (_, go, v) = posix.pipe2 cloexec (minus_one, minus_one) w in
        let (_, ready, u) = posix.pipe (minus_one, minus_one) v in
        let returns = make_returns posix obliging cloexec status garbage path rest w in
        let same : new_object posix obliging cloexec status garbage (path ∷ rest) go ready ≡ new =
          cc in
        let fine =
          subst (λ o. (prepare posix (attach o w₁)).0 ≡ ok tt) same
            (prepare_returns posix obliging cloexec status garbage path rest go ready w₁ (there w₁)
              (obliging.end_to_read (minus_one, minus_one) v)) in
        let fails : (prepare posix (attach new w₁)).0 ≡ stop y = ap (λ t. t.0) prepares in cc
    sync_class-Fails (path ∷ rest) x some_arg there (at_pid new p w w₁ w₂ makes prepares asked) =
        let run = prepare posix (attach new w₁) in
        let returns : run.0 ≡ ok tt = ap (λ t. t.0) prepares in
        let object : (detach run.1).0 ≡ p = ap (λ t. t.1) prepares in
        let (forked, _, _) =
          prepare_lem posix garbage new w₁
            (make_lem posix cloexec status garbage opens (path ∷ rest) w w₁ new makes) returns in
        let same : if_started (started (detach run.1).0.process) (detach run.1).0.process.pid
            ≡ stop x =
          ap (λ o. if_started (started o.process) o.process.pid) object ∙ asked in
        let found = rw forked at same in cc

    returns_of :
        (bs : List Benchmark) (k : ℕ) (r : Result (Unit {0}))
        → AllRunnable bs
        → Progress (sync_class posix cloexec status garbage) bs k r
        → (r ≡ ok tt) × (k ≡ length bs)
    returns_of bs k (ok _) all (all_prepared e) = (refl, e)
    returns_of bs k (stop x) all (failed_at b _ at fails) =
        let (some_arg, there) = AllRunnable-get bs k b all at in
        absurd (sync_class-Fails b.args x some_arg there fails)

    -- Let there be fewer than 2^32 benchmarks, each with a program that exists at the path that it
    -- starts with. Let the system make pipes with both ends, read and close, and let `fork` succeed
    -- and return in the parent. Then the constructor and the preparation of the manager return, and
    -- every slot has a process of class `sync_process` that was made from the arguments of its
    -- benchmark and prepared.
    pub prepare_benches-sync_class :
        {D : Type 0} (base : ExecManager D) (benchs : List Benchmark) (w : W)
        → length benchs < 2 ^ 32
        → AllRunnable benchs
        → let c = sync_class posix cloexec status garbage in
          (s' : SimpleManager (SyncObject W) D W) × (prepare_benches c
              (assign_ids 0 benchs)
              (construct base benchs w)
            ≡ (ok tt, s'))
          × Filled c 0 (length benchs) benchs s'
    unfolding construct
    prepare_benches-sync_class base benchs w small all =
        let c = sync_class posix cloexec status garbage in
        let (_, (k, r, s', run, progress, filled)) = prepare_benches-Filled c base benchs w small in
        let (returns, whole) = returns_of benchs k r all progress in
        (s', run ∙ ap (λ q. (q, s')) returns, subst (λ n. Filled c 0 n benchs s') whole filled)
