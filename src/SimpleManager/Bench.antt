-- ===== src/SimpleManager/Bench.antt =====
-- What the preparation of one benchmark does to the slots.
use aser.Prelude.{ℤ, ◌≡◌, ◌⊎◌, refl, ap, inl, inr, String, List, none, some, get_elem?, set}
use aser.Outcome.{Result, Result-cases, Stop, thrown, aborted, exited, replaced, ok, stop}
use aser.Benchmark.{Benchmark}
use aser.ProcessClass.{ProcessClass}
use aser.Manager.{notify_process_creation}
use aser.SimpleManager.{
  SimpleManager, prepare_bench, dropped, stored, announced, readied, made, after,
}

-- `p` is a process that was made from these arguments and prepared.
pub record Prepared {P W : Type 0} (c : ProcessClass P W) (args : List String) (p : P)
    : Type 0 where
  pub new : P
  pub pid : ℤ
  pub before : W
  pub between : W
  pub later : W
  pub makes : c.make args before ≡ (ok new, between)
  pub prepares : c.prepare new between ≡ (ok tt, p, later)
  pub has_pid : c.pid p ≡ ok pid

-- What an exception is after the destructor of the process that it leaves has returned, or stopped so.
abbrev pub left_by : Stop → Result (Unit {0}) → Stop
left_by (thrown e) (ok _) = thrown e
left_by (thrown e) (stop x) = x
left_by aborted r = aborted
left_by (exited n) r = exited n
left_by replaced r = replaced

-- One of the calls that prepare a benchmark with these arguments has stopped so: its construction, its
-- preparation, or the question for its pid.
pub data Fails {P W : Type 0} (c : ProcessClass P W) (args : List String) (x : Stop) : Type 0 where
  at_make : (w w' : W) → c.make args w ≡ (stop x, w') → Fails c args x
  at_prepare :
      (new p : P) (w w₁ w₂ : W) (y : Stop)
      → c.make args w ≡ (ok new, w₁)
      → c.prepare new w₁ ≡ (stop y, p, w₂)
      → x ≡ left_by y (c.destroy p w₂).0
      → Fails c args x
  at_pid :
      (new p : P) (w w₁ w₂ : W)
      → c.make args w ≡ (ok new, w₁)
      → c.prepare new w₁ ≡ (ok tt, p, w₂)
      → c.pid p ≡ stop x
      → Fails c args x

module _ {P D W : Type 0} (c : ProcessClass P W) where
  dropped_stops :
      (y : Stop) (p : P) (s : SimpleManager P D W)
      → (s' : SimpleManager P D W) × (dropped c y p s
          ≡ (stop (left_by y (c.destroy p s.system).0), s'))
        × (s'.processes ≡ s.processes)
  unfolding dropped after
  dropped_stops (thrown e) p s =
      let gone : SimpleManager P D W = record s { system = (c.destroy p s.system).1 } in
      elim (Result-cases (c.destroy p s.system).0) [
        | inl (_, returns) ↦ (gone, rw returns (unfold after in refl), refl)
        | inr (x, stops) ↦ (gone, rw stops (unfold after in refl), refl)
      ]
  dropped_stops aborted p s = (s, refl, refl)
  dropped_stops (exited n) p s = (s, refl, refl)
  dropped_stops replaced p s = (s, refl, refl)

  -- A benchmark whose slot is free is prepared and stored there, or its preparation fails and the
  -- slots stay as they are.
  pub prepare_bench_lem :
      (b : Benchmark) (s : SimpleManager P D W)
      → get_elem? s.processes b.id ≡ some none
      → ((p : P) × (s' : SimpleManager P D W) × (q : Prepared c b.args p) × (prepare_bench c b s
            ≡ (ok tt, s'))
          × (s'.processes ≡ set s.processes b.id (some p))
          × (s'.base ≡ (notify_process_creation q.pid s.base).1))
        ⊎ ((x : Stop) × (s' : SimpleManager P D W) × (prepare_bench c b s ≡ (stop x, s'))
            × (s'.processes ≡ s.processes)
            × Fails c b.args x)
  unfolding prepare_bench made readied announced stored notify_process_creation
  prepare_bench_lem b s free =
      let (_, w₁) = c.make b.args s.system in
      elim (Result-cases (c.make b.args s.system).0) [
        | inr (x, stops) ↦ inr (
          x,
          record s { system = w₁ },
          rw stops refl,
          refl,
          at_make s.system w₁ (ap (λ r. (r, w₁)) stops),
        )
        | inl (new, makes) ↦
            let made_new : c.make b.args s.system ≡ (ok new, w₁) = ap (λ r. (r, w₁)) makes in
            let (_, p, w₂) = c.prepare new w₁ in
            elim (Result-cases (c.prepare new w₁).0) [
              | inr (y, stops) ↦
                  let (s', drops, same) = dropped_stops y p (record s { system = w₂ }) in
                  inr (
                    left_by y (c.destroy p w₂).0,
                    s',
                    rw (makes, stops) drops,
                    same,
                    at_prepare new p s.system w₁ w₂ y made_new (ap (λ r. (r, p, w₂)) stops) refl,
                  )
              | inl (_, prepares) ↦
                  let ready : c.prepare new w₁ ≡ (ok tt, p, w₂) = ap (λ r. (r, p, w₂)) prepares in
                  elim (Result-cases (c.pid p)) [
                    | inr (x, stops) ↦ inr (
                      x,
                      record s { system = w₂ },
                      rw (makes, prepares, stops) refl,
                      refl,
                      at_pid new p s.system w₁ w₂ made_new ready stops,
                    )
                    | inl (pid, asks) ↦ inl (
                      p,
                      record s {
                        processes = set s.processes b.id (some p);
                        base = (notify_process_creation pid s.base).1;
                        system = w₂;
                      },
                      record {
                        new = new;
                        pid = pid;
                        before = s.system;
                        between = w₁;
                        later = w₂;
                        makes = made_new;
                        prepares = ready;
                        has_pid = asks;
                      },
                      rw (makes, prepares, asks, free) refl,
                      refl,
                      refl,
                    )
                  ]
            ]
      ]
