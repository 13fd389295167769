-- ===== src/SimpleManager/Preparing.antt =====
-- The slots of the processes: which numbers the benchmarks have, and what stands in a slot once its
-- benchmark has been prepared.
use aser.Prelude.{
  ℕ, zero, suc, ◌+◌, ◌%◌, ◌^◌, ◌<◌, ◌≤◌, ◌≡◌, refl, ap, ◌∙◌, inl, inr, List, [], ◌∷◌, Option, none,
  some, arith, length, length-replicate, replicate, get_elem?, get-set_other, get-set_self,
  lt_length_of_get,
}
use aser.Outcome.{Result, Stop, ok, stop}
use aser.Benchmark.{Benchmark}
use aser.ProcessClass.{ProcessClass}
use aser.Manager.{ExecManager}
use aser.SimpleManager.Bench.{Prepared, Fails, prepare_bench_lem}
use aser.SimpleManager.{SimpleManager, assign_ids, construct, prepare_benches}

shift : (id i : ℕ) → id + 1 + i ≡ id + suc i
shift id i = omega arith

free_slot :
    {A : Type 0} (n i : ℕ) → i < n → get_elem? (replicate {A = Option A} n none) i ≡ some none
free_slot zero i lt = absurd (omega arith)
free_slot (suc n) zero lt = refl
free_slot (suc n) (suc i) lt = free_slot n i (omega arith)

add_zero : (n : ℕ) → n + 0 ≡ n
add_zero n = omega arith

pub next_id : (id n : ℕ) → id + suc n < 2 ^ 32 → (id + 1) % 2 ^ 32 ≡ id + 1
next_id id n h = omega arith

-- The number of each benchmark is one of the first `n`.
abbrev pub AllBelow : ℕ → List Benchmark → Type 0
AllBelow n [] = Unit
AllBelow n (b ∷ bs) = (b.id < n) × AllBelow n bs

assign_ids-AllBelow :
    (bs : List Benchmark) (id n : ℕ)
    → id + length bs ≤ n
    → id + length bs < 2 ^ 32
    → AllBelow n (assign_ids id bs)
unfolding assign_ids
assign_ids-AllBelow [] id n le room = tt
assign_ids-AllBelow (b ∷ bs) id n le room = (
  omega (arith, le),
  rw (next_id id (length bs) room)
      (assign_ids-AllBelow bs (id + 1) n (omega (arith, le)) (omega (arith, room))),
)

-- How far the preparation has come, and what it has returned there.
pub data Progress {P W : Type 0} (c : ProcessClass P W) (bs : List Benchmark) (k : ℕ)
    : Result (Unit {0}) → Type 0 where
  all_prepared : k ≡ length bs → Progress c bs k (ok tt)
  failed_at :
      (b : Benchmark) (x : Stop)
      → get_elem? bs k ≡ some b
      → Fails c b.args x
      → Progress c bs k (stop x)

further :
    {P W : Type 0} (c : ProcessClass P W) (b : Benchmark) (bs : List Benchmark) (k : ℕ)
    (r : Result (Unit {0}))
    → Progress c bs k r
    → Progress c (b ∷ bs) (suc k) r
further c b bs k (ok tt) (all_prepared e) = all_prepared (ap suc e)
further c b bs k (stop x) (failed_at a _ at fails) = failed_at a x at fails

module _ {P D W : Type 0} (c : ProcessClass P W) where
  -- The first `k` slots from `id` on have the processes of the benchmarks, the others are free.
  pub record Filled (id k : ℕ) (bs : List Benchmark) (s : SimpleManager P D W) : Type 0 where
    pub full :
        (i : ℕ) (b : Benchmark)
        → i < k
        → get_elem? bs i ≡ some b
        → (p : P) × (get_elem? s.processes (id + i) ≡ some (some p)) × Prepared c b.args p
    pub free :
        (i : ℕ) (b : Benchmark)
        → k ≤ i
        → get_elem? bs i ≡ some b
        → get_elem? s.processes (id + i) ≡ some none

  -- One more benchmark before the others.
  Filled-step :
      (id k : ℕ) (b : Benchmark) (bs : List Benchmark) (s : SimpleManager P D W) (p : P)
      → get_elem? s.processes id ≡ some (some p)
      → Prepared c b.args p
      → Filled (id + 1) k bs s
      → Filled id (suc k) (b ∷ bs) s
  Filled-step id k b bs s p here prepared filled = record { full = full; free = free }
    where
      full :
          (i : ℕ) (a : Benchmark)
          → i < suc k
          → get_elem? (b ∷ bs) i ≡ some a
          → (q : P) × (get_elem? s.processes (id + i) ≡ some (some q)) × Prepared c a.args q
      full zero a lt at = let same : b ≡ a = cc in (p, rw (add_zero id) here, rw (← same) prepared)
      full (suc i) a lt at = rw (← shift id i) (filled.full i a (omega arith) at)

      free :
          (i : ℕ) (a : Benchmark)
          → suc k ≤ i
          → get_elem? (b ∷ bs) i ≡ some a
          → get_elem? s.processes (id + i) ≡ some none
      free zero a le at = absurd (omega (arith, le))
      free (suc i) a le at = rw (← shift id i) (filled.free i a (omega arith) at)

  prepare_from :
      (bs : List Benchmark) (id : ℕ) (s : SimpleManager P D W)
      → id + length bs < 2 ^ 32
      → ((i : ℕ) → id ≤ i → i < id + length bs → get_elem? s.processes i ≡ some none)
      → (k : ℕ) × (r : Result (Unit {0})) × (s' : SimpleManager P D W) × (prepare_benches c
            (assign_ids id bs)
            s
          ≡ (r, s'))
        × Progress c bs k r
        × Filled id k bs s'
        × ((j : ℕ) → j < id → get_elem? s'.processes j ≡ get_elem? s.processes j)
  unfolding prepare_benches assign_ids
  prepare_from [] id s h free = (
    0,
    ok tt,
    s,
    refl,
    all_prepared refl,
    record { full = λ i b lt at. cc; free = λ i b le at. cc },
    λ j lt. refl,
  )
  prepare_from (b ∷ bs) id s h free =
      elim (prepare_bench_lem c (record b { id = id }) s (free id (omega arith) (omega arith))) [
        | inr (x, s', stops, same, fails) ↦ (
          0,
          stop x,
          s',
          rw stops refl,
          failed_at b x refl fails,
          record {
            full = λ i b' lt at. absurd (omega (arith, lt));
            free = λ i b' le at.
                let inside = lt_length_of_get (b ∷ bs) i b' at in
                rw same (free (id + i) (omega arith) (omega arith));
          },
          λ j lt. rw same refl,
        )
        | inl (p, s₁, prepared, returns, sets, _) ↦
            let room = lt_length_of_get s.processes id none (free id (omega arith) (omega arith)) in
            let here : get_elem? s₁.processes id ≡ some (some p) =
              rw sets (get-set_self s.processes id (some p) room) in
            let (k, r, s', rest, progress, filled, before) =
              prepare_from bs (id + 1) s₁ (omega arith) (λ i le lt. rw sets (
                get-set_other s.processes id i (some p) (inl (omega arith))
                ∙ free i (omega arith) (omega arith))) in
            (
              suc k,
              r,
              s',
              rw (next_id id (length bs) h, returns) rest,
              further c b bs k r progress,
              Filled-step id k b bs s' p (before id (omega arith) ∙ here) prepared filled,
              λ j lt.
                  before j (omega arith)
                  ∙ rw sets (get-set_other s.processes id j (some p) (inr lt)),
            )
      ]

  -- With fewer than 2^32 benchmarks, the number of each benchmark is below the number of the slots,
  -- and the benchmarks are prepared in their order. Either each of them is, and its slot has a process
  -- that was made from its arguments and prepared; or the call stops as the calls for the first
  -- benchmark do that cannot be prepared, the slots before have such processes, and those from it on
  -- are free.
  pub prepare_benches-Filled :
      (base : ExecManager D) (benchs : List Benchmark) (w : W)
      → length benchs < 2 ^ 32
      → let s = construct base benchs w in
        AllBelow (length s.processes) s.benchs
        × ((k : ℕ) × (r : Result (Unit {0})) × (s' : SimpleManager P D W) × (prepare_benches c
                s.benchs s
              ≡ (r, s'))
            × Progress c benchs k r
            × Filled 0 k benchs s')
  unfolding construct
  prepare_benches-Filled base benchs w h =
      let (k, r, s', run, progress, filled, _) =
        prepare_from benchs 0 (construct base benchs w) (omega arith)
          (λ i le lt. free_slot (length benchs) i (omega arith)) in
      let slots = length-replicate {A = Option P} (length benchs) none in
      (
        assign_ids-AllBelow benchs 0 (length (replicate {A = Option P} (length benchs) none))
            (omega (arith, slots)) (omega arith),
        (k, r, s', run, progress, filled),
      )
