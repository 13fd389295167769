-- ===== src/SimpleManager/Threads.antt =====
-- The threads that wait for the processes, while `start_impl` goes on.
use mathlib.Core.Path.{subst}
use aser.Prelude.{
  ◌+◌, length-append, lookup-erase_ne, lookup-erase_self, Distinct-erase, ℕ, ℤ, ◌<◌, ◌≡◌, refl, sym,
  ◌∙◌, inl, inr, List, [], ◌∷◌, ◌++◌, none, some, arith, length, get_elem?, lookup, erase, ℤ_key,
  eqb_ℤ, eqb_ℤ_iff, Bool-cases,
}
use aser.Outcome.{ok, ◌>>◌}
use aser.Queue.{push}
use aser.ProcessClass.{ProcessClass}
use aser.ProcessClass.Contract.{Contract}
use aser.ProcessClass.Watching.{WaitKeeps}
use aser.ProcessMonitor.{
  wait_for_any, done, ProcessMonitor, ready, wait_for_process, finish, may_be_destroyed,
}
use aser.SimpleManager.Ended.{Inv, ended_at, Ready-ended, ended-Inv}
use aser.SimpleManager.Execution.{Session, thread_ends, threads_end}
use aser.SimpleManager.Futures.{Settled, AllReady, first_ready, wait_for_any_first, destroyed_lem}
use aser.SimpleManager.Indices.{AllDifferent, Once, Inside}

module _ {P W : Type 0} {c : ProcessClass P W} (k : Contract c) where
  module _ {D : Type 0} (pids : List ℤ) (different : AllDifferent pids) where
    -- The thread of a slot that is left ends: it waits for the process and settles the future.
    thread_ends_lem :
        (Q : W → Type 0)
        → WaitKeeps k Q
        → (left : List ℕ) (i : ℕ) (pid : ℤ) (s : Session P D W) → Once (i ∷ left)
        → get_elem? pids i ≡ some pid
        → Inv k pids (i ∷ left) s
        → (p' : P) × (w' : W) × (st : ℤ) × (thread_ends c i s
            ≡ (ok tt, ended_at k i p' w' pid st s))
          × Inv k pids left (ended_at k i p' w' pid st s)
          × (Q s.manager.system → Q w')
    unfolding thread_ends
    thread_ends_lem Q keeps left i pid s once at v =
        let (p, here, phase) = v.slots i pid at in
        elim phase [
          | inr (gone, _, _) ↦ absurd (ground arith)
          | inl (_, run, _) ↦
              let (p', w', st, waits, e, same, status) = k.wait_lem pid p s.manager.system run in
              (
                p',
                w',
                st,
                rw (here, thread_ends, waits, same, status),
                ended-Inv k pids different left i pid st p' w' s once.0 at e v,
                λ q. keeps pid p s.manager.system p' w' run waits q,
              )
        ]

    -- The threads of several slots end, in that order: the base is as before, and the pids of the
    -- processes have joined the queue.
    pub threads_end_lem :
        (Q : W → Type 0)
        → WaitKeeps k Q
        → (is left : List ℕ) (s : Session P D W) → Once (is ++ left)
        → Inside pids is
        → Inv k pids (is ++ left) s
        → (s' : Session P D W) × (threads_end c is s ≡ (ok tt, s'))
          × Inv k pids left s'
          × (s'.manager.base ≡ s.manager.base)
          × (AllReady s.monitor → AllReady s'.monitor)
          × (length s'.monitor.ended_process_queue.queue
              ≡ length s.monitor.ended_process_queue.queue + length is)
          × (Q s.manager.system → Q s'.manager.system)
    unfolding threads_end finish wait_for_process push
    threads_end_lem Q keeps [] left s once inside v =
        (s, refl, v, refl, (λ r. r), omega arith, λ q. q)
    threads_end_lem Q keeps (i ∷ is) left s once ((pid, at), inside) v =
        let (p', w', st, ends, v₁, kept) = thread_ends_lem Q keeps (is ++ left) i pid s once at v in
        let (s', run, v', base, ready', long, quiet) =
          threads_end_lem Q keeps is left (ended_at k i p' w' pid st s) once.1 inside v₁ in
        (
          s',
          rw (ends, ◌>>◌) run,
          v',
          base,
          λ r. ready' (Ready-ended k pid st s.monitor s.monitor.ended_process_queue.queue r),
          omega (arith, long, length-append s.monitor.ended_process_queue.queue (pid ∷ [])),
          λ q. quiet (kept q),
        )

    -- The futures are erased as they are taken.
    erased-Inv :
        (left : List ℕ) (q st : ℤ) (rest : List ℤ) (s : Session P D W)
        → lookup q s.monitor.status ≡ some (ready st)
        → Inv k pids left s
        → Inv k pids left (record s {
          monitor = record {
            status = erase q s.monitor.status;
            ended_process_queue = record { queue = rest };
          };
        })
    erased-Inv left q st rest s there v = record {
      size = v.size;
      slots = λ i pid at.
          let (p, here, phase) = v.slots i pid at in
          (
            p,
            here,
            elim (Bool-cases (eqb_ℤ q pid)) [
              | inl same ↦ elim phase [
                | inl (_, _, wait) ↦ absurd (ground (arith, (eqb_ℤ_iff q pid).0 same))
                | inr (gone, e, _) ↦
                    let none_left : lookup pid (erase q s.monitor.status) ≡ none =
                      rw ((eqb_ℤ_iff q pid).0 same)
                        (lookup-erase_self pid s.monitor.status v.distinct) in
                    inr (gone, e, rw none_left tt)
              ]
              | inr other ↦
                  rw
                    (lookup-erase_ne q pid s.monitor.status
                      (λ same. ground (arith, eqb_ℤ_iff q pid)))
                    phase
            ],
          );
      only = λ j f at. elim (Bool-cases (eqb_ℤ q j)) [
        | inl same ↦ absurd (
            ground (arith, (eqb_ℤ_iff q j).0 same, lookup-erase_self q s.monitor.status v.distinct))
        | inr other ↦ v.only j f (
            sym (lookup-erase_ne q j s.monitor.status (λ same. ground (arith, eqb_ℤ_iff q j))) ∙ at)
      ];
      distinct = Distinct-erase q s.monitor.status v.distinct;
    }

    -- `wait_for_any` returns, if there is a process in the queue.
    pub wait_for_any_returns :
        (left : List ℕ) (s : Session P D W)
        → AllReady s.monitor
        → 0 < length s.monitor.ended_process_queue.queue
        → Inv k pids left s
        → (r : ℤ × ℤ) × (m : ProcessMonitor) × (wait_for_any s.monitor ≡ done (ok r) m)
          × Inv k pids left (record s { monitor = m })
    wait_for_any_returns left s r long v =
        let (q, rest, queue, (st, there)) = first_ready s.monitor r long in
        (
          (q, st),
          _,
          wait_for_any_first s.monitor q st rest queue there,
          erased-Inv left q st rest s there v,
        )

  -- When no slot is left, the destructor of the process monitor does not block.
  pub all_settled :
      {D : Type 0} (pids : List ℤ) (s : Session P D W)
      → Inv k pids [] s
      → may_be_destroyed s.monitor.status ≡ some tt
  all_settled pids s v = destroyed_lem s.monitor.status v.distinct (λ q f there.
      let (i, at) = v.only q f there in
      let (p, here, phase) = v.slots i q at in
      elim phase [
        | inl (_, _, wait) ↦ absurd (ground arith)
        | inr (_, _, over) ↦ subst Settled there over
      ])
