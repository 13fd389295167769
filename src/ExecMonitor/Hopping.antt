-- ===== src/ExecMonitor/Hopping.antt =====
-- The thread of the `cpu_hopper` monitor: while fewer processes arrive than there are free CPUs, it
-- never throws, and every process has a CPU. The constructor of `cpu_hopper` registers the handler.
use aser.Prelude.{
  ℕ, ℤ, ◌+◌, ◌<◌, ◌≡◌, ◌≢◌, refl, sym, keys, ◌∙◌, ap, List, [], ◌∷◌, ◌++◌, none, some, length,
  length-append, arith, lookup, insert_new,
}
use mathlib.Core.Path.{subst}
use aser.Outcome.{Result, ok, pure}
use aser.Libc.{Posix}
use aser.Hopper.Cpus.{free}
use aser.Hopper.Invariant.{cpu_of, Inv}
use aser.Hopper.Hopping.{Hopped, hop_processes-Hopped}
use aser.Os
use aser.Hopper.Affinity.{Affinity, Bound, Placed-Bound, Hopped-Bound, bind_each-keeps}
use aser.Hopper.Adding.{Placed, verdict, add_process-room}
use aser.Hopper.{Hopper, Running, init, add_process, loop_impl}
use aser.ExecMonitor.{
  ExecEvent, EventType, process_created, event_type_key, same_type, Handler, Virtual, ExecMonitor,
  construct, register_event_handler, run_thread, call,
}
use aser.ExecMonitor.Events.{dispatch, handle_all, handle_all-cons, with}
use aser.ExecMonitor.Rounds.{all_rounds, all_rounds-cons, Fits, run_thread-all_rounds}

-- All the events of the rounds.
abbrev pub concat : List (List ExecEvent) → List ExecEvent
concat [] = []
concat (arriving ∷ rounds) = arriving ++ concat rounds

module _ {W : Type 0} (posix : Posix W) where
  -- The virtual functions of `cpu_hopper`.
  unfoldable pub cpu_hopper : Virtual (Running W)
  cpu_hopper = record {
    initialize_impl = pure tt;
    finalize_impl = pure tt;
    prepare_impl = pure tt;
    loop_impl = loop_impl posix;
  }

  -- The handler that the constructor registers.
  abbrev pub on_created : Handler (Running W)
  on_created event = add_process posix event.pid

  abbrev pub handlers : List (EventType × Handler (Running W))
  handlers = (process_created, on_created) ∷ []

  -- The constructor; `sampling_length` is what it reads from the properties.
  unfoldable pub construct_hopper : ℕ → ℕ → W → Result (Unit {0}) × ExecMonitor (Running W)
  construct_hopper sampling_length cpus w =
      register_event_handler process_created on_created
        (construct (record { self = init sampling_length cpus; world = w }))

abbrev pub Other : ℤ → List ExecEvent → Type 0
Other pid [] = Unit
Other pid (event ∷ events) = (event.pid ≢ pid) × Other pid events

-- The processes of the events are new to the monitor, and differ from each other.
abbrev pub Fresh : Hopper → List ExecEvent → Type 0
Fresh h [] = Unit
Fresh h (event ∷ events) = (cpu_of h event.pid ≡ none) × Other event.pid events × Fresh h events

-- Each process of the events has a CPU.
abbrev pub AllPlaced : Hopper → List ExecEvent → Type 0
AllPlaced h [] = Unit
AllPlaced h (event ∷ events) = ((cpu : ℕ) × (cpu_of h event.pid ≡ some cpu)) × AllPlaced h events

-- No process loses its place.
abbrev Keeps : Hopper → Hopper → Type 0
Keeps h h' = (p : ℤ) (c : ℕ) → cpu_of h p ≡ some c → (c' : ℕ) × (cpu_of h' p ≡ some c')

AllPlaced-Keeps :
    (h h' : Hopper) (es : List ExecEvent) → Keeps h h' → AllPlaced h es → AllPlaced h' es
AllPlaced-Keeps h h' [] k a = tt
AllPlaced-Keeps h h' (e ∷ es) k a = (k e.pid a.0.0 a.0.1, AllPlaced-Keeps h h' es k a.1)

AllPlaced-append :
    (h : Hopper) (es fs : List ExecEvent) → AllPlaced h es → AllPlaced h fs → AllPlaced h (es ++ fs)
AllPlaced-append h [] fs a b = b
AllPlaced-append h (e ∷ es) fs a b = (a.0, AllPlaced-append h es fs a.1 b)

pub Placed-Fresh :
    (pid : ℤ) (h h' : Hopper) (es : List ExecEvent)
    → Placed pid h h'
    → Other pid es
    → Fresh h es
    → Fresh h' es
Placed-Fresh pid h h' [] p o f = tt
Placed-Fresh pid h h' (e ∷ es) p o f =
    (p.others e.pid o.0 ∙ f.0, f.1, Placed-Fresh pid h h' es p o.1 f.2)

Placed-Keeps : (pid : ℤ) (h h' : Hopper) → cpu_of h pid ≡ none → Placed pid h h' → Keeps h h'
Placed-Keeps pid h h' e p q c at = (c, p.others q (λ same. ground arith) ∙ at)

Hopped-Fresh :
    (h h' : Hopper) (es : List ExecEvent) → Hopped h.cpu_mapping h h' → Fresh h es → Fresh h' es
Hopped-Fresh h h' [] p f = tt
Hopped-Fresh h h' (e ∷ es) p f = (p.stays e.pid f.0 ∙ f.0, f.1, Hopped-Fresh h h' es p f.2)

Hopped-Keeps : (h h' : Hopper) → Hopped h.cpu_mapping h h' → Keeps h h'
Hopped-Keeps h h' p q c at = let (new, there, _) = p.moves q c at in (new, there)

module _ {W : Type 0} (posix : Posix W) where
  lookup-handlers : (t : EventType) → lookup t (handlers posix) ≡ some (on_created posix)
  unfolding lookup same_type
  lookup-handlers process_created = refl

  pub dispatch_lem :
      (e : ExecEvent) (s : Running W) → dispatch (handlers posix) e s ≡ add_process posix e.pid s
  unfolding dispatch call
  dispatch_lem e s = rw (lookup-handlers e.type, call)

  pub verdict-ok : (n : ℕ) → 1 < n → verdict n ≡ ok tt
  verdict-ok n h = ground arith

-- `Q` is anything about the system that a call of `sched_setaffinity` keeps.
module _ {W : Type 0} (posix : Posix W) (affinity : Affinity posix) (Q : W → Type 0)
    (keeps : (pid : ℤ) (cpu : ℕ) (w : W) → Q w → Q (Os.on_cpu posix pid cpu w)) where
  -- What the events of a round leave, where `rest` are events still to come.
  record Handled (es rest : List ExecEvent) (s s' : Running W) : Type 0 where
    kept : Inv s'.self
    fewer : free s'.self.allocated_cpus + length es ≡ free s.self.allocated_cpus
    fresh : Fresh s'.self rest
    placed : AllPlaced s'.self es
    stays : Keeps s.self s'.self
    bound : Bound affinity s'.self s'.world
    calls : Q s'.world

  handle_all-Handled :
      (es rest : List ExecEvent) (s : Running W)
      → Inv s.self
      → Bound affinity s.self s.world
      → Q s.world
      → Fresh s.self (es ++ rest)
      → length es < free s.self.allocated_cpus
      → (s' : Running W) × (handle_all (handlers posix) es s ≡ (ok tt, [], s'))
        × Handled es rest s s'
  unfolding handle_all
  handle_all-Handled [] rest s v b q f room = (
    s,
    refl,
    record {
      kept = v;
      fewer = omega arith;
      fresh = f;
      placed = tt;
      stays = λ p c e. (c, e);
      bound = b;
      calls = q;
    },
  )
  handle_all-Handled (e ∷ es) rest s v b q f room =
      let (s₁, added, p, world) = add_process-room posix e.pid s v f.0 (omega arith) in
      let b₁ =
        subst (Bound affinity s₁.self) (sym world)
          (Placed-Bound affinity e.pid s.self s₁.self s.world p b) in
      let q₁ = subst Q (sym world) (keeps e.pid p.cpu s.world q) in
      let f₁ = Placed-Fresh e.pid s.self s₁.self (es ++ rest) p f.1 f.2 in
      let (s', runs, all) =
        handle_all-Handled es rest s₁ p.kept b₁ q₁ f₁ (omega (arith, p.one_less)) in
      (
        s',
        handle_all-cons (handlers posix) e es s s₁ (
              dispatch_lem posix e s
              ∙ added
              ∙ ap (λ r. (r, s₁)) (verdict-ok posix (free s.self.allocated_cpus) (omega arith)))
            ∙ runs,
        record {
          kept = all.kept;
          fewer = omega (arith, all.fewer, p.one_less);
          fresh = all.fresh;
          placed = (all.stays e.pid p.cpu p.placed, all.placed);
          stays = λ q c at.
              let (c₁, at₁) = Placed-Keeps e.pid s.self s₁.self f.0 p q c at in all.stays q c₁ at₁;
          bound = all.bound;
          calls = all.calls;
        },
      )

  -- What the thread leaves.
  pub record Served (es : List ExecEvent) (s s' : Running W) : Type 0 where
    pub kept : Inv s'.self
    pub fewer : free s'.self.allocated_cpus + length es ≡ free s.self.allocated_cpus
    pub placed : AllPlaced s'.self es
    pub stays : Keeps s.self s'.self
    pub bound : Bound affinity s'.self s'.world
    pub calls : Q s'.world

  all_rounds-Served :
      (rounds : List (List ExecEvent)) (s : Running W)
      → Inv s.self
      → Bound affinity s.self s.world
      → Q s.world
      → Fresh s.self (concat rounds)
      → length (concat rounds) < free s.self.allocated_cpus
      → (s' : Running W) × (all_rounds (loop_impl posix) (handlers posix) rounds s
          ≡ (ok tt, [], s'))
        × Served (concat rounds) s s'
  unfolding all_rounds loop_impl
  all_rounds-Served [] s v b q f room = (
    s,
    refl,
    record {
      kept = v;
      fewer = omega arith;
      placed = tt;
      stays = λ p c e. (c, e);
      bound = b;
      calls = q;
    },
  )
  all_rounds-Served (arriving ∷ rounds) s v b q f room =
      let sum = length-append arriving (concat rounds) in
      let (s₁, loops, p, world) = hop_processes-Hopped posix s v (omega arith) in
      let b₁ =
        subst (Bound affinity s₁.self) (sym world)
          (Hopped-Bound affinity s.self s₁.self s.world v.distinct p) in
      let q₁ =
        subst Q (sym world)
          (bind_each-keeps posix Q keeps (keys s.self.cpu_mapping) s₁.self s.world q) in
      let f₁ = Hopped-Fresh s.self s₁.self (arriving ++ concat rounds) p f in
      let (s₂, handles, a) =
        handle_all-Handled arriving (concat rounds) s₁ p.kept b₁ q₁ f₁
          (omega (arith, p.as_free, sum)) in
      let (s', runs, r) =
        all_rounds-Served rounds s₂ a.kept a.bound a.calls a.fresh
          (omega (arith, p.as_free, a.fewer, sum)) in
      (
        s',
        all_rounds-cons (loop_impl posix) (handlers posix) arriving rounds s s₁ s₂ loops handles
            ∙ runs,
        record {
          kept = r.kept;
          fewer = omega (arith, r.fewer, a.fewer, p.as_free, sum);
          placed =
              AllPlaced-append s'.self arriving (concat rounds)
                (AllPlaced-Keeps s₂.self s'.self arriving r.stays a.placed) r.placed;
          stays = λ q c at.
              let (c₁, at₁) = Hopped-Keeps s.self s₁.self p q c at in
              let (c₂, at₂) = a.stays q c₁ at₁ in r.stays q c₂ at₂;
          bound = r.bound;
          calls = r.calls;
        },
      )

  -- Let there be more fuel than events arrive in a round.
  -- Let the monitor be consistent, with an empty queue and the handler of `cpu_hopper`, and let the
  -- events of all rounds be about new processes, different from each other and fewer than the free
  -- CPUs. Let the system have been asked to put every process on the CPU that the tables have for it.
  -- Then the thread ends without an exception, the queue is empty, the tables are consistent, every
  -- process that had a CPU or was created has a CPU, and the last CPU that the system was asked to give
  -- it is that one. The thread keeps whatever calls of `sched_setaffinity` keep.
  pub run_thread-Served :
      (fuel : ℕ) (rounds : List (List ExecEvent)) (s : Running W) (m : ExecMonitor (Running W))
      → m.event_handlers ≡ handlers posix
      → Fits fuel rounds
      → Inv s.self
      → Bound affinity s.self s.world
      → Q s.world
      → Fresh s.self (concat rounds)
      → length (concat rounds) < free s.self.allocated_cpus
      → (s' : Running W) × (run_thread (cpu_hopper posix) fuel rounds (with [] s m)
          ≡ some (ok tt, with [] s' m))
        × Served (concat rounds) s s'
  unfolding cpu_hopper
  run_thread-Served fuel rounds s m same fits v b q f room =
      let (s', runs, done) = all_rounds-Served rounds s v b q f room in
      (s', run_thread-all_rounds (cpu_hopper posix) fuel rounds s m fits ∙ rw (same, runs), done)

module _ {W : Type 0} (posix : Posix W) where
  -- The constructor of `cpu_hopper` registers that handler.
  pub register-handlers :
      (s : Running W)
      → (register_event_handler process_created (on_created posix) (construct s)).1.event_handlers
        ≡ handlers posix
  unfolding register_event_handler construct lookup insert_new
  register-handlers s = refl
