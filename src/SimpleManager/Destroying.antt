-- ===== src/SimpleManager/Destroying.antt =====
-- The destruction of a simple manager: exec_manager/simple.h and core/exec_manager.cc declare no more
-- than the destructor by default, which destroys the members, the last one first.
use aser.Prelude.{
  ℕ, ℤ, pos, ◌≡◌, refl, ap, ◌∙◌, true, false, List, [], ◌∷◌, Option, none, some, map, not, ◌||◌,
  Bool,
}
use aser.Outcome.{Result, aborted, ok, stop}
use aser.Libc.{Posix}
use aser.ProcessClass.{ProcessClass}
use aser.ExecMonitor.{ThreadState, no_thread, running}
use aser.Process.{started}
use aser.Process
use aser.Process.Pipe.Ends.{close_pipe, pipe_destroyed}
use aser.Process.Sync.{on_go, on_ready}
use aser.Process.Sync.Object.{SyncObject, sync_class, attach, detach, on_object}
use aser.Process.Sync.Object
use aser.SimpleManager.{SimpleManager}

or_true : (b : Bool) → (b || true) ≡ true
or_true true = refl
or_true false = refl

module _ {P W : Type 0} (c : ProcessClass P W) where
  -- A destructor that does not return ends the program.
  slot_destroyed : (W → Result (Unit {0}) × W) → Result (Unit {0}) × W → Result (Unit {0}) × W
  slot_destroyed rest (ok _, w) = rest w
  slot_destroyed rest (stop x, w) = (stop x, w)

  -- `processes_`: each pointer is the only one to its object.
  unfoldable pub destroy_slots : List (Option P) → W → Result (Unit {0}) × W
  unfolding slot_destroyed
  destroy_slots [] w = (ok tt, w)
  destroy_slots (none ∷ ps) w = destroy_slots ps w
  destroy_slots (some p ∷ ps) w = slot_destroyed (destroy_slots ps) (c.destroy p w)

  -- The thread of the monitor, which must not run any more.
  thread_destroyed : ThreadState → W → Result (Unit {0}) × W
  thread_destroyed no_thread w = (ok tt, w)
  thread_destroyed running w = (stop aborted, w)

  -- `exec_monitor_`, after the processes; `destroy_derived` is the destructor of the derived monitor.
  monitor_destroyed :
      {D : Type 0}
      → (D → W → W)
      → SimpleManager P D W
      → Result (Unit {0}) × W
      → Result (Unit {0}) × W
  unfolding thread_destroyed
  monitor_destroyed destroy_derived s (ok _, w) =
      thread_destroyed s.base.exec_monitor.thread (destroy_derived s.base.exec_monitor.derived w)
  monitor_destroyed destroy_derived s (stop x, w) = (stop x, w)

  unfoldable pub destroy : {D : Type 0} → (D → W → W) → SimpleManager P D W → Result (Unit {0}) × W
  unfolding monitor_destroyed
  destroy destroy_derived s =
      monitor_destroyed destroy_derived s (destroy_slots s.processes s.system)

abbrev pub AllTerminated : {W : Type 0} → List (SyncObject W) → Type 0
AllTerminated [] = Unit
AllTerminated (o ∷ os) = (o.process.terminated ≡ true) × AllTerminated os

module _ {W : Type 0} (posix : Posix W) where
  -- The pipes of the objects, in the order of the slots.
  abbrev pub close_all : List (SyncObject W) → W → W
  close_all [] w = w
  close_all (o ∷ os) w =
      close_all os (close_pipe posix o.go_pipe (close_pipe posix o.child_ready_pipe w))

  module _ (closes : (fd : ℤ) (w : W) → (posix.close fd w).0 ≡ pos 0) (cloexec status : ℤ)
      (garbage : ℕ) where
    object_destroyed :
        (o : SyncObject W) (w : W)
        → o.process.terminated ≡ true
        → (sync_class posix cloexec status garbage).destroy o w
          ≡ (ok tt, close_pipe posix o.go_pipe (close_pipe posix o.child_ready_pipe w))
    unfolding sync_class on_object attach detach Object.destroy on_ready on_go Process.destroy
        started
    object_destroyed o w over =
        let (q, ready) = pipe_destroyed posix closes o.child_ready_pipe w in
        let (q', go) =
          pipe_destroyed posix closes o.go_pipe (close_pipe posix o.child_ready_pipe w) in
        let gone : (not (started o.process) || o.process.terminated) ≡ true =
          ap (λ t. not (started o.process) || t) over ∙ or_true (not (started o.process)) in
        rw (ready, go, gone) refl

    slots_destroyed :
        (os : List (SyncObject W)) (w : W)
        → AllTerminated os
        → destroy_slots (sync_class posix cloexec status garbage) (map some os) w
          ≡ (ok tt, close_all os w)
    unfolding destroy_slots
    slots_destroyed [] w over = refl
    slots_destroyed (o ∷ os) w over =
        rw (object_destroyed o w over.0, destroy_slots)
          (slots_destroyed os (close_pipe posix o.go_pipe (close_pipe posix o.child_ready_pipe w))
            over.1)

    -- Let the system close every descriptor. Let each slot have a process of class `sync_process` that
    -- counts as terminated, and let the monitor have no thread. Then the destructor of the manager
    -- returns. It has closed the ends of the pipes that were open, in the order of the slots, for each
    -- process the pipe on which the child was ready before the go pipe, and has done nothing else to the
    -- system before the monitor is destroyed: no process is signalled or waited for.
    pub destroy-close_all :
        {D : Type 0} (destroy_derived : D → W → W) (s : SimpleManager (SyncObject W) D W)
        (os : List (SyncObject W))
        → s.processes ≡ map some os
        → AllTerminated os
        → s.base.exec_monitor.thread ≡ no_thread
        → destroy (sync_class posix cloexec status garbage) destroy_derived s
          ≡ (ok tt, destroy_derived s.base.exec_monitor.derived (close_all os s.system))
    unfolding destroy
    destroy-close_all destroy_derived s os slots over idle =
        let all =
          ap (λ ps. destroy_slots (sync_class posix cloexec status garbage) ps s.system) slots
          ∙ slots_destroyed os s.system over in
        rw (all, destroy)
          (ap
            (λ t.
              thread_destroyed (sync_class posix cloexec status garbage) t
                (destroy_derived s.base.exec_monitor.derived (close_all os s.system)))
            idle)
