-- ===== src/Queue/Wakeups.antt =====
-- No value is lost or reordered, and no wake-up is lost.
use mathlib.Core.List.{append_assoc}
use aser.Prelude.{
  ◌+◌, ◌≤◌, ◌<◌, ◌≡◌, refl, sym, ap, ◌∙◌, ◌⊎◌, inl, List, [], ◌∷◌, ◌++◌, some, none, arith, length,
  length-append,
}
use aser.Queue.{ConcurrentQueue, empty, push, pop}
use aser.Queue.Waiting.{
  Threads, notify_one, Step, Reach, pushes, notifies, finds, sleeps, takes, resumes, wakes,
  gives_up, start, later,
}

module _ {A : Type 0} where
  pub record Inv (t : Threads A) : Type 0 where
    pub in_order : t.popped ++ t.shared.queue ≡ t.pushed
    pub served : (t.sleeping ≡ 0) ⊎ (length t.shared.queue ≤ t.notifying + t.woken)

  pop-none : (q : ConcurrentQueue A) → pop q ≡ none → q.queue ≡ []
  unfolding pop
  pop-none q e = ground arith

  pop-some : (q r : ConcurrentQueue A) (a : A) → pop q ≡ some (a, r) → q.queue ≡ a ∷ r.queue
  unfolding pop
  pop-some q r a e = ground arith

  front :
      (done : List A) (a : A) (r q : ConcurrentQueue A) {all : List A}
      → pop q ≡ some (a, r)
      → done ++ q.queue ≡ all
      → (done ++ a ∷ []) ++ r.queue ≡ all
  front done a r q e h =
      append_assoc done (a ∷ []) r.queue ∙ (ap (◌++◌ done) (sym (pop-some q r a e)) ∙ h)

  Step-in_order :
      {t u : Threads A}
      → Step t u
      → t.popped ++ t.shared.queue ≡ t.pushed
      → u.popped ++ u.shared.queue ≡ u.pushed
  Step-in_order {t} (pushes a) h =
      unfold push in (sym (append_assoc t.popped t.shared.queue (a ∷ [])) ∙ ap (λ l. l ++ a ∷ []) h)
  Step-in_order {t} (notifies n e) h = unfold notify_one in ground arith
  Step-in_order {t} (finds a r e) h = front t.popped a r t.shared e h
  Step-in_order (sleeps e) h = h
  Step-in_order {t} (takes n a r w e) h = front t.popped a r t.shared e h
  Step-in_order (resumes n w e) h = h
  Step-in_order (wakes n w) h = h
  Step-in_order (gives_up n w e) h = h

  Step-served :
      {t u : Threads A}
      → Step t u
      → (t.sleeping ≡ 0) ⊎ (length t.shared.queue ≤ t.notifying + t.woken)
      → (u.sleeping ≡ 0) ⊎ (length u.shared.queue ≤ u.notifying + u.woken)
  Step-served {t} (pushes a) h =
      unfold push in ground (arith, length-append t.shared.queue (a ∷ []))
  Step-served (notifies n e) h = unfold notify_one in ground arith
  Step-served {t} (finds a r e) h = ground (arith, pop-some t.shared r a)
  Step-served {t} (sleeps e) h = ground (arith, pop-none t.shared)
  Step-served {t} (takes n a r w e) h = ground (arith, pop-some t.shared r a)
  Step-served {t} (resumes n w e) h = ground (arith, pop-none t.shared)
  Step-served (wakes n w) h = ground arith
  Step-served {t} (gives_up n w e) h = ground (arith, pop-none t.shared)

  Reach-Inv : {t : Threads A} → Reach t → Inv t
  Reach-Inv start = record { in_order = unfold empty in refl; served = inl refl }
  Reach-Inv (later r st) =
      let v = Reach-Inv r in
      record { in_order = Step-in_order st v.in_order; served = Step-served st v.served }

  -- In every reachable state the values that were got, followed by the values in the queue, are the
  -- values that were put in, in their order.
  pub popped-append-queue : {t : Threads A} → Reach t → t.popped ++ t.shared.queue ≡ t.pushed
  popped-append-queue r = (Reach-Inv r).in_order

  -- In every reachable state in which a thread sleeps, each value in the queue has a thread that is
  -- about to notify or to look at the queue: no value waits while every thread sleeps.
  pub no_lost_wakeup :
      {t : Threads A} → Reach t → 0 < t.sleeping → length t.shared.queue ≤ t.notifying + t.woken
  no_lost_wakeup r h = ground (arith, (Reach-Inv r).served)
