-- ===== src/Timer/Cancelling.antt =====
-- When the callback of a timer is called.
use aser.Prelude.{◌≡◌, ◌≢◌, ◌≤◌, ◌⊎◌, inl, inr, refl, Bool, true, false, arith, ◌∙◌}
use aser.Timer.{
  Timer, Step, Steps, RunState, waiting, returned, Destruction, alive, signalled, joined, expires,
  notices, cancels, joins, none, more, construct, wait_returns, cancel, join,
}

-- A thread that waits has not called the callback; a timer that is being destroyed is canceled; one
-- that is joined has no thread.
record Inv (t : Timer) : Type 0 where
  at_most_one : t.calls ≤ 1
  not_yet : t.run_state ≡ waiting → t.calls ≡ 0
  is_canceled : t.canceled ≡ false → t.destruction ≡ alive
  no_thread : t.destruction ≡ joined → t.run_state ≡ returned

returned-Inv : (b : Bool) (t : Timer) → t.run_state ≡ waiting → Inv t → Inv (wait_returns b t)
unfolding wait_returns
returned-Inv true t w v = record {
  at_most_one = v.at_most_one;
  not_yet = λ h. cc;
  is_canceled = v.is_canceled;
  no_thread = λ h. refl;
}
returned-Inv false t w v = record {
  at_most_one = omega (arith, v.not_yet w);
  not_yet = λ h. cc;
  is_canceled = v.is_canceled;
  no_thread = λ h. refl;
}

Step-Inv : {t u : Timer} → Step t u → Inv t → Inv u
unfolding cancel join wait_returns
Step-Inv {t} (expires w) v = returned-Inv t.canceled t w v
Step-Inv {t} (notices w c) v = record {
  at_most_one = v.at_most_one;
  not_yet = λ h. cc;
  is_canceled = v.is_canceled;
  no_thread = λ h. refl;
}
Step-Inv {t} (cancels a) v = record {
  at_most_one = v.at_most_one;
  not_yet = v.not_yet;
  is_canceled = λ h. cc;
  no_thread = λ h. cc;
}
Step-Inv {t} (joins s r) v = record {
  at_most_one = v.at_most_one;
  not_yet = v.not_yet;
  is_canceled = λ h. ground arith;
  no_thread = λ h. r;
}

construct-Inv : Inv construct
unfolding construct
construct-Inv = record {
  at_most_one = omega arith;
  not_yet = λ h. refl;
  is_canceled = λ h. refl;
  no_thread = λ h. cc;
}

Steps-Inv : {t : Timer} → Steps construct t → Inv t
Steps-Inv none = construct-Inv
Steps-Inv (more s st) = Step-Inv st (Steps-Inv s)

returned_canceled :
    (b : Bool) (t : Timer)
    → b ≡ true
    → ((wait_returns b t).canceled ≡ t.canceled) × ((wait_returns b t).calls ≡ t.calls)
unfolding wait_returns
returned_canceled true t c = (refl, refl)
returned_canceled false t c = cc

Step-canceled :
    {t u : Timer} → Step t u → t.canceled ≡ true → (u.canceled ≡ true) × (u.calls ≡ t.calls)
unfolding cancel join wait_returns
Step-canceled {t} (expires w) c =
    let (same, calls) = returned_canceled t.canceled t c in (same ∙ c, calls)
Step-canceled (notices w _) c = (c, refl)
Step-canceled (cancels a) c = (refl, refl)
Step-canceled (joins s r) c = (c, refl)

Steps-canceled :
    {t u : Timer} → Steps t u → t.canceled ≡ true → (u.canceled ≡ true) × (u.calls ≡ t.calls)
Steps-canceled none c = (c, refl)
Steps-canceled (more s st) c =
    let (c₁, e₁) = Steps-canceled s c in let (c₂, e₂) = Step-canceled st c₁ in (c₂, e₂ ∙ e₁)

-- A timer calls its callback at most once; and once its destructor has set `canceled_`, no later
-- step calls it.
pub callback_calls :
    {t u : Timer}
    → Steps construct t
    → Steps t u
    → t.canceled ≡ true
    → (t.calls ≤ 1) × (u.calls ≡ t.calls)
callback_calls r s c = ((Steps-Inv r).at_most_one, (Steps-canceled s c).1)

-- From every reachable state in which the destructor has begun, steps of the thread and of the
-- destructor lead to its end, where the thread has returned: the `join` does not wait forever.
pub destruction_ends :
    {t : Timer}
    → Steps construct t
    → t.canceled ≡ true
    → t.destruction ≢ alive
    → (u : Timer) × Steps t u
      × (u.destruction ≡ joined)
      × (u.run_state ≡ returned)
      × (u.calls ≡ t.calls)
unfolding join wait_returns
destruction_ends {t} r c d = elim (phase t.destruction) [
  | inl a ↦ absurd (d a)
  | inr (inr j) ↦ (t, none, j, (Steps-Inv r).no_thread j, refl)
  | inr (inl s) ↦ elim (running_or_not t.run_state) [
    | inl w ↦ (
      join (wait_returns true t),
      more (more none (notices w c)) (joins s refl),
      refl,
      refl,
      refl,
    )
    | inr e ↦ (join t, more none (joins s e), refl, e, refl)
  ]
]
  where
    phase : (d : Destruction) → (d ≡ alive) ⊎ ((d ≡ signalled) ⊎ (d ≡ joined))
    phase alive = inl refl
    phase signalled = inr (inl refl)
    phase joined = inr (inr refl)

    running_or_not : (r : RunState) → (r ≡ waiting) ⊎ (r ≡ returned)
    running_or_not waiting = inl refl
    running_or_not returned = inr refl
