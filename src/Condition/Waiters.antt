-- ===== src/Condition/Waiters.antt =====
-- Who waits at a condition, and who has passed it.
use aser.Prelude.{◌<◌, ◌≡◌, refl, Bool, true, false, arith}
use aser.Condition.{
  construct, mark_ready, Threads, idle, notify_all, Step, passes, sleeps, marks, signals, leaves,
  sleeps_again, wakes, Reach, start, later,
}

-- A flag that is set with a sleeper has a thread that is about to wake it; nobody has passed a flag
-- that is not set, and nobody is about to wake anybody.
record Inv (t : Threads) : Type 0 where
  asleep : t.shared.ready ≡ true → t.notifying ≡ 0 → t.sleeping ≡ 0
  not_passed : t.shared.ready ≡ false → t.passed ≡ 0

Step-Inv : {t u : Threads} → Step t u → Inv t → Inv u
unfolding mark_ready notify_all
Step-Inv (passes r) v = record { asleep = v.asleep; not_passed = λ h. ground arith }
Step-Inv (sleeps r) v = record { asleep = λ h. ground arith; not_passed = v.not_passed }
Step-Inv marks v = record { asleep = λ h z. absurd (omega arith); not_passed = λ h. cc }
Step-Inv (signals n e) v = record { asleep = λ h z. refl; not_passed = v.not_passed }
Step-Inv (leaves n e r) v = record { asleep = v.asleep; not_passed = λ h. ground arith }
Step-Inv (sleeps_again n e r) v = record { asleep = λ h. ground arith; not_passed = v.not_passed }
Step-Inv (wakes n e) v = record {
  asleep = λ h z. absurd (omega (arith, v.asleep h z));
  not_passed = v.not_passed;
}

Reach-Inv : {t : Threads} → Reach t → Inv t
unfolding idle construct
Reach-Inv start = record { asleep = λ h z. refl; not_passed = λ h. refl }
Reach-Inv (later r s) = Step-Inv s (Reach-Inv r)

-- In every reachable state in which the flag is set and no call of `notify` is under way, no thread
-- sleeps: none that waits misses the notification.
pub no_one_left_asleep :
    {t : Threads} → Reach t → t.shared.ready ≡ true → t.notifying ≡ 0 → t.sleeping ≡ 0
no_one_left_asleep r = (Reach-Inv r).asleep

-- In every reachable state in which a call of `wait` has returned, the flag is set.
passed-ready : {t : Threads} → Reach t → 0 < t.passed → t.shared.ready ≡ true
passed-ready {t} r h = ready_cases t.shared.ready (Reach-Inv r).not_passed
  where
    ready_cases : (b : Bool) → (b ≡ false → t.passed ≡ 0) → b ≡ true
    ready_cases true n = refl
    ready_cases false n = absurd (omega (arith, n refl))
