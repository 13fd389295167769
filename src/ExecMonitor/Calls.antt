-- ===== src/ExecMonitor/Calls.antt =====
-- The calls of a manager on its monitor, when their assertions hold.
use aser.Prelude.{◌≡◌, ap, ◌∙◌, Bool, true}
use aser.Outcome.{Exec, Result, ok, assert, ◌>>◌}
use aser.ExecMonitor.{
  ExecMonitor, Virtual, no_thread, running, prepare, finalize, start, join, launch, join_thread,
  on_derived,
}

assert_then :
    {S : Type 0} (b : Bool) (n : Exec S (Unit {0})) (s : S) → b ≡ true → (assert b >> n) s ≡ n s
assert_then b n s h = ap (λ x. (assert x >> n) s) h

module _ {D : Type 0} where
  on_derived_lem :
      (m : Exec D (Unit {0})) (s : ExecMonitor D) (d : D)
      → m s.derived ≡ (ok tt, d)
      → on_derived m s ≡ (ok tt, record s { derived = d })
  unfolding on_derived
  on_derived_lem m s d e =
      ap
        (λ (r : Result (Unit {0}) × D).
          let t : Result (Unit {0}) × ExecMonitor D = (r.0, record s { derived = r.1 }) in t)
        e

  pub prepare_lem :
      (virtual : Virtual D) (s : ExecMonitor D) (d : D)
      → s.initialized ≡ true
      → virtual.prepare_impl s.derived ≡ (ok tt, d)
      → prepare virtual s ≡ (ok tt, record s { derived = d })
  unfolding prepare
  prepare_lem virtual s d h e =
      assert_then s.initialized (on_derived virtual.prepare_impl) s h
      ∙ on_derived_lem virtual.prepare_impl s d e

  pub finalize_lem :
      (virtual : Virtual D) (s : ExecMonitor D) (d : D)
      → s.initialized ≡ true
      → virtual.finalize_impl s.derived ≡ (ok tt, d)
      → finalize virtual s ≡ (ok tt, record s { derived = d })
  unfolding finalize
  finalize_lem virtual s d h e =
      assert_then s.initialized (on_derived virtual.finalize_impl) s h
      ∙ on_derived_lem virtual.finalize_impl s d e

  pub start_lem :
      (s : ExecMonitor D)
      → s.initialized ≡ true
      → s.thread ≡ no_thread
      → start s ≡ (ok tt, record s { thread = running })
  unfolding start launch
  start_lem s h idle = assert_then s.initialized (launch s.thread) s h ∙ ap (λ t. launch t s) idle

  pub join_lem :
      (s : ExecMonitor D)
      → s.initialized ≡ true
      → s.thread ≡ running
      → join s ≡ (ok tt, record s { thread = no_thread })
  unfolding join join_thread
  join_lem s h busy =
      assert_then s.initialized (join_thread s.thread) s h ∙ ap (λ t. join_thread t s) busy
