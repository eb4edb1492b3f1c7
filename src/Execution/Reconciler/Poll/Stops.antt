-- ===== src/Execution/Reconciler/Poll/Stops.antt =====
-- A broker that cannot be read stops the trading.
use stevehft.Prelude.{
  ℕ, suc, ◌≤◌, ◌≡◌, refl, sym, subst, ap, arith, Bool, false, Option, none, some, if_lem,
}
use stevehft.Prelude.Float.{Float}
use stevehft.Execution.Ledger.Fills.{Formats}
use stevehft.Execution.Reconciler.Sync.{Broker}
use stevehft.Execution.Reconciler.Poll.{
  Reconciler, has_failures, broker_connected, reconciliation_health, rebaseline, reconcile_mismatch,
  poll_waiting, poll_executions, poll_portfolio, poll_health, archive_audits, poll_server_state,
}
use stevehft.Risk.KillSwitch.{KillSwitchController, kill_switch, update}
use stevehft.Risk.KillSwitch.Modes.{update_lem}

-- The mode, if there is a kill switch.
abbrev pub IsStopped : {T W : Type 0} → Reconciler T W → Type 0
IsStopped s = (k : KillSwitchController) × (s.kill_switch ≡ some k) × (k.mode ≡ kill_switch)

module _ {T W : Type 0} where
  reached :
      (answer : Option Bool) (s : Reconciler T W)
      → s.config.max_waiting_list_sync_failures ≤ s.waiting_list_sync_failures
      → broker_connected answer s ≡ false
  unfolding broker_connected
  reached answer s h = ground arith

  -- The failures have reached their limit.
  abbrev IsUnreadable : Reconciler T W → Type 0
  IsUnreadable s = s.config.max_waiting_list_sync_failures ≤ s.waiting_list_sync_failures

  rebaseline-IsUnreadable : (s : Reconciler T W) → IsUnreadable s → IsUnreadable (rebaseline s)
  unfolding rebaseline
  rebaseline-IsUnreadable s h = h

  within :
      (k : Option KillSwitchController) (s : Reconciler T W)
      → IsUnreadable s
      → IsUnreadable (reconcile_mismatch k s)
  within none s h = h
  within (some k) s h =
      if_lem IsUnreadable (has_failures s) s (rebaseline s) (λ e. h)
        (λ e. rebaseline-IsUnreadable s h)

module _ {T W : Type 0} ⦃f : Float W⦄ ⦃fmt : Formats⦄ (broker : Broker T W) where
  unreadable :
      (now_ns : ℕ) (s : Reconciler T W)
      → IsUnreadable s
      → IsUnreadable
          (archive_audits now_ns (poll_portfolio broker now_ns (poll_executions broker now_ns s)))
  unfolding archive_audits poll_portfolio poll_executions
  unreadable now_ns s h = h

  poll_waiting-failed :
      (now_ns : ℕ) (s : Reconciler T W)
      → (broker.get_waiting_list s.trader).0 ≡ none
      → ((poll_waiting broker now_ns s).waiting_list_sync_failures
          ≡ suc s.waiting_list_sync_failures)
        × ((poll_waiting broker now_ns s).config ≡ s.config)
  unfolding poll_waiting
  poll_waiting-failed now_ns s e = rw e (refl, refl)

  health-IsStopped :
      (k : KillSwitchController) (now_ns : ℕ) (s : Reconciler T W)
      → s.config.max_waiting_list_sync_failures ≤ s.waiting_list_sync_failures
      → IsStopped (poll_health broker (some k) now_ns s)
  unfolding reconciliation_health
  health-IsStopped k now_ns s h =
      let (health, s') = reconciliation_health broker now_ns s in
      let clock = (broker.monotonic_ns s'.trader).0 in
      (
        update health none clock k,
        refl,
        (update_lem health clock k).0 (reached (broker.is_connected s.trader).0 s h),
      )

  -- With a kill switch, a poll in which the waiting list cannot be read, and with which the failures in
  -- a row reach the limit of the settings, ends in the mode `kill_switch`, whatever else the broker
  -- answers.
  pub poll_server_state-IsStopped :
      (s : Reconciler T W) (k : KillSwitchController)
      → s.kill_switch ≡ some k
      → (broker.get_waiting_list (broker.monotonic_ns s.trader).1).0 ≡ none
      → s.config.max_waiting_list_sync_failures ≤ suc s.waiting_list_sync_failures
      → IsStopped (poll_server_state broker s)
  unfolding poll_server_state
  poll_server_state-IsStopped s k ek ew h =
      let (now_ns, t) = broker.monotonic_ns s.trader in
      let begun = record s { trader = t } in
      let waited = poll_waiting broker now_ns begun in
      let polled = poll_portfolio broker now_ns (poll_executions broker now_ns waited) in
      let kept = archive_audits now_ns polled in
      let (count, config) = poll_waiting-failed now_ns begun ew in
      subst (λ q. IsStopped (poll_health broker q now_ns (reconcile_mismatch q kept))) (sym ek)
        (health-IsStopped k now_ns (reconcile_mismatch (some k) kept) (
          within (some k) kept (
            unreadable now_ns waited
              (omega (arith, ap (λ c. c.max_waiting_list_sync_failures) config, count)))))
