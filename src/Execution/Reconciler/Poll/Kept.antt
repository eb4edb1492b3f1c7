-- ===== src/Execution/Reconciler/Poll/Kept.antt =====
-- A whole poll: the waiting list, the executions, the archive and the baseline together.
use stevehft.Prelude.{ℕ, String, Option, none, some, List, [], ◌∷◌, max, if_lem}
use stevehft.Prelude.Int.{◌-ℤ◌, abs}
use stevehft.Prelude.Float.{Float}
use stevehft.Execution.Ledger.{OrderLedger}
use stevehft.Execution.Ledger.Fills.{Formats}
use stevehft.Execution.Ledger.Conserved.{IsConserved}
use stevehft.Execution.Ledger.Conserved.Moves.{
  get_net_executed_lots-IsConserved, apply_position_baseline-IsConserved,
}
use stevehft.Execution.Ledger.Archive.Balance.{archive_completed_audits-IsConserved}
use stevehft.Execution.Ledger.Net.{get_net_executed_lots}
use stevehft.Execution.Reconciler.Sync.{Broker, RawOrder}
use stevehft.Execution.Reconciler.Poll.{
  Reconciler, symbols_of, mismatch_loop, rebaselined_symbols, reconciliation_health, has_failures,
  rebaseline, reconcile_mismatch, archive_audits, note_waiting, poll_waiting, poll_executions,
  poll_portfolio, poll_health, poll_server_state,
}
use stevehft.Execution.Reconciler.Poll.Balance.{
  sync_waiting_orders-IsConserved, sync_executions-IsConserved,
}
use stevehft.Risk.Inventory.{PortfolioLedger, get_net_lots}
use stevehft.Risk.KillSwitch.{KillSwitchController}

module _ {W : Type 0} where
  mismatch_loop-IsConserved :
      (symbols : List String) (worst : ℕ) (p : PortfolioLedger W) (l : OrderLedger W)
      → IsConserved l
      → IsConserved (mismatch_loop worst symbols p l).1
  unfolding mismatch_loop
  mismatch_loop-IsConserved [] worst p l v = v
  mismatch_loop-IsConserved (symbol ∷ rest) worst p l v =
      let (local, l') = get_net_executed_lots symbol l in
      mismatch_loop-IsConserved rest (max worst (abs (get_net_lots symbol p -ℤ local))) p l'
        (get_net_executed_lots-IsConserved symbol l v)

  rebaselined_symbols-IsConserved :
      (symbols : List String) (p : PortfolioLedger W) (l : OrderLedger W)
      → IsConserved l
      → IsConserved (rebaselined_symbols symbols p l).1
  unfolding rebaselined_symbols
  rebaselined_symbols-IsConserved [] p l v = v
  rebaselined_symbols-IsConserved (symbol ∷ rest) p l v =
      rebaselined_symbols-IsConserved rest p (get_net_executed_lots symbol l).1
        (get_net_executed_lots-IsConserved symbol l v)

module _ {T W : Type 0} where
  abbrev Keeps : Reconciler T W → Type 0
  Keeps s = IsConserved s.order_ledger

  rebaseline-Keeps : (s : Reconciler T W) → Keeps s → Keeps (rebaseline s)
  unfolding rebaseline
  rebaseline-Keeps s v =
      let p = s.portfolio_ledger in
      let (symbols, l) = rebaselined_symbols (symbols_of s.order_ledger p) p s.order_ledger in
      apply_position_baseline-IsConserved p.positions symbols l
        (rebaselined_symbols-IsConserved (symbols_of s.order_ledger p) p s.order_ledger v)

  reconcile_mismatch-Keeps :
      (k : Option KillSwitchController) (s : Reconciler T W)
      → Keeps s
      → Keeps (reconcile_mismatch k s)
  reconcile_mismatch-Keeps none s v = v
  reconcile_mismatch-Keeps (some k) s v =
      if_lem Keeps (has_failures s) s (rebaseline s) (λ e. v) (λ e. rebaseline-Keeps s v)

module _ {T W : Type 0} ⦃f : Float W⦄ ⦃fmt : Formats⦄ (broker : Broker T W) where
  note_waiting-Keeps :
      (waiting : Option (List (Option (RawOrder W)))) (now_ns : ℕ) (s : Reconciler T W)
      → Keeps s
      → Keeps (note_waiting broker waiting now_ns s)
  note_waiting-Keeps none now_ns s v = v
  note_waiting-Keeps (some waiting) now_ns s v =
      sync_waiting_orders-IsConserved s.config waiting now_ns s.parse_failures s.order_ledger v

  poll_health-Keeps :
      (k : Option KillSwitchController) (now_ns : ℕ) (s : Reconciler T W)
      → Keeps s
      → Keeps (poll_health broker k now_ns s)
  unfolding reconciliation_health
  poll_health-Keeps none now_ns s v = v
  poll_health-Keeps (some k) now_ns s v =
      let p = s.portfolio_ledger in
      mismatch_loop-IsConserved (symbols_of s.order_ledger p) 0 p s.order_ledger v

  poll_waiting-Keeps :
      (now_ns : ℕ) (s : Reconciler T W) → Keeps s → Keeps (poll_waiting broker now_ns s)
  unfolding poll_waiting
  poll_waiting-Keeps now_ns s v =
      let (waiting, t) = broker.get_waiting_list s.trader in
      note_waiting-Keeps waiting now_ns (record s { trader = t }) v

  poll_executions-Keeps :
      (now_ns : ℕ) (s : Reconciler T W) → Keeps s → Keeps (poll_executions broker now_ns s)
  unfolding poll_executions
  poll_executions-Keeps now_ns s v =
      sync_executions-IsConserved broker now_ns s.order_ledger s.trader v

  archived-Keeps :
      (now_ns : ℕ) (s : Reconciler T W)
      → Keeps s
      → Keeps (archive_audits now_ns (poll_portfolio broker now_ns s))
  unfolding archive_audits poll_portfolio
  archived-Keeps now_ns s v = archive_completed_audits-IsConserved now_ns s.order_ledger v

  -- Whatever the broker answers, a poll keeps the ledger balanced: the session's executed shares and
  -- trades are those of the audits that are left and of the archive together.
  pub poll_server_state-IsConserved :
      (s : Reconciler T W)
      → IsConserved s.order_ledger
      → IsConserved (poll_server_state broker s).order_ledger
  unfolding poll_server_state
  poll_server_state-IsConserved s v =
      let (now_ns, t) = broker.monotonic_ns s.trader in
      let begun = record s { trader = t } in
      let waited = poll_waiting broker now_ns begun in
      let booked = poll_executions broker now_ns waited in
      let kept = archive_audits now_ns (poll_portfolio broker now_ns booked) in
      poll_health-Keeps s.kill_switch now_ns (reconcile_mismatch s.kill_switch kept) (
        reconcile_mismatch-Keeps s.kill_switch kept (
          archived-Keeps now_ns booked
            (poll_executions-Keeps now_ns waited (poll_waiting-Keeps now_ns begun v))))
