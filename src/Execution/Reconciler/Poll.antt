-- ===== src/Execution/Reconciler/Poll.antt =====
-- src/execution/reconciler.py, `poll_server_state`: one poll of the broker, its health and the mode
-- that follows from it.
pub mod Stops
pub mod Balance
pub mod Kept
mod Tests
use stevehft.Prelude.{
  ℕ, suc, ◌-◌, ◌/◌, max, String, Bool, true, false, not, ◌&&◌, ◌||◌, Option, none, some, List, [],
  ◌∷◌, ◌++◌, select, any, ltb, leb, string_eq, ◌==◌, if◌then◌else◌,
}
use stevehft.Prelude.Int.{ℤ, pos, ◌-ℤ◌, abs, beq_ℤ, int_eq, trunc_div}
use stevehft.Prelude.Dict.{keys}
use stevehft.Prelude.Float.{Float}
use stevehft.Execution.Orders.{WorkingOrder}
use stevehft.Execution.Ledger.{OrderLedger}
use stevehft.Execution.Ledger.Live.{live_orders}
use stevehft.Execution.Ledger.Fills.{Formats}
use stevehft.Execution.Ledger.Archive.{archive_completed_audits}
use stevehft.Execution.Ledger.Net.{get_net_executed_lots, apply_position_baseline}
use stevehft.Execution.Reconciler.{ReconciliationConfig, ns_per_ms}
use stevehft.Execution.Reconciler.Sync.{Broker, RawOrder}
use stevehft.Execution.Reconciler.Sync.Waiting.{sync_waiting_orders, failures_after}
use stevehft.Execution.Reconciler.Sync.Executions.{sync_executions}
use stevehft.Execution.Reconciler.Sync.Portfolio.{sync_portfolio}
use stevehft.Risk.Inventory.{PortfolioLedger, get_net_lots}
use stevehft.Risk.KillSwitch.{ReconciliationHealth, KillSwitchController, update}

pub record Reconciler (T W : Type 0) : Type 0 where
  pub trader : T
  pub order_ledger : OrderLedger W
  pub portfolio_ledger : PortfolioLedger W
  pub config : ReconciliationConfig W
  pub kill_switch : Option KillSwitchController
  pub waiting_list_sync_failures : ℕ
  pub execution_sync_failures : ℕ
  pub portfolio_sync_failures : ℕ
  pub parse_failures : ℕ

module _ {W : Type 0} where
  -- The age of the live order that was updated longest ago; a clock that runs backwards counts as 0.
  abbrev pub oldest : ℕ → List (WorkingOrder W) → ℕ
  oldest ts_ns [] = 0
  oldest ts_ns (o ∷ os) =
      let rest = oldest ts_ns os in
      if ltb 0 o.last_update_ts_ns
      then max ((ts_ns - o.last_update_ts_ns) / ns_per_ms) rest
      else rest

  unfoldable pub portfolio_stale : ℕ → PortfolioLedger W → ℤ
  portfolio_stale ts_ns p =
      if ltb 0 p.summary.last_update_ts_ns
      then trunc_div (pos ts_ns -ℤ pos p.summary.last_update_ts_ns) ns_per_ms
      else pos 0

  -- The symbols of the ledger and the portfolio, each once.
  unfoldable pub symbols_of : OrderLedger W → PortfolioLedger W → List String
  symbols_of l p =
      keys l.by_symbol
      ++ select (λ s. not (any (λ k. k == s) (keys l.by_symbol))) (keys p.positions)

  -- The largest mismatch. Looking orders up may note them in the ledger.
  unfoldable pub mismatch_loop :
      ℕ → List String → PortfolioLedger W → OrderLedger W → ℕ × OrderLedger W
  mismatch_loop worst [] p l = (worst, l)
  mismatch_loop worst (symbol ∷ rest) p l =
      let (local, l) = get_net_executed_lots symbol l in
      mismatch_loop (max worst (abs (get_net_lots symbol p -ℤ local))) rest p l

  -- The symbols that differ from the broker, and have no live order that could explain it.
  abbrev pub is_empty : List (WorkingOrder W) → Bool
  is_empty [] = true
  is_empty (o ∷ os) = false

  unfoldable pub rebaselined_symbols :
      List String → PortfolioLedger W → OrderLedger W → List String × OrderLedger W
  rebaselined_symbols [] p l = ([], l)
  rebaselined_symbols (symbol ∷ rest) p l =
      let (local, l) = get_net_executed_lots symbol l in
      let (symbols, l') = rebaselined_symbols rest p l in
      (
        (if not (beq_ℤ (get_net_lots symbol p -ℤ local) (pos 0))
              && is_empty (live_orders (some symbol) none l)
            then symbol ∷ symbols
            else symbols),
        l',
      )

-- `True` from `is_connected()`; an exception counts as a broker that is gone.
abbrev pub answered : Option Bool → Bool
answered none = false
answered (some connected) = connected

module _ {T W : Type 0} where
  unfoldable pub broker_connected : Option Bool → Reconciler T W → Bool
  broker_connected answer s =
      answered answer
      && not (leb s.config.max_waiting_list_sync_failures s.waiting_list_sync_failures)
      && not (leb s.config.max_execution_sync_failures s.execution_sync_failures)
      && not (leb s.config.max_portfolio_sync_failures s.portfolio_sync_failures)
      && not (leb s.config.max_parse_failures s.parse_failures)

  unfoldable pub reconciliation_health :
      Broker T W → ℕ → Reconciler T W → ReconciliationHealth × Reconciler T W
  reconciliation_health broker ts_ns s =
      let p = s.portfolio_ledger in
      let (worst, l) = mismatch_loop 0 (symbols_of s.order_ledger p) p s.order_ledger in
      let (answer, t) = broker.is_connected s.trader in
      (
        record {
          waiting_list_stale_ms = pos (oldest ts_ns (live_orders none none s.order_ledger));
          portfolio_stale_ms = portfolio_stale ts_ns p;
          position_mismatch_lots = pos worst;
          broker_connected = broker_connected answer s;
        },
        record s { trader = t; order_ledger = l },
      )

  abbrev pub has_failures : Reconciler T W → Bool
  has_failures s =
      ltb 0 s.waiting_list_sync_failures
      || ltb 0 s.execution_sync_failures
      || ltb 0 s.portfolio_sync_failures
      || ltb 0 s.parse_failures

  unfoldable pub rebaseline : Reconciler T W → Reconciler T W
  rebaseline s =
      let p = s.portfolio_ledger in
      let (symbols, l) = rebaselined_symbols (symbols_of s.order_ledger p) p s.order_ledger in
      record s { order_ledger = apply_position_baseline p.positions symbols l }

  -- `_reconcile_position_mismatch_from_portfolio`
  abbrev pub reconcile_mismatch : Option KillSwitchController → Reconciler T W → Reconciler T W
  reconcile_mismatch none s = s
  reconcile_mismatch (some k) s = if has_failures s then s else rebaseline s

module _ {T W : Type 0} ⦃f : Float W⦄ where
  unfoldable pub archive_audits : ℕ → Reconciler T W → Reconciler T W
  archive_audits now_ns s = record s {
    order_ledger = archive_completed_audits now_ns s.order_ledger;
  }

module _ {T W : Type 0} ⦃f : Float W⦄ ⦃fmt : Formats⦄ (broker : Broker T W) where
  abbrev pub note_waiting :
      Option (List (Option (RawOrder W))) → ℕ → Reconciler T W → Reconciler T W
  note_waiting none now_ns s = record s {
    waiting_list_sync_failures = suc s.waiting_list_sync_failures;
  }
  note_waiting (some waiting) now_ns s =
      let (l, failures) =
        sync_waiting_orders s.config waiting now_ns s.parse_failures s.order_ledger in
      record s { order_ledger = l; parse_failures = failures; waiting_list_sync_failures = 0 }

  unfoldable pub poll_waiting : ℕ → Reconciler T W → Reconciler T W
  poll_waiting now_ns s =
      let (waiting, t) = broker.get_waiting_list s.trader in
      note_waiting waiting now_ns (record s { trader = t })

  unfoldable pub poll_executions : ℕ → Reconciler T W → Reconciler T W
  poll_executions now_ns s =
      let ((l, failures), t) = sync_executions broker now_ns s.order_ledger s.trader in
      record s {
        trader = t;
        order_ledger = l;
        execution_sync_failures = failures_after s.execution_sync_failures failures;
      }

  unfoldable pub poll_portfolio : ℕ → Reconciler T W → Reconciler T W
  poll_portfolio now_ns s =
      let ((came, p), t) = sync_portfolio broker now_ns s.portfolio_ledger s.trader in
      record s {
        trader = t;
        portfolio_ledger = p;
        portfolio_sync_failures = (if came then 0 else suc s.portfolio_sync_failures);
      }

  abbrev pub poll_health : Option KillSwitchController → ℕ → Reconciler T W → Reconciler T W
  poll_health none now_ns s = s
  poll_health (some k) now_ns s =
      let (health, s) = reconciliation_health broker now_ns s in
      let (clock, t) = broker.monotonic_ns s.trader in
      record s { trader = t; kill_switch = some (update health none clock k) }

  unfoldable pub poll_server_state : Reconciler T W → Reconciler T W
  poll_server_state s =
      let (now_ns, t) = broker.monotonic_ns s.trader in
      let synced =
        poll_portfolio now_ns
          (poll_executions now_ns (poll_waiting now_ns (record s { trader = t }))) in
      poll_health s.kill_switch now_ns
        (reconcile_mismatch s.kill_switch (archive_audits now_ns synced))
