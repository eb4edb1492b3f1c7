-- ===== src/Execution/Ledger.antt =====
-- src/execution/order_state.py, `OrderLedger`: the orders, their audits and the session's totals.
-- A slot of a symbol and `orders_by_order_id` share the order objects, which are written in place:
-- the objects stand in `heap`, and a reference is a place in it. A method runs under the ledger's
-- lock, so it is one step. A Python set is a list with no repeated member.
pub mod Store
pub mod Live
pub mod Audits
pub mod Fills
pub mod Net
pub mod Archive
pub mod Conserved
use stevehft.Prelude.{
  ℕ, ◌+◌, ◌≡◌, String, Option, none, some, List, [], ◌∷◌, ◌++◌, length, set, get_elem?, string_eq,
}
use stevehft.Prelude.Int.{ℤ}
use stevehft.Prelude.Dict.{Dict, lookup, insert}
use stevehft.Prelude.Float.{Float, nought}
use stevehft.Execution.Orders.{WorkingOrder}
use stevehft.Execution.Audit.{OrderAuditRecord}
use stevehft.Execution.SymbolLedger.{Ref, SymbolOrderLedger}

pub record OrderLedger (W : Type 0) : Type 0 where
  pub tick_size : W
  pub heap : List (WorkingOrder W)
  pub by_symbol : Dict String (SymbolOrderLedger W)
  pub orders_by_order_id : Dict String Ref
  pub audits_by_order_id : Dict String (OrderAuditRecord W)
  pub audit_ids_by_symbol : Dict String (List String)
  pub max_completed_audits_retained : ℕ
  pub min_completed_audit_retention_ns : ℕ
  pub archived_net_executed_shares_by_symbol : Dict String ℤ
  pub archived_executed_shares_by_symbol : Dict String ℕ
  pub archived_fill_count_by_symbol : Dict String ℕ
  pub archived_cancel_count_by_symbol : Dict String ℕ
  pub archived_passive_fill_count_by_symbol : Dict String ℕ
  pub archived_estimated_rebate_by_symbol : Dict String W
  pub archived_estimated_fee_by_symbol : Dict String W
  pub session_executed_trades : ℕ
  pub session_executed_shares : ℕ
  pub session_fill_notional : W
  pub session_fill_price_sum : W
  pub session_arrival_shortfall : W
  pub session_decision_shortfall : W
  pub session_passive_fills : ℕ
  pub session_aggressive_fills : ℕ
  pub session_estimated_rebate : W
  pub session_estimated_fee : W

module _ {W : Type 0} ⦃f : Float W⦄ where
  -- `OrderLedger(tick_size=...)`
  unfoldable pub empty : W → OrderLedger W
  empty tick_size = record {
    tick_size = tick_size;
    heap = [];
    by_symbol = [];
    orders_by_order_id = [];
    audits_by_order_id = [];
    audit_ids_by_symbol = [];
    max_completed_audits_retained = 2048;
    min_completed_audit_retention_ns = 5_000_000_000;
    archived_net_executed_shares_by_symbol = [];
    archived_executed_shares_by_symbol = [];
    archived_fill_count_by_symbol = [];
    archived_cancel_count_by_symbol = [];
    archived_passive_fill_count_by_symbol = [];
    archived_estimated_rebate_by_symbol = [];
    archived_estimated_fee_by_symbol = [];
    session_executed_trades = 0;
    session_executed_shares = 0;
    session_fill_notional = nought;
    session_fill_price_sum = nought;
    session_arrival_shortfall = nought;
    session_decision_shortfall = nought;
    session_passive_fills = 0;
    session_aggressive_fills = 0;
    session_estimated_rebate = nought;
    session_estimated_fee = nought;
  }

  -- The limits and the objects that callers still hold are what it leaves alone.
  unfoldable pub reset_session_statistics : OrderLedger W → OrderLedger W
  reset_session_statistics l = record l {
    by_symbol = [];
    orders_by_order_id = [];
    audits_by_order_id = [];
    audit_ids_by_symbol = [];
    archived_net_executed_shares_by_symbol = [];
    archived_executed_shares_by_symbol = [];
    archived_fill_count_by_symbol = [];
    archived_cancel_count_by_symbol = [];
    archived_passive_fill_count_by_symbol = [];
    archived_estimated_rebate_by_symbol = [];
    archived_estimated_fee_by_symbol = [];
    session_executed_trades = 0;
    session_executed_shares = 0;
    session_fill_notional = nought;
    session_fill_price_sum = nought;
    session_arrival_shortfall = nought;
    session_decision_shortfall = nought;
    session_passive_fills = 0;
    session_aggressive_fills = 0;
    session_estimated_rebate = nought;
    session_estimated_fee = nought;
  }
