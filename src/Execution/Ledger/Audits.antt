-- ===== src/Execution/Ledger/Audits.antt =====
-- src/execution/order_state.py: `ensure_audit`, and the counts that are read off the audits.
pub mod Lookup
use stevehft.Prelude.{
  ℕ, ◌+◌, String, not, ◌&&◌, Option, none, some, List, [], ◌∷◌, ◌++◌, any, ltb, string_eq, nat_eq,
  ◌==◌, if◌then◌else◌,
}
use stevehft.Prelude.Dict.{Dict, lookup, insert, get_or}
use stevehft.Prelude.Float.{Float, nought, is_pos, not_pos, add, div, of_ℕ}
use stevehft.Execution.Intents.{OrderSide, OrderLiquidity, limit, unknown, liquidity_eq}
use stevehft.Execution.Audit.{OrderAuditRecord, is_plain_cancel, estimated_rebate, estimated_fee}
use stevehft.Execution.Ledger.{OrderLedger}

-- The arguments of `ensure_audit`.
pub record AuditRequest (W : Type 0) : Type 0 where
  pub order_id : String
  pub symbol : String
  pub side : OrderSide
  pub level_index : ℕ
  pub submitted_ts_ns : ℕ
  pub submit_price : W
  pub submit_size : ℕ
  pub decision_price : W
  pub arrival_bid_px : W
  pub arrival_ask_px : W
  pub liquidity : OrderLiquidity

-- A member is added to a set once.
unfoldable pub add_member : String → List String → List String
add_member k ks = if any (λ j. j == k) ks then ks else ks ++ (k ∷ [])

unfoldable pub ids_of : String → Dict String (List String) → List String
ids_of symbol d = get_or (lookup symbol d) []

module _ {W : Type 0} ⦃f : Float W⦄ where
  -- The defaults of the keyword arguments.
  unfoldable pub request : String → String → OrderSide → AuditRequest W
  request order_id symbol side = record {
    order_id = order_id;
    symbol = symbol;
    side = side;
    level_index = 0;
    submitted_ts_ns = 0;
    submit_price = nought;
    submit_size = 0;
    decision_price = nought;
    arrival_bid_px = nought;
    arrival_ask_px = nought;
    liquidity = unknown;
  }

  unfoldable pub new_audit : AuditRequest W → OrderAuditRecord W
  new_audit r = record {
    order_id = r.order_id;
    symbol = r.symbol;
    side = r.side;
    level_index = r.level_index;
    submitted_ts_ns = r.submitted_ts_ns;
    last_update_ts_ns = r.submitted_ts_ns;
    submit_price = r.submit_price;
    submit_size = r.submit_size;
    decision_price = r.decision_price;
    arrival_bid_px = r.arrival_bid_px;
    arrival_ask_px = r.arrival_ask_px;
    liquidity = r.liquidity;
    current_status = "unknown";
    fills = [];
    seen_execution_keys = [];
    seen_execution_lots_by_key = [];
    seen_execution_count = 0;
    cancel_requested_ts_ns = 0;
    cancel_ack_ts_ns = 0;
    replace_requested_ts_ns = 0;
    cumulative_fill_lots = 0;
    cumulative_fill_notional = nought;
    cumulative_fill_count = 0;
    cumulative_arrival_shortfall = nought;
    cumulative_decision_shortfall = nought;
    cumulative_arrival_slippage_ticks = nought;
    cumulative_decision_slippage_ticks = nought;
  }

  -- An unknown liquidity is filled in when it becomes known.
  unfoldable pub learn_liquidity : AuditRequest W → OrderAuditRecord W → OrderAuditRecord W
  learn_liquidity r a = record a {
    liquidity =
        (if (a.liquidity == unknown) && not (r.liquidity == unknown)
          then r.liquidity
          else a.liquidity);
  }

  -- A price that was missing is filled in.
  abbrev pub or_given : W → W → W
  or_given own given = if not_pos own && is_pos given then given else own

  unfoldable pub fill_in : AuditRequest W → OrderAuditRecord W → OrderAuditRecord W
  fill_in r a = record a {
    level_index =
        (if a.level_index == 0 && ltb 0 r.level_index then r.level_index else a.level_index);
    decision_price = or_given a.decision_price r.decision_price;
    arrival_bid_px = or_given a.arrival_bid_px r.arrival_bid_px;
    arrival_ask_px = or_given a.arrival_ask_px r.arrival_ask_px;
  }

  abbrev pub made_or_known : AuditRequest W → Option (OrderAuditRecord W) → OrderAuditRecord W
  made_or_known r none = new_audit r
  made_or_known r (some a) = learn_liquidity r a

  -- What `ensure_audit` returns, and the ledger after it. The record is the dictionary's own, so
  -- later assignments to its fields are `put_audit`.
  unfoldable pub ensured : AuditRequest W → OrderLedger W → OrderAuditRecord W
  unfolding new_audit learn_liquidity fill_in
  ensured r l = fill_in r (made_or_known r (lookup r.order_id l.audits_by_order_id))

  abbrev pub owned :
      AuditRequest W
      → Option (OrderAuditRecord W)
      → Dict String (List String)
      → Dict String (List String)
  owned r none d = insert r.symbol (add_member r.order_id (ids_of r.symbol d)) d
  owned r (some a) d = d

  unfoldable pub ensure_audit : AuditRequest W → OrderLedger W → OrderLedger W
  unfolding ensured add_member ids_of
  ensure_audit r l = record l {
    audits_by_order_id = insert r.order_id (ensured r l) l.audits_by_order_id;
    audit_ids_by_symbol = owned r (lookup r.order_id l.audits_by_order_id) l.audit_ids_by_symbol;
  }

module _ {W : Type 0} where
  unfoldable pub put_audit : String → OrderAuditRecord W → OrderLedger W → OrderLedger W
  put_audit order_id a l = record l { audits_by_order_id = insert order_id a l.audits_by_order_id }

  abbrev pub present :
      Option (OrderAuditRecord W) → List (OrderAuditRecord W) → List (OrderAuditRecord W)
  present none rest = rest
  present (some a) rest = a ∷ rest

  unfoldable pub audits_of :
      List String → Dict String (OrderAuditRecord W) → List (OrderAuditRecord W)
  audits_of [] audits = []
  audits_of (id ∷ ids) audits = present (lookup id audits) (audits_of ids audits)

  -- The order is that of the set, which Python leaves open.
  unfoldable pub audits_for_symbol : String → OrderLedger W → List (OrderAuditRecord W)
  unfolding ids_of audits_of
  audits_for_symbol symbol l = audits_of (ids_of symbol l.audit_ids_by_symbol) l.audits_by_order_id

  -- The loops of `fill_count` and `cancel_count`.
  abbrev pub add_fills : ℕ → List (OrderAuditRecord W) → ℕ
  add_fills total [] = total
  add_fills total (a ∷ rest) = add_fills (total + a.cumulative_fill_count) rest

  abbrev pub add_cancels : ℕ → List (OrderAuditRecord W) → ℕ
  add_cancels total [] = total
  add_cancels total (a ∷ rest) = add_cancels (if is_plain_cancel a then total + 1 else total) rest

  unfoldable pub fill_count : String → OrderLedger W → ℕ
  unfolding audits_for_symbol
  fill_count symbol l =
      add_fills (get_or (lookup symbol l.archived_fill_count_by_symbol) 0)
        (audits_for_symbol symbol l)

  unfoldable pub cancel_count : String → OrderLedger W → ℕ
  unfolding audits_for_symbol
  cancel_count symbol l =
      add_cancels (get_or (lookup symbol l.archived_cancel_count_by_symbol) 0)
        (audits_for_symbol symbol l)

-- What the loop of `symbol_fee_stats` adds up.
pub record FeeStats (W : Type 0) : Type 0 where
  pub rebate : W
  pub fee : W
  pub passive_fills : ℕ
  pub total_fills : ℕ

module _ {W : Type 0} ⦃f : Float W⦄ where
  abbrev pub add_fees : FeeStats W → List (OrderAuditRecord W) → FeeStats W
  add_fees s [] = s
  add_fees s (a ∷ rest) =
      add_fees
        (record {
          rebate = add s.rebate (estimated_rebate a);
          fee = add s.fee (estimated_fee a);
          passive_fills =
              (if a.liquidity == limit
                then s.passive_fills + a.cumulative_fill_count
                else s.passive_fills);
          total_fills = s.total_fills + a.cumulative_fill_count;
        })
        rest

  unfoldable pub symbol_fee_stats : String → OrderLedger W → W × W × W
  unfolding audits_for_symbol
  symbol_fee_stats symbol l =
      let s =
        add_fees
          (record {
            rebate = get_or (lookup symbol l.archived_estimated_rebate_by_symbol) nought;
            fee = get_or (lookup symbol l.archived_estimated_fee_by_symbol) nought;
            passive_fills = get_or (lookup symbol l.archived_passive_fill_count_by_symbol) 0;
            total_fills = get_or (lookup symbol l.archived_fill_count_by_symbol) 0;
          })
          (audits_for_symbol symbol l) in
      (
        s.rebate,
        s.fee,
        if ltb 0 s.total_fills then div (of_ℕ s.passive_fills) (of_ℕ s.total_fills) else nought,
      )
