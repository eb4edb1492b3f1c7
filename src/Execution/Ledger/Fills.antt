-- ===== src/Execution/Ledger/Fills.antt =====
-- src/execution/order_state.py, `append_fill`: an execution report is booked once, however often
-- the broker repeats it.
pub mod Replay
use Prim.Native.String.{◌++◌ as append}
use stevehft.Prelude.{
  ℕ, ◌+◌, ◌-◌, ◌*◌, max, String, Bool, true, false, not, ◌&&◌, ◌||◌, List, [], ◌∷◌, ◌++◌, any, leb,
  string_eq, nat_eq, ◌==◌, if◌then◌else◌,
}
use stevehft.Prelude.Int.{ℤ, pos, negsuc, beq_ℤ}
use stevehft.Prelude.Dict.{lookup, insert, get_or}
use stevehft.Prelude.Float.{Float, not_pos, lt, add, sub, mul, abs_f, of_ℕ, decimal}
use stevehft.Execution.Intents.{limit, market, liquidity_eq}
use stevehft.Execution.Lots.{lot_size_shares}
use stevehft.Execution.Slippage.{signed_shortfall_per_share, signed_shortfall_ticks}
use stevehft.Execution.Audit.{
  FillRecord, OrderAuditRecord, normalized_fill_lots, arrival_mid_price, limit_rebate_per_share,
  market_fee_per_share,
}
use stevehft.Execution.Ledger.{OrderLedger}
use stevehft.Execution.Ledger.Audits.{add_member, request, ensured, ensure_audit, put_audit}

abbrev pub is_index : ℤ → Bool
is_index (pos n) = true
is_index (negsuc n) = false

-- `max(count, index + 1)` for an index, and the count for none.
abbrev pub count_past : ℕ → ℤ → ℕ
count_past count (pos n) = max count (n + 1)
count_past count (negsuc n) = count

-- How an f-string writes an `int`.
pub record Formats : Type 0 where
  pub format_int : ℤ → String

-- The parts of an f-string, put together.
abbrev pub concat : List String → String
concat [] = ""
concat (s ∷ ss) = append s (concat ss)

abbrev pub text : ⦃fmt : Formats⦄ → ℕ → String
text ⦃fmt⦄ n = fmt.format_int (pos n)

module _ {W : Type 0} ⦃f : Float W⦄ ⦃fmt : Formats⦄ where
  unfoldable pub fill_key : FillRecord W → String
  fill_key fill =
      if is_index fill.execution_index
      then concat ("idx:" ∷ fmt.format_int fill.execution_index ∷ [])
      else if not (fill.broker_timestamp == "")
      then concat (
          "ts:"
          ∷ fill.broker_timestamp
          ∷ "|sz:"
          ∷ text fill.executed_size
          ∷ "|px:"
          ∷ f.format_12f fill.executed_price
          ∷ "|st:"
          ∷ fill.status
          ∷ [])
      else concat (
          "fallback:"
          ∷ text fill.executed_size
          ∷ "|"
          ∷ f.format_12f fill.executed_price
          ∷ "|"
          ∷ fill.status
          ∷ [])

pub data Verdict : Type 0 where
  repeated duplicate fresh : Verdict

module _ {W : Type 0} ⦃f : Float W⦄ where
  -- The guard for fills of an earlier run, which may have no timestamp or index.
  unfoldable pub is_same_fill : FillRecord W → FillRecord W → Bool
  is_same_fill fill existing =
      (beq_ℤ existing.execution_index fill.execution_index && is_index fill.execution_index)
      || ((existing.broker_timestamp == fill.broker_timestamp)
          && not (fill.broker_timestamp == "")
          && (existing.executed_size == fill.executed_size)
          && lt (abs_f (sub existing.executed_price fill.executed_price)) (decimal 1 12)
          && (existing.status == fill.status))

  abbrev pub seen_lots : String → OrderAuditRecord W → ℕ
  seen_lots key a = get_or (lookup key a.seen_execution_lots_by_key) 0

  abbrev pub has_key : String → OrderAuditRecord W → Bool
  has_key key a = any (λ k. k == key) a.seen_execution_keys

  -- A report that brings no new lots: its key is marked, with the most lots seen for it.
  unfoldable pub mark_seen : String → ℕ → OrderAuditRecord W → OrderAuditRecord W
  unfolding add_member
  mark_seen key lots a = record a {
    seen_execution_keys = add_member key a.seen_execution_keys;
    seen_execution_lots_by_key =
        insert key (max (seen_lots key a) lots) a.seen_execution_lots_by_key;
  }

  -- `seen_execution_count`, for a fill with an index.
  unfoldable pub count_seen : FillRecord W → OrderAuditRecord W → OrderAuditRecord W
  count_seen fill a = record a {
    seen_execution_count = count_past a.seen_execution_count fill.execution_index;
  }

  -- The audit after the new lots of a fill are booked.
  unfoldable pub book_audit :
      W → String → ℕ → ℕ → FillRecord W → OrderAuditRecord W → OrderAuditRecord W
  unfolding add_member arrival_mid_price
  book_audit tick_size key normalized fill_lots fill a =
      let mid = arrival_mid_price a in
      let price = fill.executed_price in
      let shares = fill_lots * lot_size_shares in
      record a {
        fills = a.fills ++ (record fill { executed_size = fill_lots } ∷ []);
        seen_execution_keys = add_member key a.seen_execution_keys;
        seen_execution_lots_by_key = insert key normalized a.seen_execution_lots_by_key;
        seen_execution_count = count_past a.seen_execution_count fill.execution_index;
        last_update_ts_ns = fill.event_ts_ns;
        current_status = fill.status;
        cumulative_fill_lots = a.cumulative_fill_lots + fill_lots;
        cumulative_fill_notional = add a.cumulative_fill_notional (mul (of_ℕ fill_lots) price);
        cumulative_fill_count = a.cumulative_fill_count + 1;
        cumulative_arrival_shortfall =
            add a.cumulative_arrival_shortfall
              (mul (signed_shortfall_per_share fill.side price mid) (of_ℕ shares));
        cumulative_decision_shortfall =
            add a.cumulative_decision_shortfall
              (mul (signed_shortfall_per_share fill.side price a.decision_price) (of_ℕ shares));
        cumulative_arrival_slippage_ticks =
            add a.cumulative_arrival_slippage_ticks
              (signed_shortfall_ticks fill.side price mid tick_size);
        cumulative_decision_slippage_ticks =
            add a.cumulative_decision_slippage_ticks
              (signed_shortfall_ticks fill.side price a.decision_price tick_size);
      }

  -- The session's totals after the new lots of a fill are booked.
  unfoldable pub book_session :
      ℕ → FillRecord W → OrderAuditRecord W → OrderLedger W → OrderLedger W
  unfolding arrival_mid_price
  book_session fill_lots fill a l =
      let price = fill.executed_price in
      let shares = fill_lots * lot_size_shares in
      record l {
        session_executed_trades = l.session_executed_trades + 1;
        session_executed_shares = l.session_executed_shares + shares;
        session_fill_notional = add l.session_fill_notional (mul (of_ℕ shares) price);
        session_fill_price_sum = add l.session_fill_price_sum price;
        session_arrival_shortfall =
            add l.session_arrival_shortfall (
              mul (signed_shortfall_per_share fill.side price (arrival_mid_price a)) (of_ℕ shares));
        session_decision_shortfall =
            add l.session_decision_shortfall
              (mul (signed_shortfall_per_share fill.side price a.decision_price) (of_ℕ shares));
        session_passive_fills =
            (if a.liquidity == limit then l.session_passive_fills + 1 else l.session_passive_fills);
        session_estimated_rebate =
            (if a.liquidity == limit
              then add l.session_estimated_rebate (mul (of_ℕ shares) limit_rebate_per_share)
              else l.session_estimated_rebate);
        session_aggressive_fills =
            (if a.liquidity == market
              then l.session_aggressive_fills + 1
              else l.session_aggressive_fills);
        session_estimated_fee =
            (if a.liquidity == market
              then add l.session_estimated_fee (mul (of_ℕ shares) market_fee_per_share)
              else l.session_estimated_fee);
      }

  -- What a report is to the audit: it brings no new lots, it is a known fill under another key, or it
  -- is a fill to book.
  unfoldable pub classify : String → FillRecord W → OrderAuditRecord W → Verdict
  unfolding normalized_fill_lots is_same_fill
  classify key fill a =
      if leb (normalized_fill_lots a fill.executed_size - seen_lots key a) 0
      then repeated
      else if not (has_key key a) && any (is_same_fill fill) a.fills
      then duplicate
      else fresh

  -- `append_fill` from the audit on: `a` is the fill's audit in `l`.
  unfoldable pub book_as :
      Verdict → String → FillRecord W → OrderAuditRecord W → OrderLedger W → OrderLedger W
  book_as repeated key fill a l =
      put_audit fill.order_id
        (count_seen fill (mark_seen key (normalized_fill_lots a fill.executed_size) a)) l
  book_as duplicate key fill a l =
      put_audit fill.order_id (mark_seen key (normalized_fill_lots a fill.executed_size) a) l
  book_as fresh key fill a l =
      let normalized = normalized_fill_lots a fill.executed_size in
      let fill_lots = normalized - seen_lots key a in
      book_session fill_lots fill a
        (put_audit fill.order_id (book_audit l.tick_size key normalized fill_lots fill a) l)

  unfoldable pub append_fill : ⦃fmt : Formats⦄ → FillRecord W → OrderLedger W → OrderLedger W
  unfolding book_as
  append_fill fill l =
      let r = request fill.order_id fill.symbol fill.side in
      let a = ensured r l in
      if leb fill.executed_size 0 || not_pos fill.executed_price
      then l
      else book_as (classify (fill_key fill) fill a) (fill_key fill) fill a (ensure_audit r l)
