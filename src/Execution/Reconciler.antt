-- ===== src/Execution/Reconciler.antt =====
-- src/execution/reconciler.py: the settings, and what an order's age and price are compared with. An
-- age in nanoseconds against a
-- limit in milliseconds is compared as a sum of products, as in Risk/KillSwitch.antt.
pub mod Live
pub mod Decisions
pub mod Justified
pub mod Targets
pub mod Sync
pub mod Poll
mod Tests
use stevehft.Prelude.{
  ℕ, ◌+◌, ◌*◌, String, Bool, true, false, not, ◌&&◌, ◌||◌, Option, none, some, ltb, leb, nat_eq,
  string_eq, ◌==◌, if◌then◌else◌,
}
use stevehft.Prelude.Float.{Float, nought, not_pos, lt, le, sub, div, max_f, of_ℕ}
use stevehft.Execution.Intents.{
  OrderSide, bid, ask, OrderIntentAction, submit, cancel, replace, flatten,
}
use stevehft.Execution.Orders.{
  QuoteTarget, QuoteLevelTarget, WorkingOrder, OrderCommand, level_target, is_live,
  has_pending_replace, remaining_size,
}

pub record ReconciliationConfig (W : Type 0) : Type 0 where
  pub stale_order_after_ms : ℕ
  pub min_replace_interval_ms : ℕ
  pub new_order_grace_ms : ℕ
  pub inactive_order_hold_ms : ℕ
  pub max_waiting_list_sync_failures : ℕ
  pub max_execution_sync_failures : ℕ
  pub max_portfolio_sync_failures : ℕ
  pub max_parse_failures : ℕ
  pub max_price_drift_ticks : ℕ
  pub stale_keep_queue_share : W
  pub tick_size : W

-- NS_PER_MS
abbrev pub ns_per_ms : ℕ
ns_per_ms = 1_000_000

-- `x or y` of texts
abbrev pub or_text : String → String → String
or_text x y = if x == "" then y else x

-- A command, if one is made, and the slot's order afterwards.
abbrev pub Decision : Type 0 → Type 0
Decision W = Option (OrderCommand W) × Option (WorkingOrder W)

module _ {W : Type 0} where
  -- `live_order is not None and live_order.is_live`
  abbrev pub is_working : Option (WorkingOrder W) → Bool
  is_working none = false
  is_working (some o) = is_live o

  unfoldable pub cleared_replace : WorkingOrder W → WorkingOrder W
  cleared_replace o = record o {
    pending_replace_price = none;
    pending_replace_size = 0;
    pending_replace_reason = "";
  }

  unfoldable pub clear_pending_replace : Option (WorkingOrder W) → Option (WorkingOrder W)
  unfolding cleared_replace
  clear_pending_replace none = none
  clear_pending_replace (some o) = some (if has_pending_replace o then cleared_replace o else o)

  unfoldable pub hold_after_inactive :
      ReconciliationConfig W → Option (WorkingOrder W) → ℕ → Bool → Bool
  hold_after_inactive c none now_ns flatten_mode = false
  hold_after_inactive c (some o) now_ns flatten_mode =
      if flatten_mode
      then false
      else if is_live o || leb o.inactive_ts_ns 0
      then false
      else if has_pending_replace o
      then false
      else ltb now_ns (o.inactive_ts_ns + c.inactive_order_hold_ms * ns_per_ms)

module _ {W : Type 0} ⦃f : Float W⦄ where
  -- `price or 0.0`
  abbrev pub or_nought : Option W → W
  or_nought none = nought
  or_nought (some price) = price

  abbrev drift : OrderSide → W → W → W
  drift bid live_price target_price = sub target_price live_price
  drift ask live_price target_price = sub live_price target_price

  unfoldable pub less_competitive_price_drift_ticks : ReconciliationConfig W → OrderSide → W → W → W
  less_competitive_price_drift_ticks c side live_price target_price =
      if not_pos c.tick_size
      then nought
      else div (max_f (drift side live_price target_price) nought) c.tick_size

  unfoldable pub over_aggressive_price_drift_ticks : ReconciliationConfig W → OrderSide → W → W → W
  over_aggressive_price_drift_ticks c side live_price target_price =
      if not_pos c.tick_size
      then nought
      else div (max_f (drift side target_price live_price) nought) c.tick_size

  -- The fields that all commands of a slot have alike.
  unfoldable pub command :
      QuoteTarget W → OrderSide → ℕ → OrderIntentAction → String → Option W → OrderCommand W
  command target side level_index action reason decision_price = record {
    action = action;
    symbol = target.symbol;
    side = side;
    level_index = level_index;
    price = none;
    size = 0;
    order_id = "";
    reason = reason;
    decision_price = or_nought decision_price;
    arrival_bid_px = or_nought target.bid_px;
    arrival_ask_px = or_nought target.ask_px;
  }
