-- ===== src/Execution/Router.antt =====
-- src/execution/order_router.py: how a command is checked and sent to the broker.
-- The trader, the clock and the id that a new broker order draws are parameters that run on a
-- state of their own. A call of the trader that raises is caught, one of `build_` is not and ends
-- `apply`. Log events only report, and are left out. `build_strategy_execution`
-- (src/execution/runtime.py) gives the router and its risk limits one order ledger, so the router
-- holds the limits without it.
pub mod Bookings
pub mod Actions
pub mod Registered
pub mod Guards
pub mod Resubmit
pub mod Recancel
mod Tests
use stevehft.Prelude.{
  ℕ, ◌+◌, String, Bool, true, false, ◌&&◌, ◌||◌, Option, none, some, get_elem?, ltb, leb, length,
  string_eq, ◌==◌, if◌then◌else◌,
}
use stevehft.Prelude.Int.{ℤ, pos, ltb_ℤ}
use stevehft.Prelude.Dict.{lookup}
use stevehft.Prelude.Float.{Float, nought}
use stevehft.Execution.Intents.{
  OrderSide, bid, ask, side_eq, OrderIntentAction, keep, submit, cancel, replace, flatten,
  action_eq, OrderLiquidity, limit, market,
}
use stevehft.Execution.Orders.{
  WorkingOrder, OrderCommand, remaining_size, is_live, has_pending_replace,
}
use stevehft.Execution.SymbolLedger.{Ref, SymbolOrderLedger, get_order}
use stevehft.Execution.Ledger.{OrderLedger}
use stevehft.Execution.Ledger.Store.{find_by_order_id, register_live_order, modify_order}
use stevehft.Execution.Ledger.Audits.{AuditRequest, request, ensured, ensure_audit, put_audit}
use stevehft.Execution.ShiftOrders.{
  ShiftOrder, Built, raised, built, build_limit_order, build_market_order, build_cancel_order,
}
use stevehft.Risk.Inventory.{PortfolioLedger, get_net_lots}
use stevehft.Risk.KillSwitch.{
  SafeMode, flatten_only, position_mismatch, KillSwitchController, blocks,
}
use stevehft.Risk.Limits.{RiskLimits, RiskLimitsConfig, is_allowed}

-- The broker's side, on a state `T`: `time.monotonic_ns`, the id of a `shift.Order` that is made from
-- some arguments, and the two calls of the trader, which answer whether they returned.
pub record Trader (T W : Type 0) : Type 0 where
  pub monotonic_ns : T → ℕ × T
  pub new_order : ShiftOrder W → T → String × T
  pub submit_order : ShiftOrder W → String → T → Bool × T
  pub submit_cancellation : ShiftOrder W → String → T → Bool × T

-- The risk limits without the ledger that they share with the router.
pub record RouterLimits (W : Type 0) : Type 0 where
  pub config : RiskLimitsConfig W
  pub portfolio_ledger : PortfolioLedger W

pub record OrderRouter (T W : Type 0) : Type 0 where
  pub trader : T
  pub order_ledger : OrderLedger W
  pub risk_limits : Option (RouterLimits W)
  pub kill_switch : Option KillSwitchController

-- How a method ends.
pub data Outcome : Type 0 where
  done : Outcome
  failed : String → Outcome

abbrev pub blocked_by : Option KillSwitchController → OrderIntentAction → Bool → Bool
blocked_by none action reduces = false
blocked_by (some k) action reduces = blocks k.mode action reduces

-- `mode in {FLATTEN_ONLY, POSITION_MISMATCH}`
abbrev pub only_flattens : SafeMode → Bool
only_flattens flatten_only = true
only_flattens position_mismatch = true
only_flattens mode = false

module _ {W : Type 0} where
  abbrev pub limits_of : RouterLimits W → OrderLedger W → RiskLimits W
  limits_of r l = record {
    config = r.config;
    portfolio_ledger = r.portfolio_ledger;
    order_ledger = l;
  }

  abbrev pub object_at : Option Ref → OrderLedger W → Option (WorkingOrder W)
  object_at none l = none
  object_at (some r) l = get_elem? l.heap r

  abbrev pub slot_of :
      OrderCommand W → Option (SymbolOrderLedger W) → OrderLedger W → Option (WorkingOrder W)
  slot_of c none l = none
  slot_of c (some s) l = object_at (get_order c.side c.level_index s) l

  -- The order in the command's slot.
  unfoldable pub slot_order : OrderCommand W → OrderLedger W → Option (WorkingOrder W)
  slot_order c l = slot_of c (lookup c.symbol l.by_symbol) l

  abbrev pub router_net_lots : String → Option (RouterLimits W) → ℤ
  router_net_lots symbol none = pos 0
  router_net_lots symbol (some r) = get_net_lots symbol r.portfolio_ledger

  abbrev pub fits_in : OrderCommand W → Option (WorkingOrder W) → Bool
  fits_in c none = false
  fits_in c (some o) = leb c.size (remaining_size o)

  -- `set_flatten_only`, where there is a kill switch.
  abbrev pub synced : Option KillSwitchController → RouterLimits W → RouterLimits W
  synced none r = r
  synced (some k) r = record r { config = record r.config { flatten_only = only_flattens k.mode } }

  -- The limits after the answer: a blocked command does not get to them.
  abbrev pub sync_limits :
      Bool → Option KillSwitchController → Option (RouterLimits W) → Option (RouterLimits W)
  sync_limits true k limits = limits
  sync_limits false k none = none
  sync_limits false k (some r) = some (synced k r)

module _ {W : Type 0} ⦃f : Float W⦄ where
  abbrev pub checked : OrderCommand W → Option (RouterLimits W) → OrderLedger W → Bool
  checked c none l = true
  checked c (some r) l = is_allowed c (limits_of r l)

module _ {T W : Type 0} where
  unfoldable pub reduces_risk : OrderCommand W → OrderRouter T W → Bool
  reduces_risk c s =
      let net = router_net_lots c.symbol s.risk_limits in
      if c.action == cancel || c.action == flatten
      then true
      else if c.action == submit
      then ltb_ℤ (pos 0) net && c.side == ask || ltb_ℤ net (pos 0) && c.side == bid
      else c.action == replace && fits_in c (slot_order c s.order_ledger)

module _ {T W : Type 0} ⦃f : Float W⦄ where
  unfoldable pub preflight_allows : OrderCommand W → OrderRouter T W → Bool × OrderRouter T W
  preflight_allows c s =
      let blocked = blocked_by s.kill_switch c.action (reduces_risk c s) in
      let limits = sync_limits blocked s.kill_switch s.risk_limits in
      (
        (if blocked then false else checked c limits s.order_ledger),
        record s { risk_limits = limits },
      )
