-- ===== src/Execution/Orders.antt =====
-- src/execution/order_state.py: quote targets, working orders and commands.
-- Timestamps are nanoseconds of a monotonic clock, sizes are lots: both are naturals. Prices are
-- floats of a type `W`. A status is the text that the broker reports, in lower case.
use stevehft.Prelude.{
  ℕ, ◌-◌, ◌*◌, String, Bool, true, false, not, ◌&&◌, ◌||◌, Option, none, some, List, [], ◌∷◌, ltb,
  ◌==◌, nat_eq, string_eq, if◌then◌else◌,
}
use stevehft.Prelude.Float.{Float, nought, not_pos, mul, of_ℕ}
use stevehft.Execution.Intents.{
  OrderSide, bid, ask, OrderIntentAction, OrderLiquidity, limit, liquidity_eq,
}
use stevehft.Execution.Lots.{normalize_lots, lot_size_shares}

pub record QuoteLevelTarget (W : Type 0) : Type 0 where
  pub level_index : ℕ
  pub price : Option W
  pub size : ℕ
  pub queue_ahead_lots : ℕ
  pub queue_share : W
  pub enabled : Bool

pub record QuoteTarget (W : Type 0) : Type 0 where
  pub symbol : String
  pub bid_px : Option W
  pub ask_px : Option W
  pub bid_size : ℕ
  pub ask_size : ℕ
  pub bid_queue_ahead_lots : ℕ
  pub ask_queue_ahead_lots : ℕ
  pub bid_queue_share : W
  pub ask_queue_share : W
  pub enable_bid : Bool
  pub enable_ask : Bool
  pub flatten_mode : Bool
  pub reason : String
  pub bid_levels : List (QuoteLevelTarget W)
  pub ask_levels : List (QuoteLevelTarget W)

module _ {W : Type 0} where
  -- `levels or (the level 0 of the target's own fields,)`
  abbrev or_level : List (QuoteLevelTarget W) → QuoteLevelTarget W → List (QuoteLevelTarget W)
  or_level [] level = level ∷ []
  or_level (l ∷ ls) level = l ∷ ls

  unfoldable pub side_levels : QuoteTarget W → OrderSide → List (QuoteLevelTarget W)
  side_levels t bid = or_level t.bid_levels (record {
    level_index = 0;
    price = t.bid_px;
    size = t.bid_size;
    queue_ahead_lots = t.bid_queue_ahead_lots;
    queue_share = t.bid_queue_share;
    enabled = t.enable_bid;
  })
  side_levels t ask = or_level t.ask_levels (record {
    level_index = 0;
    price = t.ask_px;
    size = t.ask_size;
    queue_ahead_lots = t.ask_queue_ahead_lots;
    queue_share = t.ask_queue_share;
    enabled = t.enable_ask;
  })

module _ {W : Type 0} ⦃f : Float W⦄ where
  -- The level that a target does not name is disabled.
  unfoldable pub no_level : ℕ → QuoteLevelTarget W
  no_level level_index = record {
    level_index = level_index;
    price = none;
    size = 0;
    queue_ahead_lots = 0;
    queue_share = nought;
    enabled = false;
  }

  unfoldable pub find_level : ℕ → List (QuoteLevelTarget W) → QuoteLevelTarget W
  unfolding no_level
  find_level level_index [] = no_level level_index
  find_level level_index (l ∷ ls) =
      if l.level_index == level_index then l else find_level level_index ls

  unfoldable pub level_target : QuoteTarget W → OrderSide → ℕ → QuoteLevelTarget W
  unfolding side_levels find_level
  level_target t side level_index = find_level level_index (side_levels t side)

pub record WorkingOrder (W : Type 0) : Type 0 where
  pub symbol : String
  pub side : OrderSide
  pub order_id : String
  pub price : W
  pub size : ℕ
  pub level_index : ℕ
  pub executed_size : ℕ
  pub status : String
  pub liquidity : OrderLiquidity
  pub submitted_ts_ns : ℕ
  pub last_update_ts_ns : ℕ
  pub last_replace_request_ts_ns : ℕ
  pub inactive_ts_ns : ℕ
  pub pending_cancel : Bool
  pub pending_replace_price : Option W
  pub pending_replace_size : ℕ
  pub pending_replace_reason : String

-- `status in {"canceled", "filled", "inactive", "rejected"}`
unfoldable pub is_terminal : String → Bool
is_terminal status =
    status == "canceled" || status == "filled" || status == "inactive" || status == "rejected"

abbrev pub is_some {ℓ} : {A : Type ℓ} → Option A → Bool
is_some none = false
is_some (some a) = true

module _ {W : Type 0} where
  unfoldable pub executed_lots : WorkingOrder W → ℕ
  executed_lots o = normalize_lots o.executed_size o.size

  -- `max(size - executed_lots, 0)` is the subtraction of naturals.
  unfoldable pub remaining_size : WorkingOrder W → ℕ
  unfolding executed_lots
  remaining_size o = o.size - executed_lots o

  unfoldable pub is_live : WorkingOrder W → Bool
  unfolding is_terminal
  is_live o = not (is_terminal o.status)

  unfoldable pub has_pending_replace : WorkingOrder W → Bool
  has_pending_replace o = is_some o.pending_replace_price && ltb 0 o.pending_replace_size

  unfoldable pub estimated_reserved_buying_power : ⦃f : Float W⦄ → WorkingOrder W → W
  unfolding is_live remaining_size
  estimated_reserved_buying_power o =
      if not (is_live o)
        || not (o.liquidity == limit)
        || not (o.status == "pending_new")
        || not_pos o.price
      then nought
      else mul (of_ℕ (remaining_size o * lot_size_shares)) o.price

pub record OrderCommand (W : Type 0) : Type 0 where
  pub action : OrderIntentAction
  pub symbol : String
  pub side : OrderSide
  pub level_index : ℕ
  pub price : Option W
  pub size : ℕ
  pub order_id : String
  pub reason : String
  pub decision_price : W
  pub arrival_bid_px : W
  pub arrival_ask_px : W
