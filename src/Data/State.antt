-- ===== src/Data/State.antt =====
-- src/data/state.py: the state of the market for one symbol. Sizes are integers as the broker reports
-- them, so that `max(size, 0)` is `pos_part`; a raised `ValueError` is `none`. The `clone` methods copy
-- what is a value here.
pub mod Depth
pub mod Signals
pub mod Bounds
use stevehft.Prelude.{
  ℕ, ◌+◌, String, Bool, true, false, ◌&&◌, Option, none, some, List, [], ◌∷◌, take, ltb, ◌==◌,
  string_eq, if◌then◌else◌,
}
use stevehft.Prelude.Int.{ℤ, pos, pos_part, ◌+ℤ◌, ◌-ℤ◌, ltb_ℤ}
use stevehft.Prelude.Dict.{Dict, lookup, insert}
use stevehft.Prelude.Float.{Float, nought, is_pos, add, sub, mul, div, of_ℤ, of_ℕ, decimal, max_f}
use stevehft.Prelude.Texts.{Texts}
use stevehft.Execution.Intents.{OrderSide, bid, ask}

pub record BookLevel (W : Type 0) : Type 0 where
  pub price : W
  pub size : ℤ
  pub destination : String
  -- the time stamp, which nothing reads
  pub book_time : Option ℕ

pub record BestPriceSnapshot (W : Type 0) : Type 0 where
  pub symbol : String
  pub best_bid_px : W
  pub best_bid_sz : ℤ
  pub best_ask_px : W
  pub best_ask_sz : ℤ
  pub global_bid_px : W
  pub global_bid_sz : ℤ
  pub global_ask_px : W
  pub global_ask_sz : ℤ
  pub local_bid_px : W
  pub local_bid_sz : ℤ
  pub local_ask_px : W
  pub local_ask_sz : ℤ
  pub update_ts_ns : ℕ

pub record SymbolState (W : Type 0) : Type 0 where
  pub symbol : String
  pub best_price : BestPriceSnapshot W
  pub global_bids : List (BookLevel W)
  pub global_asks : List (BookLevel W)
  pub local_bids : List (BookLevel W)
  pub local_asks : List (BookLevel W)
  pub global_l1_voi : W
  pub local_multi_level_voi : W
  pub last_trade_price : W
  pub last_trade_size : ℤ
  pub last_trade_update_ns : ℕ
  pub last_book_update_ns : ℕ

-- `MarketState.by_symbol`
abbrev pub MarketState : Type 0 → Type 0
MarketState W = Dict String (SymbolState W)

-- A test that an integer is positive; `total <= 0` is its negation.
abbrev pub is_pos_ℤ : ℤ → Bool
is_pos_ℤ a = ltb 0 (pos_part a)

module _ {W : Type 0} ⦃f : Float W⦄ where
  -- `0.5 * (a + b)`
  abbrev pub middle : W → W → W
  middle a b = mul (decimal 5 1) (add a b)

  abbrev pub new_snapshot : String → BestPriceSnapshot W
  new_snapshot symbol = record {
    symbol = symbol;
    best_bid_px = nought;
    best_bid_sz = pos 0;
    best_ask_px = nought;
    best_ask_sz = pos 0;
    global_bid_px = nought;
    global_bid_sz = pos 0;
    global_ask_px = nought;
    global_ask_sz = pos 0;
    local_bid_px = nought;
    local_bid_sz = pos 0;
    local_ask_px = nought;
    local_ask_sz = pos 0;
    update_ts_ns = 0;
  }

  abbrev pub new_symbol_state : String → SymbolState W
  new_symbol_state symbol = record {
    symbol = symbol;
    best_price = new_snapshot symbol;
    global_bids = [];
    global_asks = [];
    local_bids = [];
    local_asks = [];
    global_l1_voi = nought;
    local_multi_level_voi = nought;
    last_trade_price = nought;
    last_trade_size = pos 0;
    last_trade_update_ns = 0;
    last_book_update_ns = 0;
  }

  abbrev pub ensured :
      Option (SymbolState W) → String → MarketState W → SymbolState W × MarketState W
  ensured none symbol m = (new_symbol_state symbol, insert symbol (new_symbol_state symbol) m)
  ensured (some s) symbol m = (s, m)

  unfoldable pub ensure_symbol : String → MarketState W → SymbolState W × MarketState W
  ensure_symbol symbol m = ensured (lookup symbol m) symbol m

  -- A positive size on either side weighs the other side's price.
  abbrev pub weighted : W → ℤ → W → ℤ → W
  weighted ask_px bid_sz bid_px ask_sz =
      div (add (mul ask_px (of_ℤ bid_sz)) (mul bid_px (of_ℤ ask_sz))) (of_ℤ (bid_sz +ℤ ask_sz))

  abbrev pub imbalance : ℤ → ℤ → W
  imbalance bid_sz ask_sz = div (of_ℤ (bid_sz -ℤ ask_sz)) (of_ℤ (bid_sz +ℤ ask_sz))

  unfoldable pub snapshot_mid_price : BestPriceSnapshot W → W
  snapshot_mid_price b =
      if is_pos b.best_bid_px && is_pos b.best_ask_px
      then middle b.best_bid_px b.best_ask_px
      else nought

  unfoldable pub snapshot_spread : BestPriceSnapshot W → W
  snapshot_spread b =
      if is_pos b.best_bid_px && is_pos b.best_ask_px
      then max_f (sub b.best_ask_px b.best_bid_px) nought
      else nought

  unfoldable pub snapshot_microprice : BestPriceSnapshot W → W
  unfolding snapshot_mid_price
  snapshot_microprice b =
      if is_pos_ℤ (b.best_bid_sz +ℤ b.best_ask_sz)
      then weighted b.best_ask_px b.best_bid_sz b.best_bid_px b.best_ask_sz
      else snapshot_mid_price b

  unfoldable pub snapshot_book_imbalance : BestPriceSnapshot W → W
  snapshot_book_imbalance b =
      if is_pos_ℤ (b.best_bid_sz +ℤ b.best_ask_sz)
      then imbalance b.best_bid_sz b.best_ask_sz
      else nought

-- `side.lower()` as a side; any other text is the `ValueError`.
unfoldable pub side_named : ⦃texts : Texts⦄ → String → Option OrderSide
side_named ⦃texts⦄ side =
    if texts.lower side == "bid"
    then some bid
    else if texts.lower side == "ask"
    then some ask
    else none

-- `if local and local_size > 0: return local_size`, and the size otherwise.
abbrev local_size_or : Bool → ℤ → ℤ → ℤ
local_size_or is_local local_size size =
    if is_local && is_pos_ℤ local_size then local_size else size

module _ {W : Type 0} where
  unfoldable pub book_side : OrderSide → Bool → SymbolState W → List (BookLevel W)
  book_side bid true s = s.local_bids
  book_side bid false s = s.global_bids
  book_side ask true s = s.local_asks
  book_side ask false s = s.global_asks

  unfoldable pub fallback_book_sz : OrderSide → Bool → SymbolState W → ℤ
  fallback_book_sz bid is_local s =
      local_size_or is_local s.best_price.local_bid_sz s.best_price.best_bid_sz
  fallback_book_sz ask is_local s =
      local_size_or is_local s.best_price.local_ask_sz s.best_price.best_ask_sz

  -- `sum(max(level.size, 0) for level in levels)`
  abbrev pub depth_of : List (BookLevel W) → ℕ
  depth_of [] = 0
  depth_of (l ∷ ls) = pos_part l.size + depth_of ls

module _ {W : Type 0} ⦃f : Float W⦄ where
  abbrev local_price_or : Bool → W → W → W
  local_price_or is_local local_price price =
      if is_local && is_pos local_price then local_price else price

  unfoldable pub fallback_book_px : OrderSide → Bool → SymbolState W → W
  fallback_book_px bid is_local s =
      local_price_or is_local s.best_price.local_bid_px s.best_price.best_bid_px
  fallback_book_px ask is_local s =
      local_price_or is_local s.best_price.local_ask_px s.best_price.best_ask_px

  unfoldable pub fallback_microprice : Bool → SymbolState W → W
  unfolding snapshot_microprice
  fallback_microprice false s = snapshot_microprice s.best_price
  fallback_microprice true s =
      let b = s.best_price in
      if is_pos_ℤ (b.local_bid_sz +ℤ b.local_ask_sz)
      then weighted b.local_ask_px b.local_bid_sz b.local_bid_px b.local_ask_sz
      else if is_pos b.local_bid_px && is_pos b.local_ask_px
      then middle b.local_bid_px b.local_ask_px
      else snapshot_microprice b

  unfoldable pub fallback_book_imbalance : Bool → SymbolState W → W
  unfolding snapshot_book_imbalance
  fallback_book_imbalance false s = snapshot_book_imbalance s.best_price
  fallback_book_imbalance true s =
      if is_pos_ℤ (s.best_price.local_bid_sz +ℤ s.best_price.local_ask_sz)
      then imbalance s.best_price.local_bid_sz s.best_price.local_ask_sz
      else snapshot_book_imbalance s.best_price
