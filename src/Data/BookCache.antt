-- ===== src/Data/BookCache.antt =====
-- src/data/book_cache.py: the book as the broker reports it, without the program's own orders, and
-- the order flow between two books.
-- A flow is a whole number of lots, which the code turns into a float: exact below 2 ^ 53. What the
-- broker leaves `None` is `none`.
pub mod Flow
pub mod FlowBounds
pub mod Refresh
pub mod Refreshed
pub mod Subtracted
use stevehft.Prelude.{
  ℕ, ◌+◌, ◌-◌, String, Bool, true, not, ◌||◌, Option, none, some, List, [], ◌∷◌, map, ltb, leb,
  ◌==◌, string_eq, if◌then◌else◌,
}
use stevehft.Prelude.Int.{ℤ, pos, pos_part, ◌-ℤ◌, int_eq}
use stevehft.Prelude.Dict.{Dict, lookup, insert, get_or}
use stevehft.Prelude.Float.{Float, nought, not_pos, mul, of_ℕ, to_nearest}
use stevehft.Execution.Intents.{OrderSide}
use stevehft.Execution.Orders.{WorkingOrder, remaining_size}
use stevehft.Execution.Ledger.{OrderLedger}
use stevehft.Execution.Ledger.Live.{live_orders}
use stevehft.Data.State.{BookLevel, BestPriceSnapshot}

-- What the getters of the broker's best price return.
pub record BestPrice (W : Type 0) : Type 0 where
  pub get_bid_price : Option W
  pub get_bid_size : Option ℤ
  pub get_ask_price : Option W
  pub get_ask_size : Option ℤ
  pub get_global_bid_price : Option W
  pub get_global_bid_size : Option ℤ
  pub get_global_ask_price : Option W
  pub get_global_ask_size : Option ℤ
  pub get_local_bid_price : Option W
  pub get_local_bid_size : Option ℤ
  pub get_local_ask_price : Option W
  pub get_local_ask_size : Option ℤ

pub record OrderBookEntry (W : Type 0) : Type 0 where
  pub price : Option W
  pub size : Option ℤ
  -- `none` also where the attribute is missing
  pub destination : Option String
  pub time : Option ℕ

-- `int(size or 0)`
abbrev pub size_or : Option ℤ → ℤ
size_or z = get_or z (pos 0)

-- The sizes that are left to remove once a level's size has been taken.
abbrev pub remove_from : ℤ → ℕ → ℤ → Dict ℤ ℕ → Dict ℤ ℕ
remove_from key remaining_to_remove size own =
    if ltb 0 remaining_to_remove
    then insert key (pos_part (pos remaining_to_remove -ℤ size)) own
    else own

-- `level_size`, and `max(level_size - remaining_to_remove, 0)` where there is something to remove.
abbrev pub left_size : ℕ → ℕ → ℕ
left_size remaining_to_remove level_size =
    if ltb 0 remaining_to_remove then level_size - remaining_to_remove else level_size

module _ {W : Type 0} ⦃f : Float W⦄ where
  -- `float(price or 0.0)`
  abbrev pub price_or : Option W → W
  price_or p = get_or p nought

  unfoldable pub normalize_best_price : String → BestPrice W → ℕ → BestPriceSnapshot W
  normalize_best_price symbol b ts_ns = record {
    symbol = symbol;
    best_bid_px = price_or b.get_bid_price;
    best_bid_sz = size_or b.get_bid_size;
    best_ask_px = price_or b.get_ask_price;
    best_ask_sz = size_or b.get_ask_size;
    global_bid_px = price_or b.get_global_bid_price;
    global_bid_sz = size_or b.get_global_bid_size;
    global_ask_px = price_or b.get_global_ask_price;
    global_ask_sz = size_or b.get_global_ask_size;
    local_bid_px = price_or b.get_local_bid_price;
    local_bid_sz = size_or b.get_local_bid_size;
    local_ask_px = price_or b.get_local_ask_price;
    local_ask_sz = size_or b.get_local_ask_size;
    update_ts_ns = ts_ns;
  }

  abbrev level_of : OrderBookEntry W → BookLevel W
  level_of entry = record {
    price = price_or entry.price;
    size = size_or entry.size;
    destination = get_or entry.destination "";
    book_time = entry.time;
  }

  unfoldable pub normalize_book_side : List (OrderBookEntry W) → List (BookLevel W)
  normalize_book_side entries = map level_of entries

  unfoldable pub price_key : W → ℤ
  price_key price = to_nearest (mul price (of_ℕ 1000000000))

  -- An order that does not stand in the broker's book.
  unfoldable pub is_unlisted : WorkingOrder W → Bool
  is_unlisted o =
      o.status == "pending_new"
      || o.status == "pending_flatten"
      || not_pos o.price
      || leb (remaining_size o) 0

  unfoldable pub add_own : List (WorkingOrder W) → Dict ℤ ℕ → Dict ℤ ℕ
  unfolding is_unlisted price_key
  add_own [] own = own
  add_own (o ∷ os) own = add_own os (
      if is_unlisted o
      then own
      else insert (price_key o.price) (get_or (lookup (price_key o.price) own) 0 + remaining_size o)
          own)

  unfoldable pub clean_levels : List (BookLevel W) → Dict ℤ ℕ → List (BookLevel W)
  unfolding price_key
  clean_levels [] own = []
  clean_levels (level ∷ levels) own =
      let key = price_key level.price in
      let remaining_to_remove = get_or (lookup key own) 0 in
      let level_size = left_size remaining_to_remove (pos_part level.size) in
      let rest = clean_levels levels (remove_from key remaining_to_remove level.size own) in
      if ltb 0 level_size then record level { size = pos level_size } ∷ rest else rest

  -- `if not own_size_by_price: return levels`
  abbrev pub clean_unless_empty : Dict ℤ ℕ → List (BookLevel W) → List (BookLevel W)
  clean_unless_empty [] levels = levels
  clean_unless_empty (entry ∷ own) levels = clean_levels levels (entry ∷ own)

  abbrev pub subtract_from :
      Option (OrderLedger W) → String → OrderSide → List (BookLevel W) → List (BookLevel W)
  subtract_from none symbol side levels = levels
  subtract_from (some l) symbol side [] = []
  subtract_from (some l) symbol side (level ∷ levels) =
      clean_unless_empty (add_own (live_orders (some symbol) (some side) l) []) (level ∷ levels)

  unfoldable pub subtract_own_local_orders :
      Option (OrderLedger W) → String → OrderSide → List (BookLevel W) → List (BookLevel W)
  unfolding add_own live_orders clean_levels
  subtract_own_local_orders order_ledger symbol side levels =
      subtract_from order_ledger symbol side levels
