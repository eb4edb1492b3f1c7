-- ===== src/Data/BookCache/Refresh.antt =====
-- src/data/book_cache.py, `refresh_symbol`. The trader runs on a state of its own; a call that raises
-- answers `none` and ends the method, with what has been written until then. `ts_ns` is `now_ns` or the
-- clock's time. The log event is left out.
use stevehft.Prelude.{
  ℕ, String, Bool, true, false, Option, none, some, List, string_eq, if◌then◌else◌,
}
use stevehft.Prelude.Int.{ℤ, pos}
use stevehft.Prelude.Dict.{insert}
use stevehft.Prelude.Float.{Float, nought}
use stevehft.Execution.Intents.{bid, ask}
use stevehft.Execution.Ledger.{OrderLedger}
use stevehft.Data.State.{SymbolState, MarketState, ensure_symbol}
use stevehft.Data.BookCache.{
  BestPrice, OrderBookEntry, price_or, size_or, normalize_best_price, normalize_book_side,
  subtract_own_local_orders,
}
use stevehft.Data.BookCache.Flow.{
  level_price, level_size, compute_global_l1_voi, compute_local_multi_level_voi,
}

pub data OrderBookType : Type 0 where
  global_bid : OrderBookType
  global_ask : OrderBookType
  local_bid : OrderBookType
  local_ask : OrderBookType

-- How a call inside the `try` ends: with an `AttributeError`, another exception or a value.
pub data Answer (A : Type 0) : Type 0 where
  no_attribute : Answer A
  failed : Answer A
  answered : Option A → Answer A

pub record MarketTrader (T W : Type 0) : Type 0 where
  pub get_best_price : String → T → Option (BestPrice W) × T
  pub get_order_book : String → OrderBookType → ℤ → T → Option (List (OrderBookEntry W)) × T
  pub get_last_price : String → T → Answer W × T
  pub get_last_size : String → T → Answer ℤ × T

pub record BookCache (W : Type 0) : Type 0 where
  pub market_state : MarketState W
  pub has_order_book_type : Bool
  pub order_ledger : Option (OrderLedger W)

-- Whether the method goes on, the symbol's state and the trader's.
abbrev pub Refreshed : Type 0 → Type 0 → Type 0
Refreshed T W = Bool × SymbolState W × T

module _ {W : Type 0} ⦃f : Float W⦄ where
  abbrev pub put_global_bids : List (OrderBookEntry W) → SymbolState W → SymbolState W
  put_global_bids entries s = record s { global_bids = normalize_book_side entries }

  abbrev pub put_global_asks : List (OrderBookEntry W) → SymbolState W → SymbolState W
  put_global_asks entries s = record s { global_asks = normalize_book_side entries }

  abbrev pub put_local_bids :
      Option (OrderLedger W) → String → List (OrderBookEntry W) → SymbolState W → SymbolState W
  put_local_bids l symbol entries s = record s {
    local_bids = subtract_own_local_orders l symbol bid (normalize_book_side entries);
  }

  abbrev pub put_local_asks :
      Option (OrderLedger W) → String → List (OrderBookEntry W) → SymbolState W → SymbolState W
  put_local_asks l symbol entries s = record s {
    local_asks = subtract_own_local_orders l symbol ask (normalize_book_side entries);
  }

  -- The best local prices are those of the books without the program's own orders.
  abbrev pub with_local_best : SymbolState W → SymbolState W
  with_local_best s = record s {
    best_price = record s.best_price {
      local_bid_px = level_price s.local_bids;
      local_bid_sz = level_size s.local_bids;
      local_ask_px = level_price s.local_asks;
      local_ask_sz = level_size s.local_asks;
    };
  }

  abbrev pub with_voi : ℤ → SymbolState W → SymbolState W → SymbolState W
  with_voi max_depth previous s = record s {
    global_l1_voi = compute_global_l1_voi previous.best_price s.best_price;
    local_multi_level_voi = compute_local_multi_level_voi max_depth previous s;
  }

  abbrev pub without_trade : SymbolState W → SymbolState W
  without_trade s = record s {
    last_trade_price = nought;
    last_trade_size = pos 0;
    last_trade_update_ns = 0;
  }

module _ {T W : Type 0} ⦃f : Float W⦄ where
  abbrev pub side_read :
      (List (OrderBookEntry W) → SymbolState W → SymbolState W)
      → Option (List (OrderBookEntry W)) × T
      → SymbolState W
      → Refreshed T W
  side_read put (none, t) s = (false, s, t)
  side_read put (some entries, t) s = (true, put entries s, t)

  abbrev pub size_read : ℕ → SymbolState W → Answer ℤ × T → Refreshed T W
  size_read ts_ns s (no_attribute, t) = (true, without_trade s, t)
  size_read ts_ns s (failed, t) = (false, s, t)
  size_read ts_ns s (answered size, t) =
      (true, record s { last_trade_size = size_or size; last_trade_update_ns = ts_ns }, t)

  abbrev pub local_best_if : Refreshed T W → Refreshed T W
  local_best_if (false, s, t) = (false, s, t)
  local_best_if (true, s, t) = (true, with_local_best s, t)

module _ {T W : Type 0} where
  abbrev pub written :
      String
      → MarketState W
      → BookCache W
      → Refreshed T W
      → Option (SymbolState W) × BookCache W × T
  written symbol m cache (ok, s, t) =
      (if ok then some s else none, record cache { market_state = insert symbol s m }, t)

module _ {T W : Type 0} ⦃f : Float W⦄ (tr : MarketTrader T W) where
  abbrev pub read_side :
      String
      → ℤ
      → OrderBookType
      → (List (OrderBookEntry W) → SymbolState W → SymbolState W)
      → Refreshed T W
      → Refreshed T W
  read_side symbol max_depth book put (false, s, t) = (false, s, t)
  read_side symbol max_depth book put (true, s, t) =
      side_read put (tr.get_order_book symbol book max_depth t) s

  unfoldable pub read_books :
      Option (OrderLedger W) → String → ℤ → SymbolState W → T → Refreshed T W
  read_books l symbol max_depth s t = local_best_if (
      read_side symbol max_depth local_ask (put_local_asks l symbol) (
        read_side symbol max_depth local_bid (put_local_bids l symbol) (
          read_side symbol max_depth global_ask put_global_asks
            (read_side symbol max_depth global_bid put_global_bids (true, s, t)))))

  abbrev pub price_read : String → ℕ → SymbolState W → Answer W × T → Refreshed T W
  price_read symbol ts_ns s (no_attribute, t) = (true, without_trade s, t)
  price_read symbol ts_ns s (failed, t) = (false, s, t)
  price_read symbol ts_ns s (answered price, t) =
      size_read ts_ns (record s { last_trade_price = price_or price }) (tr.get_last_size symbol t)

  abbrev pub finish : String → ℤ → ℕ → SymbolState W → Refreshed T W → Refreshed T W
  finish symbol max_depth ts_ns previous (false, s, t) = (false, s, t)
  finish symbol max_depth ts_ns previous (true, s, t) =
      price_read symbol ts_ns (with_voi max_depth previous s) (tr.get_last_price symbol t)

  -- After the answer of `get_best_price`.
  abbrev pub best_read :
      BookCache W → String → ℤ → ℕ → SymbolState W → Option (BestPrice W) × T → Refreshed T W
  best_read cache symbol max_depth ts_ns s (none, t) = (false, s, t)
  best_read cache symbol max_depth ts_ns s (some b, t) =
      let s' = record s {
        best_price = normalize_best_price symbol b ts_ns;
        last_book_update_ns = ts_ns;
      } in
      finish symbol max_depth ts_ns s (
        if cache.has_order_book_type
        then read_books cache.order_ledger symbol max_depth s' t
        else (true, s', t))

  unfoldable pub refresh_symbol :
      String → ℤ → ℕ → BookCache W → T → Option (SymbolState W) × BookCache W × T
  unfolding ensure_symbol read_books
  refresh_symbol symbol max_depth ts_ns cache t =
      let (s, m) = ensure_symbol symbol cache.market_state in
      written symbol m cache (best_read cache symbol max_depth ts_ns s (tr.get_best_price symbol t))
