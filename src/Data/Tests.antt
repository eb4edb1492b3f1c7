-- ===== src/Data/Tests.antt =====
-- A book of two levels, an order of the program's own in it, and a trader that reports it.
use stevehft.Prelude.{
  HasValue, ◌>>=◌, arith, ◌-◌, ℕ, ◌≤◌, ◌≡◌, refl, All, any, true, some, List, [], ◌∷◌, string_eq,
}
use stevehft.Prelude.Int.{pos, negsuc, abs, ◌+ℤ◌, ◌-ℤ◌}
use stevehft.Prelude.Dict.{lookup, get_or}
use stevehft.Prelude.Texts.{Texts}
use stevehft.Execution.Intents.{bid, ask}
use stevehft.Execution.Samples.{whole}
use stevehft.Execution.Lots.{normalize_lots}
use stevehft.Execution.Ledger.{empty}
use stevehft.Execution.Orders.{remaining_size, is_live}
use stevehft.Execution.Ledger.Live.{live_orders, live_loop}
use stevehft.Data.Samples.{signed, ledger, level, market_trader, cache}
use stevehft.Data.BookCache.{subtract_own_local_orders, is_unlisted, price_key}
use stevehft.Data.BookCache.Subtracted.{
  size_at, own_at, IsCount, HasSize, is_listed, subtract_own_local_orders_lem,
}
use stevehft.Data.BookCache.Flow.{l1_side_flow, multi_level_flow, multi_level_scale}
use stevehft.Data.BookCache.FlowBounds.{multi_level_flow_bound}
use stevehft.Data.Lut.{LookupPoint, from_pairs, from_static, dual_run, dual_evaluate}
use stevehft.Data.Lut.Totality.{dual_run-total}
use stevehft.Data.BookCache.Refresh.{refresh_symbol}
use stevehft.Data.BookCache.Refreshed.{IsCoherent, refresh_symbol-IsCoherent}
use stevehft.Data.State.{
  BookLevel, SymbolState, new_symbol_state, side_named, book_side, ensure_symbol,
}
use stevehft.Data.State.Depth.{side_volume, levels_until, levels_to_cover_side_volume_fraction}
use stevehft.Data.State.Bounds.{IsLeast, levels_to_cover_side_volume_fraction-IsLeast}

instance abbrev plain : Texts
plain = record { strip = λ s. s; upper = λ s. s; lower = λ s. s }

abbrev market : SymbolState ℕ
market = record (new_symbol_state "CS1") {
  local_bids = level 100 4 ∷ level 99 6 ∷ [];
  local_asks = level 102 5 ∷ [];
}

cover : levels_to_cover_side_volume_fraction "bid" 1 true market ≡ some 2
unfolding levels_to_cover_side_volume_fraction side_volume side_named book_side levels_until
cover = refl

named_bid : side_named "bid" ≡ some bid
unfolding side_named
named_bid = refl

levels_to_cover_side_volume_fraction-IsLeast_example :
    IsLeast 10 (level 100 4 ∷ level 99 6 ∷ []) 0 2
unfolding side_volume book_side
levels_to_cover_side_volume_fraction-IsLeast_example =
    levels_to_cover_side_volume_fraction-IsLeast "bid" bid 1 true market 2 named_bid refl refl refl
      cover

abbrev own_levels : List (BookLevel ℕ)
own_levels = level 100 4 ∷ level 99 6 ∷ []

subtract_own_local_orders_lem_example :
    (size_at (pos 100_000_000_000) (subtract_own_local_orders (some ledger) "CS1" bid own_levels)
      ≡ 4 - 3)
    × All IsCount (subtract_own_local_orders (some ledger) "CS1" bid own_levels)
    × (any is_listed (live_orders (some "CS1") (some bid) ledger) ≡ true
        → All HasSize (subtract_own_local_orders (some ledger) "CS1" bid own_levels))
unfolding size_at own_at is_unlisted live_orders live_loop IsCount remaining_size is_live price_key
    empty normalize_lots
subtract_own_local_orders_lem_example =
    subtract_own_local_orders_lem ledger "CS1" bid own_levels (pos 100_000_000_000)
      (refl, (refl, tt))

multi_level_flow_bound_example :
    abs (multi_level_flow 3 market market) ≤ multi_level_scale 3 market market
multi_level_flow_bound_example = multi_level_flow_bound 3 market market

-- A price that is gone: the bids have lost their lots, the asks nothing.
vanished :
    (l1_side_flow bid (pos 100) (pos 7) (pos 0) (pos 0) ≡ negsuc 6)
    × (l1_side_flow ask (pos 100) (pos 7) (pos 0) (pos 0) ≡ pos 0)
unfolding l1_side_flow ◌+ℤ◌ ◌-ℤ◌
vanished = (refl, refl)

abbrev refreshed : SymbolState ℕ
refreshed = get_or (refresh_symbol market_trader "CS1" (pos 5) 9 cache 0).0 market

refresh_symbol-IsCoherent_example :
    IsCoherent refreshed
    × (lookup "CS1" (refresh_symbol market_trader "CS1" (pos 5) 9 cache 0).1.market_state
        ≡ some refreshed)
unfolding refresh_symbol ensure_symbol
refresh_symbol-IsCoherent_example =
    refresh_symbol-IsCoherent market_trader "CS1" (pos 5) 9 cache 0 refreshed refl refl

abbrev table : List (LookupPoint ℕ)
table = record { x = 0; y = 1 } ∷ record { x = 2; y = 3 } ∷ []

accepted_table : from_pairs table ≡ some table
unfolding from_pairs
accepted_table = refl

dual_run-total_example :
    HasValue (dual_run ((2, 7) ∷ (0, 1) ∷ []) (from_static table 1 1) >>= λ d. dual_evaluate 1 d)
dual_run-total_example =
    dual_run-total table table 1 1 ((2, 7) ∷ (0, 1) ∷ []) 1 accepted_table
      ((λ e. ground (arith, e)), ((λ e. ground (arith, e)), tt))
      (
        ((λ e. ground (arith, e)), ((λ e. ground (arith, e)), tt)),
        (((λ e. ground (arith, e)), ((λ e. ground (arith, e)), tt)), tt),
      )

-- Both buckets are warm, and the live table is read between its points, with a whole weight.
warm : (dual_run ((2, 7) ∷ (0, 1) ∷ []) (from_static table 1 1) >>= λ d. dual_evaluate 1 d) ≡ some 1
unfolding dual_run dual_evaluate from_static
warm = refl
