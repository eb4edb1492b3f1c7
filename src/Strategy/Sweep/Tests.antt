-- ===== src/Strategy/Sweep/Tests.antt =====
-- A ladder of three bids below the average of 102, and an order of 2 lots at 100 that has been filled.
use stevehft.Prelude.{ℕ, ◌≡◌, refl, true, false, some, [], ◌∷◌, string_eq, nat_eq}
use stevehft.Prelude.Int.{pos, ◌-ℤ◌, ◌+ℤ◌}
use stevehft.Prelude.Dict.{lookup, insert}
use stevehft.Execution.Ledger.{OrderLedger, empty}
use stevehft.Execution.Lots.{normalize_lots}
use stevehft.Execution.Ledger.Audits.{audits_for_symbol, ensured, request, put_audit, ensure_audit}
use stevehft.Execution.Ledger.Fills.{append_fill, classify, book_session, book_audit}
use stevehft.Execution.Samples.{whole, strokes, fill}
use stevehft.Data.State.{new_symbol_state, new_snapshot}
use stevehft.Strategy.Sweep.{SweepState, SweepConfig, absorb_sweep_fills}
use stevehft.Strategy.Sweep.Scores.{Arguments}
use stevehft.Strategy.Sweep.Ladder.{bid_levels, ask_levels}
use stevehft.Strategy.Sweep.Compute.{compute}
use stevehft.Strategy.Sweep.Absorbed.{absorb_sweep_fills_twice}
use stevehft.Strategy.Sweep.Passive.{IsPassive, compute-IsPassive}

abbrev config : SweepConfig ℕ
config = record {
  sweep_threshold_ticks = 2;
  sweep_min_edge_ticks = 1;
  mean_reversion_momentum_fade = 0;
  sweep_max_toxicity = 1;
  sweep_max_book_age_ms = 9999;
  sweep_ladder_depth_levels = pos 3;
  sweep_exit_threshold_ticks = 1;
}

abbrev booked : OrderLedger ℕ
booked = append_fill fill (empty 1)

abbrev args : Arguments ℕ
args = record {
  state = record (new_symbol_state "AAPL") {
    best_price = record (new_snapshot "AAPL") { best_bid_px = 110; best_ask_px = 112 };
  };
  tick_size = 1;
  now_ns = 10;
  inventory_lots = pos 0;
  inventory_limit_lots = pos 10;
  flatten_only_mode = false;
  session_open = true;
  toxicity_score = 0;
  rls_confidence = 0;
  physics_momentum_shift_ticks = 0;
  momentum_max = 1;
  order_ledger = some booked;
  history_config = config;
}

abbrev start : SweepState ℕ
start = record {
  initialized = true;
  updates_seen = 6;
  ewma_return_zscore = 0;
  ewma_sweep_short_ma = 0;
  ewma_sweep_long_ma = 0;
  mr_ema_fast_price = 102;
  mr_ema_slow_price = 102;
  mr_error_fast_ticks = 1;
  mr_error_medium_ticks = 0;
  mr_error_slow_ticks = 0;
  mr_reversion_quality_fast = 0;
  mr_reversion_quality_medium = 0;
  mr_reversion_quality_slow = 0;
  mr_crossed_fast = false;
  mr_crossed_medium = false;
  mr_crossed_slow = false;
  mr_cross_direction = pos 0;
  mr_cross_depth = pos 0;
  mr_cross_anchor_price = 0;
  sweep_fill_price = 0;
  sweep_fill_lots = pos 0;
  sweep_fill_side_sign = 0;
  sweep_pending_levels = (100, 1, 0) ∷ [];
  sweep_cross_direction = pos 0;
  sweep_cross_depth = pos 0;
  sweep_cross_anchor_tau_s = 0;
  sweep_cross_anchor_price = 0;
}

absorb_sweep_fills_twice_example :
    absorb_sweep_fills "AAPL" (some booked) 1 (absorb_sweep_fills "AAPL" (some booked) 1 start)
    ≡ absorb_sweep_fills "AAPL" (some booked) 1 start
absorb_sweep_fills_twice_example = absorb_sweep_fills_twice "AAPL" booked 1 start

compute-IsPassive_example : IsPassive args (compute args start).0
compute-IsPassive_example = compute-IsPassive args start

absorbed_lots : (absorb_sweep_fills "AAPL" (some booked) 1 start).sweep_fill_lots ≡ pos 2
unfolding absorb_sweep_fills audits_for_symbol lookup append_fill classify normalize_lots ensured
    empty request book_session put_audit ensure_audit insert book_audit ◌+ℤ◌
absorbed_lots = refl

ladder : (compute args start).0.sweep_reversion_bid_levels ≡ (101, 1) ∷ (100, 2) ∷ (99, 3) ∷ []
unfolding compute bid_levels audits_for_symbol lookup append_fill classify normalize_lots ensured
    empty request book_session put_audit ensure_audit insert book_audit
ladder = refl

-- The two lots are counted again in the next cycle, for each of the levels that they are near.
recounted : (compute args (compute args start).1).1.sweep_fill_lots ≡ pos 8
unfolding compute bid_levels audits_for_symbol lookup append_fill classify normalize_lots ensured
    empty request book_session put_audit ensure_audit insert book_audit ask_levels ◌+ℤ◌ ◌-ℤ◌
recounted = refl
