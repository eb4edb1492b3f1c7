-- ===== src/Strategy/Sweep/Compute.antt =====
-- src/strategy/sweep_reversion.py, the second half of `compute`: the exit of the position that the
-- ladder has built, the inventory target, and the outputs.
use stevehft.Prelude.{
  ℕ, ◌+◌, String, Bool, true, false, not, ◌&&◌, ◌||◌, [], ◌∷◌, length, ltb, Eq, if◌then◌else◌,
}
use stevehft.Prelude.Int.{ℤ, pos, negsuc, abs, beq_ℤ}
use stevehft.Prelude.Float.{
  Float, nought, is_pos, le, sub, mul, div, neg, abs_f, max_f, clamp, decimal,
}
use stevehft.Data.State.Signals.{mid_price}
use stevehft.Strategy.Sweep.{SweepState, absorb_sweep_fills}
use stevehft.Strategy.Sweep.Scores.{
  Arguments, short_ma, long_ma, deviation_ticks, magnitude_score, cross_detected, entry_ma_price,
  reversion_score, faded_momentum, fade_shift_ticks,
}
use stevehft.Strategy.Sweep.Ladder.{Levels, lots_in, bid_levels, ask_levels, note_pending}

pub record SweepReversionOutputs (W : Type 0) : Type 0 where
  pub physics_momentum_shift_ticks : W
  pub return_zscore : W
  pub mean_reversion_score : W
  pub noise_fade_shift_ticks : W
  pub mr_error_fast_ticks : W
  pub mr_error_medium_ticks : W
  pub mr_error_slow_ticks : W
  pub mr_reversion_quality_fast : W
  pub mr_reversion_quality_medium : W
  pub mr_reversion_quality_slow : W
  pub mr_crossed_fast : Bool
  pub mr_crossed_medium : Bool
  pub mr_crossed_slow : Bool
  pub mr_cross_direction : ℤ
  pub mr_cross_depth : ℤ
  pub mr_cross_anchor_price : W
  pub sweep_cross_direction : ℤ
  pub sweep_cross_depth : ℤ
  pub sweep_cross_anchor_tau_s : W
  pub sweep_cross_anchor_price : W
  pub noise_fade_taker_mode : Bool
  pub noise_fade_taker_size_lots : ℕ
  pub noise_fade_ma_price : W
  pub noise_fade_bid_px : W
  pub noise_fade_ask_px : W
  pub sweep_deviation_ticks : W
  pub sweep_short_ma_price : W
  pub sweep_long_ma_price : W
  pub sweep_detected : Bool
  pub sweep_reversion_bid_levels : Levels W
  pub sweep_reversion_ask_levels : Levels W
  pub sweep_reversion_mode : Bool
  pub sweep_reversion_size_lots : ℕ
  pub sweep_exit_mode : Bool
  pub sweep_exit_lots : ℕ
  pub sweep_exit_side_sign : W
  pub sweep_exit_trigger : String
  pub sweep_exit_fill_price : W
  pub inventory_target_lots : ℤ

-- What an exit is to do: how many lots, on which side, why, and at which fill price.
pub record Exit (W : Type 0) : Type 0 where
  pub mode : Bool
  pub lots : ℕ
  pub side_sign : W
  pub trigger : String
  pub fill_price : W

module _ {W : Type 0} ⦃f : Float W⦄ where
  -- `fill_was_in_sweep`
  unfoldable pub in_sweep : Arguments W → SweepState W → Bool
  unfolding short_ma
  in_sweep args s =
      is_pos s.sweep_fill_price
      && le (mul args.history_config.sweep_min_edge_ticks args.tick_size)
          (abs_f (sub s.sweep_fill_price (short_ma args s)))

  abbrev exit_thresh : Arguments W → W
  exit_thresh args = mul args.history_config.sweep_exit_threshold_ticks args.tick_size

  unfoldable pub price_reverted : Arguments W → SweepState W → Bool
  unfolding short_ma mid_price
  price_reverted args s =
      le (abs_f (sub (mid_price args.state) (short_ma args s))) (exit_thresh args)

  unfoldable pub ma_came_to_price : Arguments W → SweepState W → Bool
  unfolding short_ma
  ma_came_to_price args s = le (abs_f (sub (short_ma args s) s.sweep_fill_price)) (exit_thresh args)

  unfoldable pub may_exit : Arguments W → SweepState W → Bool
  unfolding short_ma in_sweep price_reverted ma_came_to_price
  may_exit args s =
      not (beq_ℤ s.sweep_fill_lots (pos 0))
      && is_pos (short_ma args s)
      && in_sweep args s
      && (price_reverted args s || ma_came_to_price args s)

  abbrev pub no_exit : Exit W
  no_exit = record { mode = false; lots = 0; side_sign = nought; trigger = ""; fill_price = nought }

  abbrev pub exit_all : Arguments W → SweepState W → Exit W
  exit_all args s = record {
    mode = true;
    lots = abs s.sweep_fill_lots;
    side_sign = neg s.sweep_fill_side_sign;
    trigger = if price_reverted args s then "price_reverted" else "ma_came_to_price";
    fill_price = s.sweep_fill_price;
  }

  abbrev pub cleared : SweepState W → SweepState W
  cleared s = record s {
    sweep_fill_price = nought;
    sweep_fill_lots = pos 0;
    sweep_fill_side_sign = nought;
  }

  -- The exit is told and the tracked position forgotten, for the pipeline unloads it in this cycle.
  unfoldable pub exit_sweep : Arguments W → SweepState W → Exit W × SweepState W
  unfolding may_exit price_reverted
  exit_sweep args s = if may_exit args s then (exit_all args s, cleared s) else (no_exit, s)

  abbrev target_score : Arguments W → SweepState W → W
  target_score args s =
      clamp
        (div (sub (long_ma args s) (short_ma args s))
          (max_f (mul args.tick_size (decimal 3 0)) (decimal 1 9)))
        (neg (decimal 1 0)) (decimal 1 0)

  unfoldable pub inventory_target : Arguments W → SweepState W → ℤ
  unfolding long_ma short_ma
  inventory_target args s =
      if is_pos (long_ma args s)
        && is_pos (short_ma args s)
        && not args.flatten_only_mode
        && le (decimal 33 2) (abs_f (target_score args s))
      then (if is_pos (target_score args s) then pos 1 else negsuc 0)
      else pos 0

  abbrev first_px : Levels W → W
  first_px [] = nought
  first_px (level ∷ levels) = level.0

  -- `s` is the state after the fills have been absorbed; the exit does not change what the scores read.
  abbrev pub outputs : Arguments W → SweepState W → Exit W → SweepReversionOutputs W
  outputs args s exit =
      let bids = bid_levels args s in
      let asks = ask_levels args s in
      let mode = ltb 0 (length bids) || ltb 0 (length asks) in
      record {
        physics_momentum_shift_ticks = faded_momentum args s;
        return_zscore = if s.initialized then s.ewma_return_zscore else nought;
        mean_reversion_score = reversion_score args s;
        noise_fade_shift_ticks = fade_shift_ticks args s;
        mr_error_fast_ticks = s.mr_error_fast_ticks;
        mr_error_medium_ticks = s.mr_error_medium_ticks;
        mr_error_slow_ticks = s.mr_error_slow_ticks;
        mr_reversion_quality_fast = s.mr_reversion_quality_fast;
        mr_reversion_quality_medium = s.mr_reversion_quality_medium;
        mr_reversion_quality_slow = s.mr_reversion_quality_slow;
        mr_crossed_fast = s.mr_crossed_fast;
        mr_crossed_medium = s.mr_crossed_medium;
        mr_crossed_slow = s.mr_crossed_slow;
        mr_cross_direction = s.mr_cross_direction;
        mr_cross_depth = s.mr_cross_depth;
        mr_cross_anchor_price = s.mr_cross_anchor_price;
        sweep_cross_direction = s.sweep_cross_direction;
        sweep_cross_depth = s.sweep_cross_depth;
        sweep_cross_anchor_tau_s = s.sweep_cross_anchor_tau_s;
        sweep_cross_anchor_price = s.sweep_cross_anchor_price;
        noise_fade_taker_mode = mode;
        noise_fade_taker_size_lots = lots_in bids + lots_in asks;
        noise_fade_ma_price = entry_ma_price args s;
        noise_fade_bid_px = first_px bids;
        noise_fade_ask_px = first_px asks;
        sweep_deviation_ticks = deviation_ticks args s;
        sweep_short_ma_price = short_ma args s;
        sweep_long_ma_price = long_ma args s;
        sweep_detected = is_pos (magnitude_score args s) || cross_detected args s;
        sweep_reversion_bid_levels = bids;
        sweep_reversion_ask_levels = asks;
        sweep_reversion_mode = mode;
        sweep_reversion_size_lots = lots_in bids + lots_in asks;
        sweep_exit_mode = exit.mode;
        sweep_exit_lots = exit.lots;
        sweep_exit_side_sign = exit.side_sign;
        sweep_exit_trigger = exit.trigger;
        sweep_exit_fill_price = exit.fill_price;
        inventory_target_lots = inventory_target args s;
      }

module _ {W : Type 0} ⦃f : Float W⦄ ⦃e : Eq W⦄ where
  -- Both sides' levels are noted as pending.
  abbrev pub note_ladder : Arguments W → SweepState W → SweepState W
  note_ladder args s =
      note_pending (neg (decimal 1 0)) (ask_levels args s)
        (note_pending (decimal 1 0) (bid_levels args s) s)

  abbrev pub compute_absorbed : Arguments W → SweepState W → SweepReversionOutputs W × SweepState W
  compute_absorbed args s =
      let (exit, s') = exit_sweep args (note_ladder args s) in (outputs args s exit, s')

  unfoldable pub compute : Arguments W → SweepState W → SweepReversionOutputs W × SweepState W
  unfolding absorb_sweep_fills note_pending exit_sweep
  compute args s =
      compute_absorbed args
        (absorb_sweep_fills args.state.symbol args.order_ledger args.tick_size s)
