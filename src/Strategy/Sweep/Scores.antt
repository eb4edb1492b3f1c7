-- ===== src/Strategy/Sweep/Scores.antt =====
-- src/strategy/sweep_reversion.py, the first half of `compute`: how far the price has been swept from
-- the short moving average, how sure that is, and what the quotes are shifted by.
use stevehft.Prelude.{ℕ, Bool, not, ◌&&◌, ◌||◌, Option, ltb, if◌then◌else◌}
use stevehft.Prelude.Int.{ℤ, pos, negsuc, ◌-ℤ◌, ltb_ℤ, beq_ℤ}
use stevehft.Prelude.Float.{
  Float, nought, is_pos, not_pos, lt, le, add, sub, mul, div, neg, abs_f, max_f, clamp, decimal,
  of_ℕ, of_ℤ,
}
use stevehft.Execution.Ledger.{OrderLedger}
use stevehft.Data.State.{SymbolState}
use stevehft.Data.State.Signals.{mid_price}
use stevehft.Strategy.ParamMath.{ramp_unit}
use stevehft.Strategy.Sweep.{SweepState, SweepConfig, is_nought}

-- The arguments of `compute` but for the adaptive state.
pub record Arguments (W : Type 0) : Type 0 where
  pub state : SymbolState W
  pub tick_size : W
  pub now_ns : ℕ
  pub inventory_lots : ℤ
  pub inventory_limit_lots : ℤ
  pub flatten_only_mode : Bool
  pub session_open : Bool
  pub toxicity_score : W
  pub rls_confidence : W
  pub physics_momentum_shift_ticks : W
  pub momentum_max : W
  pub order_ledger : Option (OrderLedger W)
  pub history_config : SweepConfig W

module _ {W : Type 0} ⦃f : Float W⦄ where
  -- `average or mid_price`
  abbrev or_mid : W → W → W
  or_mid average mid = if is_nought average then mid else average

  abbrev weighted : W → W → W → W
  weighted fast medium slow =
      add (add (mul (decimal 5 1) fast) (mul (decimal 3 1) medium)) (mul (decimal 2 1) slow)

  abbrev as_float : Bool → W
  as_float b = if b then decimal 1 0 else nought

  abbrev one_tick : Arguments W → W
  one_tick args = max_f args.tick_size (decimal 1 9)

  unfoldable pub short_ma : Arguments W → SweepState W → W
  unfolding mid_price
  short_ma args s =
      if not_pos s.mr_ema_fast_price
      then or_mid s.ewma_sweep_short_ma (mid_price args.state)
      else s.mr_ema_fast_price

  unfoldable pub long_ma : Arguments W → SweepState W → W
  unfolding mid_price
  long_ma args s =
      if not_pos s.mr_ema_slow_price
      then or_mid s.ewma_sweep_long_ma (mid_price args.state)
      else s.mr_ema_slow_price

  unfoldable pub deviation_ticks : Arguments W → SweepState W → W
  unfolding mid_price short_ma
  deviation_ticks args s =
      if is_nought s.mr_error_fast_ticks && is_pos (short_ma args s)
      then div (sub (mid_price args.state) (short_ma args s)) (one_tick args)
      else s.mr_error_fast_ticks

  unfoldable pub magnitude_score : Arguments W → SweepState W → W
  unfolding ramp_unit deviation_ticks
  magnitude_score args s =
      let sweep_thresh = args.history_config.sweep_threshold_ticks in
      ramp_unit (abs_f (deviation_ticks args s)) sweep_thresh (add sweep_thresh (decimal 2 0))

  unfoldable pub reversion_quality : SweepState W → W
  reversion_quality s =
      clamp
        (weighted s.mr_reversion_quality_fast s.mr_reversion_quality_medium
          s.mr_reversion_quality_slow)
        nought (decimal 1 0)

  abbrev direction_of : W → ℤ
  direction_of deviation =
      if is_pos deviation then pos 1 else (if lt deviation nought then negsuc 0 else pos 0)

  unfoldable pub cross_detected : Arguments W → SweepState W → Bool
  unfolding deviation_ticks reversion_quality
  cross_detected args s =
      let direction = direction_of (deviation_ticks args s) in
      ltb_ℤ (pos 0) s.sweep_cross_depth
      && not (beq_ℤ s.sweep_cross_direction (pos 0))
      && (beq_ℤ direction (pos 0) || beq_ℤ s.sweep_cross_direction direction)
      && le (decimal 55 2) (reversion_quality s)

  unfoldable pub entry_ma_price : Arguments W → SweepState W → W
  unfolding cross_detected short_ma
  entry_ma_price args s =
      if cross_detected args s && is_pos s.sweep_cross_anchor_price
      then s.sweep_cross_anchor_price
      else short_ma args s

  unfoldable pub reversion_score : Arguments W → SweepState W → W
  unfolding magnitude_score cross_detected ramp_unit reversion_quality
  reversion_score args s =
      clamp
        (mul
          (mul
            (max_f (magnitude_score args s) (
              mul (mul (decimal 35 2) (of_ℤ s.sweep_cross_depth))
                (as_float (cross_detected args s))))
            (sub (decimal 1 0) args.rls_confidence))
          (ramp_unit (reversion_quality s) (decimal 45 2) (decimal 70 2)))
        nought (decimal 1 0)

  -- The momentum shift, faded when it goes the way of the sweep.
  unfoldable pub faded_momentum : Arguments W → SweepState W → W
  unfolding reversion_score deviation_ticks
  faded_momentum args s =
      let shift = args.physics_momentum_shift_ticks in
      let score = reversion_score args s in
      let sweep_sign : W =
        if is_pos (deviation_ticks args s) then decimal 1 0 else neg (decimal 1 0) in
      if is_pos score && is_pos (mul shift sweep_sign)
      then clamp
          (mul shift
            (sub (decimal 1 0) (mul args.history_config.mean_reversion_momentum_fade score)))
          (neg args.momentum_max) args.momentum_max
      else shift

  unfoldable pub fade_shift_ticks : Arguments W → SweepState W → W
  unfolding reversion_score
  fade_shift_ticks args s =
      clamp
        (mul
          (mul (neg (decimal 35 2)) (
            add
              (add (mul (mul (decimal 5 1) s.mr_reversion_quality_fast) s.mr_error_fast_ticks)
                (mul (mul (decimal 3 1) s.mr_reversion_quality_medium) s.mr_error_medium_ticks))
              (mul (mul (decimal 2 1) s.mr_reversion_quality_slow) s.mr_error_slow_ticks)))
          (reversion_score args s))
        (neg (decimal 1 0)) (decimal 1 0)

  unfoldable pub long_ma_drift_ticks : Arguments W → SweepState W → W
  unfolding short_ma long_ma
  long_ma_drift_ticks args s = div (sub (long_ma args s) (short_ma args s)) (one_tick args)

  abbrev pub book_age_ms : Arguments W → W
  book_age_ms args =
      let last = args.state.last_book_update_ns in
      if ltb 0 last
      then max_f (div (of_ℤ (pos args.now_ns -ℤ pos last)) (of_ℕ 1_000_000)) nought
      else decimal 9999 0
