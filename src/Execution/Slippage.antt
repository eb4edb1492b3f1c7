-- ===== src/Execution/Slippage.antt =====
-- src/execution/slippage.py: what a fill cost against a benchmark price, and the expected slippage.
use stevehft.Prelude.{◌||◌, if◌then◌else◌}
use stevehft.Prelude.Float.{Float, nought, not_pos, sub, div, mul, add, max_f, min_f, decimal}
use stevehft.Execution.Intents.{OrderSide, bid, ask}

module _ {W : Type 0} ⦃f : Float W⦄ where
  abbrev shortfall_of : OrderSide → W → W → W
  shortfall_of bid fill_price benchmark_price = sub fill_price benchmark_price
  shortfall_of ask fill_price benchmark_price = sub benchmark_price fill_price

  unfoldable pub signed_shortfall_per_share : OrderSide → W → W → W
  signed_shortfall_per_share side fill_price benchmark_price =
      if not_pos fill_price || not_pos benchmark_price
      then nought
      else shortfall_of side fill_price benchmark_price

  unfoldable pub signed_shortfall_ticks : OrderSide → W → W → W → W
  unfolding signed_shortfall_per_share
  signed_shortfall_ticks side fill_price benchmark_price tick_size =
      if not_pos tick_size
      then nought
      else div (signed_shortfall_per_share side fill_price benchmark_price) tick_size

pub record ExpectedSlippageModelConfig (W : Type 0) : Type 0 where
  pub base_adverse_selection : W
  pub toxicity_adverse_selection_weight : W
  pub queue_penalty_weight : W
  pub liquidity_relief_weight : W
  pub liquidity_relief_threshold : W
  pub liquidity_relief_cap : W
  pub half_spread_crossing_fraction : W

module _ {W : Type 0} ⦃f : Float W⦄ (config : ExpectedSlippageModelConfig W) where
  open config use {
    base_adverse_selection, toxicity_adverse_selection_weight, queue_penalty_weight,
    liquidity_relief_weight, liquidity_relief_threshold, liquidity_relief_cap,
    half_spread_crossing_fraction,
  }

  unfoldable pub estimate_expected_passive_slippage_ticks : W → W → W → W → W
  estimate_expected_passive_slippage_ticks spread toxicity support liquidity =
      let adverse_selection =
        add base_adverse_selection
          (mul toxicity_adverse_selection_weight (max_f toxicity nought)) in
      let queue_penalty = mul queue_penalty_weight (max_f (sub (decimal 1 0) support) nought) in
      let liquidity_relief =
        mul liquidity_relief_weight
          (max_f (sub (min_f liquidity liquidity_relief_cap) liquidity_relief_threshold) nought) in
      max_f nought (
        sub
          (add (mul (mul half_spread_crossing_fraction (max_f spread nought)) adverse_selection)
            queue_penalty)
          liquidity_relief)

  unfoldable pub estimate_expected_aggressive_slippage_ticks : W → W
  estimate_expected_aggressive_slippage_ticks spread =
      max_f (mul half_spread_crossing_fraction (max_f spread nought)) nought
