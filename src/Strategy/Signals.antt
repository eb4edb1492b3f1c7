-- ===== src/Strategy/Signals.antt =====
-- src/strategy/signals.py: the quote gate, the fair value and the widths of a quote.
use stevehft.Prelude.{
  ℕ, Bool, true, false, ◌||◌, String, Option, none, some, max, ltb, if◌then◌else◌,
}
use stevehft.Prelude.Int.{ℤ, pos, pos_part, neg_part, abs, ◌-ℤ◌}
use stevehft.Prelude.Float.{
  Float, nought, is_pos, not_pos, add, sub, mul, div, lt, neg, max_f, min_f, clamp, decimal, of_ℕ,
  of_ℤ, to_nearest,
}
use stevehft.Data.State.{SymbolState}
use stevehft.Data.State.Signals.{mid_price, spread, local_microprice, combined_book_imbalance}

pub record QuoteGateDecision (W : Type 0) : Type 0 where
  pub allow_quotes : Bool
  pub reason : String
  pub age_ms : W
  pub spread_ticks : W

module _ {W : Type 0} ⦃f : Float W⦄ where
  -- A tick size that is not positive is the `ValueError`.
  unfoldable pub round_to_tick : W → W → Option W
  round_to_tick price tick_size =
      if not_pos tick_size
      then none
      else some (mul (of_ℤ (to_nearest (div price tick_size))) tick_size)

  abbrev decision : Bool → String → W → W → QuoteGateDecision W
  decision allow_quotes reason age_ms spread_ticks = record {
    allow_quotes = allow_quotes;
    reason = reason;
    age_ms = age_ms;
    spread_ticks = spread_ticks;
  }

  abbrev pub gate_age_ms : SymbolState W → ℕ → W
  gate_age_ms s now_ns =
      max_f (div (of_ℤ (pos now_ns -ℤ pos s.last_book_update_ns)) (of_ℕ 1_000_000)) nought

  abbrev pub gate_spread_ticks : SymbolState W → W → W
  gate_spread_ticks s tick_size = if is_pos tick_size then div (spread s) tick_size else nought

  abbrev pub lacks_touch : SymbolState W → Bool
  lacks_touch s = not_pos s.best_price.best_bid_px || not_pos s.best_price.best_ask_px

  unfoldable pub compute_quote_gate : SymbolState W → ℕ → W → ℕ → ℕ → QuoteGateDecision W
  unfolding spread
  compute_quote_gate s now_ns tick_size max_staleness_ms max_spread_ticks =
      let age_ms = gate_age_ms s now_ns in
      let spread_ticks = gate_spread_ticks s tick_size in
      if lacks_touch s
      then decision false "missing_touch" age_ms spread_ticks
      else if not_pos (spread s)
      then decision false "locked_or_invalid_spread" age_ms spread_ticks
      else if lt (of_ℕ max_staleness_ms) age_ms
      then decision false "stale_book" age_ms spread_ticks
      else if lt (of_ℕ max_spread_ticks) spread_ticks
      then decision false "spread_too_wide" age_ms spread_ticks
      else decision true "quoting_enabled" age_ms spread_ticks

  abbrev sign_of : ℤ → W
  sign_of inventory_lots =
      if ltb 0 (pos_part inventory_lots)
      then decimal 1 0
      else if ltb 0 (neg_part inventory_lots)
      then neg (decimal 1 0)
      else nought

  unfoldable pub compute_inventory_skew : ℤ → W → W → W → ℤ → W
  compute_inventory_skew inventory_lots tick_size skew_ticks_per_lot max_skew_ticks
        inventory_limit_lots =
      let max_lots = max (abs inventory_limit_lots) 1 in
      let normalized =
        clamp (div (of_ℕ (abs inventory_lots)) (of_ℕ max_lots)) nought (decimal 1 0) in
      let convex = mul (mul (sign_of inventory_lots) (mul normalized normalized)) (of_ℕ max_lots) in
      mul (clamp (mul convex skew_ticks_per_lot) (neg max_skew_ticks) max_skew_ticks) tick_size

  -- The first that is there and positive.
  abbrev positive_or : Option W → W → W
  positive_or none rest = rest
  positive_or (some x) rest = if is_pos x then x else rest

  abbrev given_or : Option W → W → W
  given_or none rest = rest
  given_or (some x) rest = x

  -- The fair value and the shift by the imbalance that it has.
  unfoldable pub compute_fair_value : SymbolState W → W → W → W → Option W → Option W → W → W × W
  unfolding mid_price local_microprice combined_book_imbalance
  compute_fair_value s microprice_weight imbalance_shift_ticks tick_size microprice_value
        imbalance_value drift_shift_ticks =
      let mid = mid_price s in
      let micro = positive_or microprice_value (positive_or (some (local_microprice s)) mid) in
      let alpha_center =
        add (mul (sub (decimal 1 0) microprice_weight) mid) (mul microprice_weight micro) in
      let effective_imbalance = given_or imbalance_value (combined_book_imbalance (pos 3) s) in
      let imbalance_shift = mul (mul effective_imbalance imbalance_shift_ticks) tick_size in
      let drift_shift = mul drift_shift_ticks tick_size in
      (add (add alpha_center imbalance_shift) drift_shift, imbalance_shift)

  abbrev pub observed_half_width : SymbolState W → W → ℕ → ℕ → W
  observed_half_width s tick_size min_half_spread_ticks max_half_spread_ticks =
      min_f (max_f (mul (spread s) (decimal 5 1)) (mul (of_ℕ min_half_spread_ticks) tick_size))
        (mul (of_ℕ max_half_spread_ticks) tick_size)

  unfoldable pub compute_half_width : SymbolState W → W → ℕ → ℕ → Option W → W
  unfolding spread
  compute_half_width s tick_size min_half_spread_ticks max_half_spread_ticks none =
      observed_half_width s tick_size min_half_spread_ticks max_half_spread_ticks
  compute_half_width s tick_size min_half_spread_ticks max_half_spread_ticks (some model) =
      if is_pos model
      then clamp (mul model tick_size) (mul (of_ℕ min_half_spread_ticks) tick_size)
          (mul (of_ℕ max_half_spread_ticks) tick_size)
      else observed_half_width s tick_size min_half_spread_ticks max_half_spread_ticks
