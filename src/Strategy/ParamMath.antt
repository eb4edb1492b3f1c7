-- ===== src/Strategy/ParamMath.antt =====
-- src/strategy/param_math.py: numeric helpers. Python's `round` to an integer is `to_nearest`.
use stevehft.Prelude.{ℕ, Bool, List, [], ◌∷◌, Eq, if◌then◌else◌}
use stevehft.Prelude.Dict.{Dict, insert, values}
use stevehft.Prelude.Float.{
  Float, nought, not_pos, add, sub, mul, div, le, of_ℤ, to_nearest, clamp, decimal,
}

module _ {W : Type 0} ⦃f : Float W⦄ where
  unfoldable pub ramp_unit : W → W → W → W
  ramp_unit value lower upper =
      if le upper lower
      then if le upper value then decimal 1 0 else nought
      else clamp (div (sub value lower) (sub upper lower)) nought (decimal 1 0)

  unfoldable pub round_to_tick : W → W → W
  round_to_tick price tick_size =
      if not_pos tick_size then price else mul (of_ℤ (to_nearest (div price tick_size))) tick_size

  unfoldable pub ewma : W → W → W → Bool → W
  ewma previous current alpha initialized =
      let bounded_alpha = clamp alpha nought (decimal 1 0) in
      if initialized
      then add (mul (sub (decimal 1 0) bounded_alpha) previous) (mul bounded_alpha current)
      else current

module _ {W : Type 0} ⦃e : Eq W⦄ where
  -- An entry is a price with what is kept of it.
  abbrev put_entries : List (W × W × ℕ) → Dict W (W × W × ℕ) → Dict W (W × W × ℕ)
  put_entries [] by_price = by_price
  put_entries (entry ∷ entries) by_price = put_entries entries (insert (entry.0) entry by_price)

  unfoldable pub merge_sweep_pending_levels : List (W × W × ℕ) → List (W × W × ℕ) → List (W × W × ℕ)
  merge_sweep_pending_levels existing_levels new_entries =
      values (put_entries new_entries (put_entries existing_levels []))
