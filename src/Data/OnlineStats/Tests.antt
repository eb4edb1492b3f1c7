-- ===== src/Data/OnlineStats/Tests.antt =====
-- The statistics over whole numbers.
use stevehft.Prelude.{◌≡◌, refl, true, false, List, [], ◌∷◌, length, arith}
use stevehft.Prelude.Int.{ℤ, pos, ◌-ℤ◌}
use stevehft.Prelude.Float.{lt, le, nought, decimal, neg}
use stevehft.Data.Samples.{signed}
use stevehft.Data.OnlineStats.Drift.{CusumDrift, PageHinkleyDrift, cusum_run}
use stevehft.Data.OnlineStats.Quiet.{IsQuiet, cusum_run-IsQuiet}
use stevehft.Data.OnlineStats.Quantile.{post_init, quantile_run}
use stevehft.Data.OnlineStats.Marked.{IsMarked, quantile_run-IsMarked}
use stevehft.Data.OnlineStats.LeastSquares.{RecursiveLeastSquares, squares_run, coerce_features}
use stevehft.Data.OnlineStats.Shapes.{IsShaped, squares_run-IsShaped}

abbrev cusum : CusumDrift ℤ
cusum = record {
  threshold = pos 3;
  drift = pos 0;
  positive_sum = pos 0;
  negative_sum = pos 0;
  last_signal = pos 0;
}

abbrev rises : List ℤ
rises = pos 2 ∷ pos 2 ∷ pos 1 ∷ []

cusum_run-IsQuiet_example : IsQuiet (cusum_run rises cusum)
unfolding IsQuiet ◌-ℤ◌
cusum_run-IsQuiet_example = cusum_run-IsQuiet rises cusum refl refl (refl, refl)

irreflexive : (x : ℤ) → lt x x ≡ false
irreflexive x = ground arith

abbrev hinkley : PageHinkleyDrift ℤ
hinkley = record {
  threshold = pos 2;
  alpha = pos 1;
  delta = pos 0;
  mean = pos 0;
  cumulative = pos 0;
  min_cumulative = pos 0;
  max_cumulative = pos 0;
  initialized = true;
  last_signal = pos 0;
}

up : (x : ℤ) → le (decimal 1 0) x ≡ true → lt nought x ≡ true
up x h = ground (arith, h)

down : (x : ℤ) → le x (neg (decimal 1 0)) ≡ true → lt nought x ≡ false
unfolding ◌-ℤ◌
down x h = ground (arith, h)

abbrev values : List ℤ
values = pos 5 ∷ pos 2 ∷ pos 9 ∷ pos 4 ∷ pos 7 ∷ pos 1 ∷ pos 8 ∷ []

quantile_run-IsMarked_example : IsMarked (quantile_run values (post_init (pos 1)))
quantile_run-IsMarked_example = quantile_run-IsMarked up down (pos 1) values

abbrev model : RecursiveLeastSquares ℤ
model = record {
  feature_count = 2;
  forgetting_factor = pos 1;
  initial_covariance = pos 5;
  ridge_coefficient = pos 0;
  weights = pos 0 ∷ pos 0 ∷ [];
  covariance = (pos 5 ∷ pos 0 ∷ []) ∷ (pos 0 ∷ pos 5 ∷ []) ∷ [];
  samples_seen = 0;
}

-- One sample has a feature too few, the other one too many.
abbrev samples : List (List ℤ × ℤ)
samples = (pos 1 ∷ [], pos 3) ∷ (pos 1 ∷ pos 2 ∷ pos 3 ∷ [], pos 4) ∷ []

squares_run-IsShaped_example :
    IsShaped (squares_run samples model)
    × ((features : List ℤ)
        → length (coerce_features features (squares_run samples model))
          ≡ length (squares_run samples model).weights)
unfolding IsShaped
squares_run-IsShaped_example = squares_run-IsShaped samples model (refl, refl, (refl, (refl, tt)))
