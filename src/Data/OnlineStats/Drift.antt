-- ===== src/Data/OnlineStats/Drift.antt =====
-- src/data/featurespace/online_stats.py: a decaying mean and variance, and two detectors of a drift,
-- whose signal is 1, -1 or 0.
use stevehft.Prelude.{Bool, true, not, ◌||◌, List, [], ◌∷◌, if◌then◌else◌}
use stevehft.Prelude.Int.{ℤ, pos, negsuc}
use stevehft.Prelude.Float.{
  Float, nought, not_pos, add, sub, mul, div, le, neg, sqrt, max_f, min_f, clamp, decimal,
}

pub record DecayingWelford (W : Type 0) : Type 0 where
  pub decay : W
  pub weight : W
  pub mean : W
  pub m2 : W
  pub initialized : Bool

pub record CusumDrift (W : Type 0) : Type 0 where
  pub threshold : W
  pub drift : W
  pub positive_sum : W
  pub negative_sum : W
  pub last_signal : ℤ

pub record PageHinkleyDrift (W : Type 0) : Type 0 where
  pub threshold : W
  pub alpha : W
  pub delta : W
  pub mean : W
  pub cumulative : W
  pub min_cumulative : W
  pub max_cumulative : W
  pub initialized : Bool
  pub last_signal : ℤ

module _ {W : Type 0} ⦃f : Float W⦄ where
  abbrev welford_step : W → DecayingWelford W → DecayingWelford W
  welford_step value s =
      let bounded_decay = clamp s.decay nought (decimal 1 0) in
      let decayed_weight = mul bounded_decay s.weight in
      let new_weight = add decayed_weight (decimal 1 0) in
      let delta = sub value s.mean in
      let new_mean = add s.mean (div delta (max_f new_weight (decimal 1 12))) in
      record s {
        m2 = add (mul bounded_decay s.m2) (mul (mul decayed_weight delta) (sub value new_mean));
        weight = new_weight;
        mean = new_mean;
      }

  unfoldable pub welford_update : W → DecayingWelford W → DecayingWelford W
  welford_update value s =
      if s.initialized
      then welford_step value s
      else record s { weight = decimal 1 0; mean = value; m2 = nought; initialized = true }

  unfoldable pub variance : DecayingWelford W → W
  variance s =
      if not s.initialized || not_pos s.weight then nought else max_f (div s.m2 s.weight) nought

  unfoldable pub zscore : W → W → DecayingWelford W → W
  unfolding variance
  zscore value min_std s =
      if s.initialized then div (sub value s.mean) (max_f (sqrt (variance s)) min_std) else nought

  -- Both sums are reset with the signal.
  abbrev cusum_signal : ℤ → CusumDrift W → CusumDrift W
  cusum_signal signal s = record s {
    positive_sum = nought;
    negative_sum = nought;
    last_signal = signal;
  }

  abbrev pub cusum_decide : CusumDrift W → CusumDrift W
  cusum_decide s =
      if le s.threshold s.positive_sum
      then cusum_signal (pos 1) s
      else if le s.negative_sum (neg s.threshold)
      then cusum_signal (negsuc 0) s
      else record s { last_signal = pos 0 }

  abbrev pub cusum_gather : W → CusumDrift W → CusumDrift W
  cusum_gather value s =
      let centered = sub value s.drift in
      record s {
        positive_sum = max_f nought (add s.positive_sum centered);
        negative_sum = min_f nought (add s.negative_sum centered);
      }

  -- The method returns `last_signal`.
  unfoldable pub cusum_update : W → CusumDrift W → CusumDrift W
  cusum_update value s = cusum_decide (cusum_gather value s)

  abbrev hinkley_reset : W → ℤ → PageHinkleyDrift W → PageHinkleyDrift W
  hinkley_reset value signal s = record s {
    mean = value;
    cumulative = nought;
    min_cumulative = nought;
    max_cumulative = nought;
    last_signal = signal;
  }

  abbrev pub hinkley_decide : W → PageHinkleyDrift W → PageHinkleyDrift W
  hinkley_decide value s =
      if le s.threshold (sub s.cumulative s.min_cumulative)
      then hinkley_reset value (pos 1) s
      else if le s.threshold (sub s.max_cumulative s.cumulative)
      then hinkley_reset value (negsuc 0) s
      else record s { last_signal = pos 0 }

  abbrev pub hinkley_gather : W → PageHinkleyDrift W → PageHinkleyDrift W
  hinkley_gather value s =
      let bounded_alpha = clamp s.alpha nought (decimal 1 0) in
      let mean = add (mul (sub (decimal 1 0) bounded_alpha) s.mean) (mul bounded_alpha value) in
      let cumulative = add s.cumulative (sub (sub value mean) s.delta) in
      record s {
        mean = mean;
        cumulative = cumulative;
        min_cumulative = min_f s.min_cumulative cumulative;
        max_cumulative = max_f s.max_cumulative cumulative;
      }

  unfoldable pub hinkley_update : W → PageHinkleyDrift W → PageHinkleyDrift W
  hinkley_update value s =
      if s.initialized
      then hinkley_decide value (hinkley_gather value s)
      else record (hinkley_reset value (pos 0) s) { initialized = true }

  -- The values one after the other.
  unfoldable pub cusum_run : List W → CusumDrift W → CusumDrift W
  unfolding cusum_update
  cusum_run [] s = s
  cusum_run (value ∷ values) s = cusum_run values (cusum_update value s)
