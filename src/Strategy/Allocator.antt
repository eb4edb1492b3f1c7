-- ===== src/Strategy/Allocator.antt =====
-- src/strategy/strategy_allocator.py: the weights of the strategy sleeves, learnt from their scores. `none`
-- is a KeyError or an IndexError.
pub mod Tables
pub mod Shaped
mod Tests
use stevehft.Prelude.{
  ℕ, suc, ◌*◌, ◌>>=◌, String, Bool, true, false, not, ◌||◌, Option, none, some, List, [], ◌∷◌, map,
  length, select, replicate, ◌==◌, nat_eq, string_eq, if◌then◌else◌,
}
use stevehft.Prelude.Dict.{Dict, lookup, insert, get_or, values}
use stevehft.Prelude.Float.{
  Float, sum_from, nought, is_pos, not_pos, add, sub, mul, div, neg, max_f, clamp, decimal, of_ℕ,
  exp,
}

pub record StrategySleeveWeights (W : Type 0) : Type 0 where
  pub base_mm : W
  pub lead_lag : W
  pub pair_spread : W
  pub inv_hedge : W
  pub taker_exit : W
  pub noise_fade : W
  pub cash : W

pub record AllocatorConfig (W : Type 0) : Type 0 where
  pub learning_rate : W
  pub reward_learning_rate : W
  pub exploration_floor : W
  pub min_base_weight : W
  pub max_logit_abs : W

pub record Allocator (W : Type 0) : Type 0 where
  pub config : AllocatorConfig W
  pub theta : Dict String (List W)
  pub weights : StrategySleeveWeights W

-- `STRATEGY_SLEEVES`, and those of them that have a share in the exploration floor
abbrev pub strategy_sleeves : List String
strategy_sleeves =
    "BASE_MM" ∷ "LEAD_LAG" ∷ "PAIR_SPREAD" ∷ "INV_HEDGE" ∷ "TAKER_EXIT" ∷ "NOISE_FADE" ∷ "CASH" ∷ []

abbrev is_cash : String → Bool
is_cash sleeve = sleeve == "CASH"

abbrev active_count : ℕ
active_count = length (select (λ (sleeve : String). not (is_cash sleeve)) strategy_sleeves)

module _ {W : Type 0} where
  abbrev as_dict : StrategySleeveWeights W → Dict String W
  as_dict w =
      ("BASE_MM", w.base_mm)
      ∷ ("LEAD_LAG", w.lead_lag)
      ∷ ("PAIR_SPREAD", w.pair_spread)
      ∷ ("INV_HEDGE", w.inv_hedge)
      ∷ ("TAKER_EXIT", w.taker_exit)
      ∷ ("NOISE_FADE", w.noise_fade)
      ∷ ("CASH", w.cash)
      ∷ []

  -- `StrategySleeveWeights(base_mm=mixed["BASE_MM"], ...)`
  unfoldable pub weights_of : Dict String W → Option (StrategySleeveWeights W)
  weights_of mixed = do
    base_mm ← lookup "BASE_MM" mixed
    lead_lag ← lookup "LEAD_LAG" mixed
    pair_spread ← lookup "PAIR_SPREAD" mixed
    inv_hedge ← lookup "INV_HEDGE" mixed
    taker_exit ← lookup "TAKER_EXIT" mixed
    noise_fade ← lookup "NOISE_FADE" mixed
    cash ← lookup "CASH" mixed
    some (record {
      base_mm = base_mm;
      lead_lag = lead_lag;
      pair_spread = pair_spread;
      inv_hedge = inv_hedge;
      taker_exit = taker_exit;
      noise_fade = noise_fade;
      cash = cash;
    })

  -- `{sleeve: g(old[sleeve]) for sleeve in sleeves}`
  unfoldable pub each_of : (String → W → W) → Dict String W → List String → Option (Dict String W)
  each_of g old [] = some []
  each_of g old (sleeve ∷ sleeves) = do
    value ← lookup sleeve old
    rest ← each_of g old sleeves
    some ((sleeve, g sleeve value) ∷ rest)

module _ {W : Type 0} ⦃f : Float W⦄ where
  abbrev total_of : (String → W) → W
  total_of value = sum_from (of_ℕ 0) (map value strategy_sleeves)

  -- `max(values, default=0.0)`
  abbrev greatest_from : W → List W → W
  greatest_from best [] = best
  greatest_from best (x ∷ xs) = greatest_from (max_f best x) xs

  abbrev greatest : List W → W
  greatest [] = nought
  greatest (x ∷ xs) = greatest_from x xs

  -- A context that is missing or empty is the bias alone.
  abbrev pub context_or_bias : Option (List W) → List W
  context_or_bias none = decimal 1 0 ∷ []
  context_or_bias (some []) = decimal 1 0 ∷ []
  context_or_bias (some (x ∷ xs)) = x ∷ xs

  abbrev pub fresh_theta : ℕ → Dict String (List W)
  fresh_theta n = map (λ (sleeve : String). (sleeve, replicate n nought)) strategy_sleeves

  -- Coefficients of another context are thrown away.
  unfoldable pub theta_for : List W → Dict String (List W) → Dict String (List W)
  theta_for ctx [] = fresh_theta (length ctx)
  theta_for ctx (entry ∷ theta) =
      if length (entry.1) == length ctx then entry ∷ theta else fresh_theta (length ctx)

  abbrev score_of : Dict String W → String → W
  score_of scores sleeve =
      clamp (get_or (lookup sleeve scores) nought) (neg (decimal 1 0)) (decimal 1 0)

  abbrev reward_of : Option (Dict String W) → String → W
  reward_of none sleeve = score_of [] sleeve
  reward_of (some rewards) sleeve = score_of rewards sleeve

  -- Each coefficient moves along its feature of the context.
  unfoldable pub adapt : W → W → List W → List W → Option (List W)
  adapt step cap theta [] = some theta
  adapt step cap [] (x ∷ ctx) = none
  adapt step cap (t ∷ theta) (x ∷ ctx) = do
    rest ← adapt step cap theta ctx
    some (clamp (add t (mul step x)) (neg cap) cap ∷ rest)

  abbrev products : List W → List W → List W
  products (t ∷ theta) (x ∷ ctx) = mul t x ∷ products theta ctx
  products theta ctx = []

  abbrev logit_of : W → List W → List W → W
  logit_of cap theta ctx = clamp (sum_from (of_ℕ 0) (products theta ctx)) (neg cap) cap

  -- The loop over the sleeves, given the step of each.
  unfoldable pub learn :
      (String → W)
      → W
      → List W
      → List String
      → Dict String (List W)
      → Option (Dict String (List W) × Dict String W)
  unfolding adapt
  learn step_of cap ctx [] theta = some (theta, [])
  learn step_of cap ctx (sleeve ∷ sleeves) theta = do
    old ← lookup sleeve theta
    new ← adapt (step_of sleeve) cap old ctx
    (theta', logits) ← learn step_of cap ctx sleeves (insert sleeve new theta)
    some (theta', (sleeve, logit_of cap new ctx) ∷ logits)

  abbrev pub sum_values : Dict String W → W
  sum_values d = sum_from (of_ℕ 0) (values d)

  -- The softmax: `raw_weights`, then `normalized`, which reads the raw weights only if their sum is
  -- positive.
  abbrev pub raw_weight : Dict String W → String → W → W
  raw_weight logits sleeve logit = exp (sub logit (greatest (values logits)))

  abbrev pub raw_weights : Dict String W → Option (Dict String W)
  raw_weights logits = each_of (raw_weight logits) logits strategy_sleeves

  abbrev pub even : Dict String W
  even =
      map (λ (sleeve : String). (sleeve, div (decimal 1 0) (of_ℕ (length strategy_sleeves))))
        strategy_sleeves

  abbrev pub normalize_raw : Dict String W → Option (Dict String W)
  normalize_raw raw =
      let total_raw = sum_values raw in
      let shares = each_of (λ sleeve weight. div weight total_raw) raw strategy_sleeves in
      if not_pos total_raw then some even else shares

  abbrev floor_of : AllocatorConfig W → W
  floor_of config = clamp config.exploration_floor nought (div (decimal 1 0) (of_ℕ active_count))

  -- The floor goes to every sleeve but the cash.
  abbrev pub with_floor : AllocatorConfig W → String → W → W
  with_floor config sleeve share =
      add (mul (sub (decimal 1 0) (mul (of_ℕ active_count) (floor_of config))) share)
        (if is_cash sleeve then nought else floor_of config)

  abbrev pub normalize_mixed : Dict String W → Option (Dict String W)
  normalize_mixed mixed =
      let total_mixed = sum_values mixed in
      let shares = each_of (λ sleeve weight. div weight total_mixed) mixed strategy_sleeves in
      if is_pos total_mixed then shares else some mixed

  unfoldable pub mix : AllocatorConfig W → Dict String W → Option (StrategySleeveWeights W)
  unfolding each_of weights_of
  mix config logits = do
    raw ← raw_weights logits
    normalized ← normalize_raw raw
    mixed ← each_of (with_floor config) normalized strategy_sleeves
    shares ← normalize_mixed mixed
    weights_of shares

  abbrev centered_score : Allocator W → Dict String W → W
  centered_score a scores =
      total_of
        (λ sleeve. mul (get_or (lookup sleeve (as_dict a.weights)) nought) (score_of scores sleeve))

  -- `learning_rate * advantage` of a sleeve
  abbrev pub step_for : Allocator W → Dict String W → W → Option (Dict String W) → String → W
  step_for a scores reward_multiplier rewards sleeve = mul (max_f a.config.learning_rate nought) (
      add
        (mul (clamp reward_multiplier (decimal 25 2) (decimal 175 2))
          (sub (score_of scores sleeve) (centered_score a scores)))
        (mul (max_f a.config.reward_learning_rate nought) (reward_of rewards sleeve)))

  abbrev pub logit_cap : Allocator W → W
  logit_cap a = max_f a.config.max_logit_abs (decimal 1 0)

  unfoldable pub update :
      Dict String W
      → W
      → Option (Dict String W)
      → Option (List W)
      → Allocator W
      → Option (StrategySleeveWeights W × Allocator W)
  unfolding theta_for learn mix
  update scores reward_multiplier rewards context a =
      let ctx = context_or_bias context in
      do
        (theta, logits) ←
            learn (step_for a scores reward_multiplier rewards) (logit_cap a) ctx strategy_sleeves
              (theta_for ctx a.theta)
        weights ← mix a.config logits
        some (weights, record a { theta = theta; weights = weights })

  unfoldable pub sleeve_scale : W → W
  sleeve_scale weight = clamp (mul (of_ℕ (length strategy_sleeves)) weight) nought (decimal 2 0)
