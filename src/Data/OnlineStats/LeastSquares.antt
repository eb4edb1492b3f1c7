-- ===== src/Data/OnlineStats/LeastSquares.antt =====
-- src/data/featurespace/online_stats.py, `RecursiveLeastSquares`: a linear model and its covariance, as
-- lists that are read by index. `sum` adds from the left, behind 0.
use stevehft.Prelude.{
  ℕ, zero, suc, ◌+◌, ◌-◌, List, [], ◌∷◌, ◌++◌, take, replicate, length, get_elem?, max, nat_beq,
  if◌then◌else◌,
}
use stevehft.Prelude.Int.{ℤ, pos_part}
use stevehft.Prelude.Dict.{get_or}
use stevehft.Prelude.Float.{
  Float, sum_from, nought, add, sub, mul, div, le, lt, neg, sqrt, max_f, clamp, decimal, of_ℕ,
}

pub record RecursiveLeastSquares (W : Type 0) : Type 0 where
  pub feature_count : ℕ
  pub forgetting_factor : W
  pub initial_covariance : W
  pub ridge_coefficient : W
  pub weights : List W
  pub covariance : List (List W)
  pub samples_seen : ℕ

-- `[g(idx) for idx in range(idx, idx + n)]`
abbrev pub tabulate_from {ℓ} : {A : Type ℓ} → ℕ → ℕ → (ℕ → A) → List A
tabulate_from zero idx g = []
tabulate_from (suc n) idx g = g idx ∷ tabulate_from n (suc idx) g

abbrev pub tabulate {ℓ} : {A : Type ℓ} → ℕ → (ℕ → A) → List A
tabulate n g = tabulate_from n 0 g

-- What was given, or what is made in its place when it is empty.
abbrev or_else {ℓ} : {A : Type ℓ} → List A → List A → List A
or_else [] ys = ys
or_else (x ∷ xs) ys = x ∷ xs

module _ {W : Type 0} ⦃f : Float W⦄ where
  abbrev pub sum : List W → W
  sum xs = sum_from (of_ℕ 0) xs

  abbrev pub item : List W → ℕ → W
  item xs idx = get_or (get_elem? xs idx) nought

  abbrev pub cell : List (List W) → ℕ → ℕ → W
  cell rows row_idx col_idx = item (get_or (get_elem? rows row_idx) []) col_idx

  -- The diagonal and the rest.
  abbrev on_diagonal : ℕ → ℕ → W → W
  on_diagonal row_idx col_idx x = if nat_beq row_idx col_idx then x else nought

  unfoldable pub post_init : ℤ → W → W → W → List W → List (List W) → ℕ → RecursiveLeastSquares W
  post_init given_count forgetting_factor initial_covariance ridge_coefficient weights covariance
        samples_seen =
      let feature_count = max (pos_part given_count) 1 in
      record {
        feature_count = feature_count;
        forgetting_factor = forgetting_factor;
        initial_covariance = initial_covariance;
        ridge_coefficient = ridge_coefficient;
        weights = or_else weights (tabulate feature_count (λ idx. nought));
        covariance = or_else covariance (
            tabulate feature_count (λ row_idx.
              tabulate feature_count (λ col_idx. on_diagonal row_idx col_idx initial_covariance)));
        samples_seen = samples_seen;
      }

  unfoldable pub coerce_features : List W → RecursiveLeastSquares W → List W
  coerce_features features s =
      let x_vec = take s.feature_count features in
      x_vec ++ replicate (s.feature_count - length x_vec) nought

  -- `weight * x_val for weight, x_val in zip(weights, x_vec)`
  abbrev products : List W → List W → List W
  products [] ys = []
  products (x ∷ xs) [] = []
  products (x ∷ xs) (y ∷ ys) = mul x y ∷ products xs ys

  unfoldable pub predict : List W → RecursiveLeastSquares W → W
  unfolding coerce_features
  predict features s = sum (products s.weights (coerce_features features s))

  -- The covariance times the features, and the features times the covariance.
  abbrev pub covariance_by : List W → RecursiveLeastSquares W → List W
  covariance_by x_vec s = tabulate s.feature_count (λ row_idx. sum (
      tabulate s.feature_count
        (λ col_idx. mul (cell s.covariance row_idx col_idx) (item x_vec col_idx))))

  abbrev by_covariance : List W → RecursiveLeastSquares W → List W
  by_covariance x_vec s = tabulate s.feature_count (λ row_idx. sum (
      tabulate s.feature_count
        (λ col_idx. mul (item x_vec col_idx) (cell s.covariance col_idx row_idx))))

  abbrev pub quadratic : List W → List W → RecursiveLeastSquares W → W
  quadratic x_vec p_x s =
      sum (tabulate s.feature_count (λ idx. mul (item x_vec idx) (item p_x idx)))

  abbrev pub forgetting : RecursiveLeastSquares W → W
  forgetting s = clamp s.forgetting_factor (decimal 1 6) (decimal 1 0)

  abbrev pub innovation_denom : List W → RecursiveLeastSquares W → W
  innovation_denom x_vec s = add (forgetting s) (quadratic x_vec (covariance_by x_vec s) s)

  abbrev pub learn : List W → W → RecursiveLeastSquares W → RecursiveLeastSquares W
  learn x_vec error s =
      let p_x = covariance_by x_vec s in
      let denom = innovation_denom x_vec s in
      let gain = tabulate s.feature_count (λ idx. div (item p_x idx) denom) in
      let x_p = by_covariance x_vec s in
      let ridge = max_f s.ridge_coefficient nought in
      record s {
        weights =
            tabulate s.feature_count (λ idx. add (item s.weights idx) (mul (item gain idx) error));
        covariance = tabulate s.feature_count (λ row_idx. tabulate s.feature_count (λ col_idx.
            add
              (div
                (sub (cell s.covariance row_idx col_idx)
                  (mul (item gain row_idx) (item x_p col_idx)))
                (forgetting s))
              (on_diagonal row_idx col_idx ridge)));
        samples_seen = s.samples_seen + 1;
      }

  -- The prediction that is returned, and the model.
  unfoldable pub squares_update : List W → W → RecursiveLeastSquares W → W × RecursiveLeastSquares W
  unfolding coerce_features predict
  squares_update features target s =
      let x_vec = coerce_features features s in
      let prediction = predict x_vec s in
      if le (innovation_denom x_vec s) (decimal 1 12)
      then (prediction, s)
      else (prediction, learn x_vec (sub target prediction) s)

  -- The samples one after the other.
  unfoldable pub squares_run : List (List W × W) → RecursiveLeastSquares W → RecursiveLeastSquares W
  unfolding squares_update
  squares_run [] s = s
  squares_run ((features, target) ∷ samples) s =
      squares_run samples (squares_update features target s).1

  unfoldable pub prediction_variance : List W → RecursiveLeastSquares W → W
  unfolding coerce_features
  prediction_variance features s =
      let x_vec = coerce_features features s in
      clamp
        (div (quadratic x_vec (covariance_by x_vec s) s) (max_f s.initial_covariance (decimal 1 9)))
        nought (decimal 1 0)

  abbrev squares : List W → List W
  squares [] = []
  squares (x ∷ xs) = mul x x ∷ squares xs

  unfoldable pub cosine_similarity_to_weights : List W → RecursiveLeastSquares W → W
  unfolding coerce_features
  cosine_similarity_to_weights features s =
      let x_vec = coerce_features features s in
      let denom = sqrt (mul (sum (squares x_vec)) (sum (squares s.weights))) in
      if lt denom (decimal 1 12)
      then nought
      else clamp (div (quadratic x_vec s.weights s) denom) (neg (decimal 1 0)) (decimal 1 0)
