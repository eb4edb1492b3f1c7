-- ===== src/Data/OnlineStats/Shapes.antt =====
-- src/data/featurespace/online_stats.py, `RecursiveLeastSquares`: the lists keep the length that the
-- indexes need.
use stevehft.Prelude.{
  ℕ, zero, suc, ◌-◌, ◌≤◌, ◌≡◌, refl, ap, sym, ◌∙◌, List, [], ◌∷◌, take, replicate, length, All,
  if_lem, arith, length-append, length-replicate,
}
use stevehft.Prelude.Float.{Float, nought, sub, le, decimal}
use stevehft.Data.OnlineStats.LeastSquares.{
  RecursiveLeastSquares, tabulate_from, coerce_features, predict, innovation_denom, learn,
  squares_update, squares_run,
}

length-tabulate_from {ℓ} : {A : Type ℓ} (n idx : ℕ) (g : ℕ → A) → length (tabulate_from n idx g) ≡ n
length-tabulate_from zero idx g = refl
length-tabulate_from (suc n) idx g = ap suc (length-tabulate_from n (suc idx) g)

All-tabulate_from {ℓ κ} :
    {A : Type ℓ} (P : A → Type κ) (n idx : ℕ) (g : ℕ → A)
    → ((i : ℕ) → P (g i))
    → All P (tabulate_from n idx g)
All-tabulate_from P zero idx g h = tt
All-tabulate_from P (suc n) idx g h = (h idx, All-tabulate_from P n (suc idx) g h)

length-take_bound {ℓ} : {A : Type ℓ} (n : ℕ) (xs : List A) → length (take n xs) ≤ n
length-take_bound zero xs = omega arith
length-take_bound (suc n) [] = omega arith
length-take_bound (suc n) (x ∷ xs) = omega (arith, length-take_bound n xs)

module _ {W : Type 0} ⦃f : Float W⦄ where
  -- One weight for each feature, and a square covariance.
  unfoldable pub IsShaped : RecursiveLeastSquares W → Type 0
  IsShaped s =
      (length s.weights ≡ s.feature_count)
      × (length s.covariance ≡ s.feature_count)
      × All (λ (row : List W). length row ≡ s.feature_count) s.covariance

  -- The features are as many as the model has weights, however many are given.
  length-coerce_features :
      (features : List W) (s : RecursiveLeastSquares W)
      → length (coerce_features features s) ≡ s.feature_count
  unfolding coerce_features
  length-coerce_features features s =
      let x_vec = take s.feature_count features in
      omega (
        arith,
        length-append x_vec (replicate (s.feature_count - length x_vec) nought),
        length-replicate (s.feature_count - length x_vec) nought,
        length-take_bound s.feature_count features,
      )

  learn-IsShaped :
      (x_vec : List W) (error : W) (s : RecursiveLeastSquares W) → IsShaped (learn x_vec error s)
  unfolding IsShaped
  learn-IsShaped x_vec error s = (
    length-tabulate_from s.feature_count 0 _,
    length-tabulate_from s.feature_count 0 _,
    All-tabulate_from (λ (row : List W). length row ≡ s.feature_count) s.feature_count 0 _
        (λ row_idx. length-tabulate_from s.feature_count 0 _),
  )

  squares_update-IsShaped :
      (features : List W) (target : W) (s : RecursiveLeastSquares W)
      → IsShaped s
      → IsShaped (squares_update features target s).1
  unfolding squares_update
  squares_update-IsShaped features target s shaped =
      let x_vec = coerce_features features s in
      let error = sub target (predict x_vec s) in
      if_lem (λ (q : W × RecursiveLeastSquares W). IsShaped (q.1))
        (le (innovation_denom x_vec s) (decimal 1 12)) (predict x_vec s, s)
        (predict x_vec s, learn x_vec error s) (λ e. shaped) (λ e. learn-IsShaped x_vec error s)

  weights-IsShaped : (s : RecursiveLeastSquares W) → IsShaped s → length s.weights ≡ s.feature_count
  unfolding IsShaped
  weights-IsShaped s shaped = shaped.0

  -- A model with one weight for each feature and a square covariance keeps this shape however often it
  -- is updated and however many features are given, and reads as many features as it has weights.
  pub squares_run-IsShaped :
      (samples : List (List W × W)) (s : RecursiveLeastSquares W)
      → IsShaped s
      → IsShaped (squares_run samples s)
        × ((features : List W)
            → length (coerce_features features (squares_run samples s))
              ≡ length (squares_run samples s).weights)
  unfolding squares_run
  squares_run-IsShaped [] s shaped =
      (shaped, λ features. length-coerce_features features s ∙ sym (weights-IsShaped s shaped))
  squares_run-IsShaped ((features, target) ∷ samples) s shaped =
      squares_run-IsShaped samples (squares_update features target s).1
        (squares_update-IsShaped features target s shaped)
