-- ===== src/Data/Lut/Buckets.antt =====
-- src/data/featurespace/lut.py, `OnlineLutEstimator.update`: every observation has a bucket.
use stevehft.Prelude.{
  ℕ, suc, ◌+◌, ◌<◌, ◌≤◌, ◌≡◌, ◌∙◌, sym, subst, Bool, true, false, Option, none, some, Holds,
  Holds-bind, List, [], ◌∷◌, length, length-set, get_elem?, arith,
}
use stevehft.Prelude.Dict.{get_or}
use stevehft.Prelude.Float.{Float, le}
use stevehft.Data.Lut.{
  OnlineLutEstimator, DualLut, later, last_at_most, bucket_index, estimator_update, moved,
  dual_update, dual_run,
}
use stevehft.Data.Lut.Evaluated.{elem-in_range, xs_of}

later_bound :
    (o : Option ℕ) (reached : Bool) (idx n : ℕ)
    → get_or o 0 < n
    → idx < n
    → get_or (later o reached idx) 0 < n
later_bound (some i) reached idx n h p = h
later_bound none true idx n h p = p
later_bound none false idx n h p = h

module _ {W : Type 0} ⦃f : Float W⦄ where
  last_at_most_bound :
      (x : W) (idx n : ℕ) (bs : List W)
      → 0 < n
      → idx + length bs ≤ n
      → get_or (last_at_most x idx bs) 0 < n
  unfolding last_at_most
  last_at_most_bound x idx n [] p h = p
  last_at_most_bound x idx n (b ∷ bs) p h =
      later_bound (last_at_most x (suc idx) bs) (le b x) idx n
        (last_at_most_bound x (suc idx) n bs p (omega (arith, h))) (omega (arith, h))

  -- The estimator has a bucket for each of the breakpoints, of which there is one at least.
  pub record IsFitted (xs : List W) (o : OnlineLutEstimator W) : Type 0 where
    pub points : o.x_breakpoints ≡ xs
    pub some_point : 0 < length xs
    pub counts : length o.bucket_count ≡ length xs
    pub ys : length o.bucket_y ≡ length xs

  bucket_index_bound :
      (x : W) (xs : List W) (o : OnlineLutEstimator W)
      → IsFitted xs o
      → bucket_index x o < length xs
  unfolding bucket_index
  bucket_index_bound x xs o v =
      subst (λ bs. get_or (last_at_most x 0 bs) 0 < length xs) (sym v.points)
        (last_at_most_bound x 0 (length xs) xs v.some_point (omega arith))

  estimator_update-IsFitted :
      (x y : W) (xs : List W) (o : OnlineLutEstimator W)
      → IsFitted xs o
      → Holds (IsFitted xs) (estimator_update x y o)
  unfolding estimator_update
  estimator_update-IsFitted x y xs o v =
      let i = bucket_index x o in
      let within = bucket_index_bound x xs o v in
      Holds-bind (λ n. Unit {0}) (IsFitted xs) (get_elem? o.bucket_count i) _
        (elem-in_range o.bucket_count i (omega (arith, within, v.counts)))
        (λ count c.
          Holds-bind (λ y'. Unit {0}) (IsFitted xs) (get_elem? o.bucket_y i) _
            (elem-in_range o.bucket_y i (omega (arith, within, v.ys)))
            (λ old e. record {
              points = v.points;
              some_point = v.some_point;
              counts = length-set o.bucket_count i (count + 1) ∙ v.counts;
              ys = length-set o.bucket_y i (moved o.alpha y count old) ∙ v.ys;
            }))

  -- The table has these breakpoints, and the estimator is fitted to them.
  abbrev pub IsFor : List W → DualLut W → Type 0
  IsFor xs d = (xs_of d.static_lut ≡ xs) × IsFitted xs d.online

  dual_update-IsFor :
      (x y : W) (xs : List W) (d : DualLut W) → IsFor xs d → Holds (IsFor xs) (dual_update x y d)
  unfolding dual_update
  dual_update-IsFor x y xs d (same, fitted) =
      Holds-bind (IsFitted xs) (IsFor xs) (estimator_update x y d.online) _
        (estimator_update-IsFitted x y xs d.online fitted) (λ online v. (same, v))

  pub dual_run-IsFor :
      (observations : List (W × W)) (xs : List W) (d : DualLut W)
      → IsFor xs d
      → Holds (IsFor xs) (dual_run observations d)
  unfolding dual_run
  dual_run-IsFor [] xs d v = v
  dual_run-IsFor ((x, y) ∷ observations) xs d v =
      Holds-bind (IsFor xs) (IsFor xs) (dual_update x y d) (λ d'. dual_run observations d')
        (dual_update-IsFor x y xs d v) (λ d' v'. dual_run-IsFor observations xs d' v')
