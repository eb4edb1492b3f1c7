-- ===== src/Data/Lut/Totality.antt =====
-- src/data/featurespace/lut.py: a `DualLut` that is made from a valid table of numbers never raises.
use stevehft.Prelude.{
  HasValue, ℕ, suc, ◌+◌, ◌<◌, ◌≤◌, ◌≡◌, refl, ap, ◌∙◌, sym, subst, Bool, true, false, Option, none,
  some, some-injective, ◌>>=◌, Holds, Holds-bind, List, [], ◌∷◌, length, max, length-replicate,
  get_elem?, All, ltb, if_lem, if◌then◌else◌, arith,
}
use stevehft.Prelude.Float.{Float, nought, le, not_pos}
use stevehft.Data.Lut.{
  LookupPoint, PiecewiseLinearLut, OnlineLutEstimator, DualLut, is_increasing, from_pairs, evaluate,
  new_estimator, live_y, live_points, lut_of, to_lut, from_static, dual_run, blend, dual_evaluate,
  warmup_weight,
}
use stevehft.Data.Lut.Evaluated.{
  elem-in_range, xs_of, length-xs_of, IsComparable, AreNumbers, evaluate_over,
}
use stevehft.Data.Lut.Buckets.{IsFor, dual_run-IsFor}

module _ {W : Type 0} ⦃f : Float W⦄ where
  live_y_total :
      (table : PiecewiseLinearLut W) (o : OnlineLutEstimator W) (idx count : ℕ) (x : W)
      (xs : List W)
      → xs_of table ≡ xs
      → 0 < length xs
      → idx < length o.bucket_y
      → IsComparable x xs
      → HasValue (live_y table o idx x count)
  live_y_total table o idx count x xs e p within h =
      if_lem HasValue (ltb 0 count) (get_elem? o.bucket_y idx) (evaluate x table)
        (λ seen. elem-in_range o.bucket_y idx within) (λ unseen. evaluate_over x table xs e p h)

  live_points_total :
      (table : PiecewiseLinearLut W) (o : OnlineLutEstimator W) (idx : ℕ) (todo xs : List W)
      → xs_of table ≡ xs
      → 0 < length xs
      → idx + length todo ≤ length o.bucket_count
      → idx + length todo ≤ length o.bucket_y
      → All (λ (x : W). IsComparable x xs) todo
      → Holds (λ (pairs : List (LookupPoint W)). xs_of pairs ≡ todo) (live_points table o idx todo)
  unfolding live_points
  live_points_total table o idx [] xs e p counts ys h = refl
  live_points_total table o idx (x ∷ todo) xs e p counts ys (h, hs) =
      let P = λ (pairs : List (LookupPoint W)). xs_of pairs ≡ x ∷ todo in
      Holds-bind (λ n. Unit {0}) P (get_elem? o.bucket_count idx) _
        (elem-in_range o.bucket_count idx (omega (arith, counts)))
        (λ count c.
          Holds-bind (λ y. Unit {0}) P (live_y table o idx x count) _
            (live_y_total table o idx count x xs e p (omega (arith, ys)) h)
            (λ y u.
              Holds-bind (λ (pairs : List (LookupPoint W)). xs_of pairs ≡ todo) P
                (live_points table o (suc idx) todo) _
                (live_points_total table o (suc idx) todo xs e p (omega (arith, counts))
                  (omega (arith, ys)) hs)
                (λ rest same. ap (λ zs. x ∷ zs) same)))

  increasing : List W → Bool
  increasing [] = true
  increasing (x ∷ []) = true
  increasing (x ∷ y ∷ xs) = let rest = increasing (y ∷ xs) in if le y x then false else rest

  is_increasing_xs :
      (points : List (LookupPoint W)) → is_increasing points ≡ increasing (xs_of points)
  unfolding increasing
  is_increasing_xs [] = refl
  is_increasing_xs (p ∷ []) = refl
  is_increasing_xs (p ∷ q ∷ points) =
      ap (λ b. if le q.x p.x then false else b) (is_increasing_xs (q ∷ points))

  from_pairs_lem :
      (points : List (LookupPoint W))
      → increasing (xs_of points) ≡ true
      → ltb (length points) 2 ≡ false
      → from_pairs points ≡ some points
  unfolding from_pairs
  from_pairs_lem points rising enough =
      ap (λ b. if b then none else if is_increasing points then some points else none) enough
      ∙ ap (λ b. if b then some points else none) (is_increasing_xs points ∙ rising)

  -- What `from_pairs` accepts is increasing, and has a point.
  accepted :
      (points table : List (LookupPoint W))
      → from_pairs points ≡ some table
      → (is_increasing table ≡ true) × (0 < length table)
  unfolding from_pairs
  accepted points table =
      if_lem
        (λ (q : Option (PiecewiseLinearLut W)).
          q ≡ some table → (is_increasing table ≡ true) × (0 < length table))
        (ltb (length points) 2) none (if is_increasing points then some points else none)
        (λ few e. absurd cc)
        (λ enough.
          if_lem
            (λ (q : Option (PiecewiseLinearLut W)).
              q ≡ some table → (is_increasing table ≡ true) × (0 < length table))
            (is_increasing points) (some points) none
            (λ rising e.
              subst (λ (q : List (LookupPoint W)). (is_increasing q ≡ true) × (0 < length q))
                (some-injective points table e) (rising, ground (arith, enough)))
            (λ falling e. absurd cc))

  lut_of_total :
      (table : PiecewiseLinearLut W) (pairs : List (LookupPoint W)) (xs : List W)
      → xs_of table ≡ xs
      → increasing xs ≡ true
      → xs_of pairs ≡ xs
      → Holds (λ (live : PiecewiseLinearLut W). xs_of live ≡ xs) (lut_of table pairs)
  lut_of_total table pairs xs e rising e' =
      let P = λ (live : PiecewiseLinearLut W). xs_of live ≡ xs in
      if_lem (Holds P) (ltb (length pairs) 2) (some table) (from_pairs pairs) (λ few. e)
        (λ enough.
          subst (Holds P) (sym (from_pairs_lem pairs (ap increasing e' ∙ rising) enough)) e')

  to_lut_total :
      (xs : List W) (d : DualLut W)
      → IsFor xs d
      → increasing xs ≡ true
      → AreNumbers xs
      → Holds (λ (live : PiecewiseLinearLut W). xs_of live ≡ xs) (to_lut d.static_lut d.online)
  unfolding to_lut
  to_lut_total xs d (same, v) rising numbers =
      let P = λ (live : PiecewiseLinearLut W). xs_of live ≡ xs in
      let bs = d.online.x_breakpoints in
      let size = ap length v.points in
      Holds-bind (λ (pairs : List (LookupPoint W)). xs_of pairs ≡ bs) P
        (live_points d.static_lut d.online 0 bs) _
        (live_points_total d.static_lut d.online 0 bs xs same v.some_point
          (omega (arith, size, v.counts)) (omega (arith, size, v.ys))
          (subst (All (λ (x : W). IsComparable x xs)) (sym v.points) numbers))
        (λ pairs e. lut_of_total d.static_lut pairs xs same rising (e ∙ v.points))

  dual_evaluate_total :
      (x : W) (xs : List W) (d : DualLut W)
      → IsFor xs d
      → increasing xs ≡ true
      → IsComparable x xs
      → AreNumbers xs
      → HasValue (dual_evaluate x d)
  unfolding dual_evaluate
  dual_evaluate_total x xs d (same, v) rising h numbers =
      let static_val = evaluate_over x d.static_lut xs same v.some_point h in
      if_lem HasValue (not_pos (warmup_weight d.online)) (evaluate x d.static_lut) (blend x d)
        (λ cold. static_val)
        (λ warm.
          Holds-bind (λ (live : PiecewiseLinearLut W). xs_of live ≡ xs) (λ (y : W). Unit {0})
            (to_lut d.static_lut d.online) _ (to_lut_total xs d (same, v) rising numbers)
            (λ live e.
              Holds-bind (λ y. Unit {0}) (λ (y : W). Unit {0}) (evaluate x d.static_lut) _
                static_val
                (λ y u.
                  Holds-bind (λ y. Unit {0}) (λ (y : W). Unit {0}) (evaluate x live) _
                    (evaluate_over x live xs e v.some_point h) (λ y' u'. tt))))

  from_static-IsFor :
      (table : PiecewiseLinearLut W) (alpha : W) (min_samples : ℕ)
      → 0 < length table
      → IsFor (xs_of table) (from_static table alpha min_samples)
  unfolding from_static new_estimator
  from_static-IsFor table alpha min_samples p = (
    refl,
    record {
      points = refl;
      some_point = omega (arith, length-xs_of table, p);
      counts =
          length-replicate (max (length (xs_of table)) 1) 0 ∙ omega (arith, length-xs_of table, p);
      ys =
          length-replicate (max (length (xs_of table)) 1) (nought {W = W})
          ∙ omega (arith, length-xs_of table, p);
    },
  )

  -- If `from_pairs` accepts the points, and neither their places nor `x` are NaN, so that any two of
  -- these can be compared, then a `DualLut` that starts from the table gives a value at `x`: neither the
  -- updates, whatever has been observed, nor `evaluate` raise a ValueError or an IndexError.
  pub dual_run-total :
      (points table : List (LookupPoint W)) (alpha : W) (min_samples : ℕ)
      (observations : List (W × W)) (x : W)
      → from_pairs points ≡ some table
      → IsComparable x (xs_of table)
      → AreNumbers (xs_of table)
      → HasValue
          (dual_run observations (from_static table alpha min_samples) >>= λ d. dual_evaluate x d)
  dual_run-total points table alpha min_samples observations x e h numbers =
      let (rising, p) = accepted points table e in
      let xs = xs_of table in
      Holds-bind (IsFor xs) (λ (y : W). Unit {0})
        (dual_run observations (from_static table alpha min_samples)) (λ d. dual_evaluate x d)
        (dual_run-IsFor observations xs (from_static table alpha min_samples)
          (from_static-IsFor table alpha min_samples p))
        (λ d v. dual_evaluate_total x xs d v (sym (is_increasing_xs table) ∙ rising) h numbers)
