-- ===== src/Data/OnlineStats/Marked.antt =====
-- src/data/featurespace/online_stats.py, `PSquareQuantile`: an update keeps the markers in order.
use stevehft.Prelude.{
  ℕ, zero, suc, ◌+◌, ◌≤◌, ◌<◌, ◌≡◌, refl, ap, ◌∙◌, sym, subst, true, false, List, [], ◌∷◌, ◌++◌,
  set, length, ltb, nat_eq, ◌==◌, if_lem, arith, if◌then◌else◌, length-append, length-set, ltb→lt,
  ltb-false→le,
}
use stevehft.Prelude.Float.{Float, nought, le, lt, neg, decimal}
use stevehft.Data.OnlineStats.Quantile.{
  PSquareQuantile, bump_from, adjust_marker, heights_with, height_at, marker_index, place_value,
  collect, start_markers, sorted, sort_in, quantile_update, quantile_run, post_init,
  find_marker_cell, desired_delta,
}
use stevehft.Data.OnlineStats.Markers.{
  IsOrdered, adjust_marker-positions, adjust_marker-heights, adjust_marker-count, stepped_positions,
  stepped_positions-IsOrdered,
}

suc-plus : (n : ℕ) → suc n ≡ n + 1
suc-plus n = omega arith

bump_from-IsOrdered :
    (k n : ℕ) (ps : List ℕ) → k ≤ 3 → IsOrdered n ps → IsOrdered (n + 1) (bump_from (k + 1) ps)
unfolding IsOrdered
bump_from-IsOrdered k n ps le (a, b, c, e, h1, h2, h3, h4) =
    subst (λ ps. IsOrdered (n + 1) (bump_from (k + 1) ps)) (sym e) (bumped k le)
  where
    bumped : (k : ℕ) → k ≤ 3 → IsOrdered (n + 1) (bump_from (k + 1) (1 ∷ a ∷ b ∷ c ∷ n ∷ []))
    bumped zero le =
        let last = ap (λ m. 1 ∷ suc a ∷ suc b ∷ suc c ∷ m ∷ []) (suc-plus n) in
        (suc a, suc b, suc c, last, omega arith, omega arith, omega arith, omega arith)
    bumped (suc zero) le =
        let last = ap (λ m. 1 ∷ a ∷ suc b ∷ suc c ∷ m ∷ []) (suc-plus n) in
        (a, suc b, suc c, last, h1, omega arith, omega arith, omega arith)
    bumped (suc (suc zero)) le =
        let last = ap (λ m. 1 ∷ a ∷ b ∷ suc c ∷ m ∷ []) (suc-plus n) in
        (a, b, suc c, last, h1, h2, omega arith, omega arith)
    bumped (suc (suc (suc zero))) le =
        let last = ap (λ m. 1 ∷ a ∷ b ∷ c ∷ m ∷ []) (suc-plus n) in
        (a, b, c, last, h1, h2, h3, omega arith)
    bumped (suc (suc (suc (suc k)))) le = absurd (omega arith)

module _ {W : Type 0} ⦃f : Float W⦄ where
  length-heights_with :
      (value : W) (heights : List W) → length (heights_with value heights) ≡ length heights
  length-heights_with value heights =
      if_lem (λ (q : List W). length q ≡ length heights) (lt value (height_at heights 0))
        (set heights 0 value)
        (if lt (height_at heights 4) value then set heights 4 value else heights)
        (λ e. length-set heights 0 value)
        (λ e.
          if_lem (λ (q : List W). length q ≡ length heights) (lt (height_at heights 4) value)
            (set heights 4 value) heights (λ e. length-set heights 4 value) (λ e. refl))

  length-sort_in : (x : W) (xs : List W) → length (sort_in x xs) ≡ suc (length xs)
  length-sort_in x [] = refl
  length-sort_in x (y ∷ ys) =
      if_lem (λ (q : List W). length q ≡ suc (suc (length ys))) (lt y x) (y ∷ sort_in x ys)
        (x ∷ y ∷ ys) (λ e. ap suc (length-sort_in x ys)) (λ e. refl)

  length-sorted : (xs : List W) → length (sorted xs) ≡ length xs
  length-sorted [] = refl
  length-sorted (x ∷ xs) = length-sort_in x (sorted xs) ∙ ap suc (length-sorted xs)

  find_marker_cell_bound : (value : W) (heights : List W) → find_marker_cell value heights ≤ 3
  unfolding find_marker_cell
  find_marker_cell_bound value heights = ground arith

  marker_index_bound : (value : W) (heights : List W) → marker_index value heights ≤ 3
  unfolding marker_index
  marker_index_bound value heights = ground (arith, find_marker_cell_bound value heights)

  -- While there are fewer than five values they stand as they came; from then on there are five
  -- markers, whose positions are in order, the first at 1 and the last at the number of values.
  pub IsMarked : PSquareQuantile W → Type 0
  IsMarked s =
      (s.sample_count < 5 → length s.marker_heights ≡ s.sample_count)
      × (5 ≤ s.sample_count
          → IsOrdered s.sample_count s.marker_positions × (length s.marker_heights ≡ 5))

  collect-IsMarked :
      (value : W) (s : PSquareQuantile W)
      → s.sample_count < 5
      → IsMarked s
      → IsMarked (collect value s)
  unfolding IsMarked IsOrdered
  collect-IsMarked value s few (first, later) =
      let grown = length-append s.marker_heights (value ∷ []) ∙ ap (λ n. n + 1) (first few) in
      let s' = record s {
        marker_heights = s.marker_heights ++ (value ∷ []);
        sample_count = s.sample_count + 1;
      } in
      if_lem IsMarked (s.sample_count + 1 == 5) (start_markers s') s'
        (λ e.
          let five = (nat_eq.equals_iff (s.sample_count + 1) 5).0 e in
          let last = ap (λ m. 1 ∷ 2 ∷ 3 ∷ 4 ∷ m ∷ []) (sym five) in
          let sized = length-sorted (s.marker_heights ++ (value ∷ [])) ∙ grown in
          (
            (λ fewer. sized),
            (λ enough. (
              (2, 3, 4, last, omega arith, omega arith, omega arith, omega (arith, five)),
              sized ∙ five,
            )),
          ))
        (λ e. (
          (λ fewer. grown),
          (λ enough.
              absurd (ground (arith, few, enough, e, nat_eq.equals_iff (s.sample_count + 1) 5))),
        ))

  -- A value that finds the markers in order.
  IsPlaced : ℕ → PSquareQuantile W → Type 0
  IsPlaced n s =
      (s.sample_count ≡ n) × IsOrdered n s.marker_positions × (length s.marker_heights ≡ 5)

  IsPlaced-IsMarked : (n : ℕ) (s : PSquareQuantile W) → 5 ≤ n → IsPlaced n s → IsMarked s
  unfolding IsPlaced IsMarked
  IsPlaced-IsMarked n s enough (counted, ordered, sized) = (
    (λ fewer. absurd (omega (arith, fewer, counted, enough))),
    (λ more. (subst (λ n. IsOrdered n s.marker_positions) (sym counted) ordered, sized)),
  )

  place_value-IsPlaced :
      (value : W) (s : PSquareQuantile W)
      → IsOrdered s.sample_count s.marker_positions
      → length s.marker_heights ≡ 5
      → IsPlaced (s.sample_count + 1) (place_value value s)
  unfolding IsPlaced
  place_value-IsPlaced value s ordered sized = (
    refl,
    bump_from-IsOrdered (marker_index value s.marker_heights) s.sample_count s.marker_positions
        (marker_index_bound value s.marker_heights) ordered,
    length-heights_with value s.marker_heights ∙ sized,
  )

  module _ (up : (x : W) → le (decimal 1 0) x ≡ true → lt nought x ≡ true)
      (down : (x : W) → le x (neg (decimal 1 0)) ≡ true → lt nought x ≡ false) where
    adjust_marker-IsPlaced :
        (idx : ℕ) (s : PSquareQuantile W) (n : ℕ)
        → ((d : W) (ps : List ℕ) → IsOrdered n ps → IsOrdered n (stepped_positions idx d ps))
        → IsPlaced n s
        → IsPlaced n (adjust_marker idx s)
    unfolding IsPlaced
    adjust_marker-IsPlaced idx s n step (counted, ordered, sized) = (
      adjust_marker-count idx s ∙ counted,
      subst (IsOrdered n) (sym (adjust_marker-positions idx s))
          (step (desired_delta idx s) s.marker_positions ordered),
      adjust_marker-heights idx s ∙ sized,
    )

    quantile_update-IsMarked :
        (value : W) (s : PSquareQuantile W) → IsMarked s → IsMarked (quantile_update value s)
    unfolding quantile_update IsMarked IsPlaced
    quantile_update-IsMarked value s h =
        if_lem IsMarked (ltb s.sample_count 5) (collect value s)
          (adjust_marker 3 (adjust_marker 2 (adjust_marker 1 (place_value value s))))
          (λ e. collect-IsMarked value s (ltb→lt s.sample_count 5 e) h)
          (λ e.
            let n = s.sample_count + 1 in
            let enough = ltb-false→le s.sample_count 5 e in
            let (ordered, sized) = h.1 enough in
            let s0 = place_value value s in
            let s1 = adjust_marker 1 s0 in
            let s2 = adjust_marker 2 s1 in
            let steps = stepped_positions-IsOrdered up down in
            let p0 = place_value-IsPlaced value s ordered sized in
            let p1 = adjust_marker-IsPlaced 1 s0 n (λ d ps o. (steps d n ps o).0) p0 in
            let p2 = adjust_marker-IsPlaced 2 s1 n (λ d ps o. (steps d n ps o).1) p1 in
            let p3 = adjust_marker-IsPlaced 3 s2 n (λ d ps o. (steps d n ps o).2) p2 in
            IsPlaced-IsMarked n (adjust_marker 3 s2) (omega (arith, enough)) p3)

    run-IsMarked :
        (values : List W) (s : PSquareQuantile W) → IsMarked s → IsMarked (quantile_run values s)
    unfolding quantile_run
    run-IsMarked [] s h = h
    run-IsMarked (value ∷ values) s h =
        run-IsMarked values (quantile_update value s) (quantile_update-IsMarked value s h)

    -- Whatever values a new `PSquareQuantile` is given, and if numbers from 1 on are positive and those
    -- up to -1 are not: the positions of its five markers increase strictly from 1 to the number of
    -- values, once there are five.
    pub quantile_run-IsMarked :
        (probability : W) (values : List W) → IsMarked (quantile_run values (post_init probability))
    unfolding post_init IsMarked
    quantile_run-IsMarked probability values =
        run-IsMarked values (post_init probability)
          ((λ fewer. refl), λ enough. absurd (omega (arith, enough)))
