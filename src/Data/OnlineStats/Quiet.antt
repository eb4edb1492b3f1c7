-- ===== src/Data/OnlineStats/Quiet.antt =====
-- src/data/featurespace/online_stats.py: the states that the two detectors of a drift stay in.
use stevehft.Prelude.{◌≡◌, false, List, [], ◌∷◌, if_lem, refl, subst, sym}
use stevehft.Prelude.Float.{Float, nought, sub, le, lt, neg, max_f, min_f}
use stevehft.Data.OnlineStats.Drift.{
  CusumDrift, PageHinkleyDrift, cusum_decide, cusum_gather, cusum_update, cusum_run, hinkley_decide,
  hinkley_gather, hinkley_update,
}

module _ {W : Type 0} ⦃f : Float W⦄ where
  -- Neither sum has reached the threshold.
  unfoldable pub IsQuiet : CusumDrift W → Type 0
  IsQuiet s =
      (le s.threshold s.positive_sum ≡ false) × (le s.negative_sum (neg s.threshold) ≡ false)

  cusum_decide-IsQuiet :
      (s : CusumDrift W)
      → le s.threshold nought ≡ false
      → le nought (neg s.threshold) ≡ false
      → IsQuiet (cusum_decide s)
  unfolding IsQuiet
  cusum_decide-IsQuiet s up down =
      if_lem IsQuiet (le s.threshold s.positive_sum) _ _ (λ e. (up, down))
        (λ e.
          if_lem IsQuiet (le s.negative_sum (neg s.threshold)) _ _ (λ e. (up, down))
            (λ e'. (e, e')))

  cusum_decide-threshold : (s : CusumDrift W) → (cusum_decide s).threshold ≡ s.threshold
  cusum_decide-threshold s =
      if_lem (λ (q : CusumDrift W). q.threshold ≡ s.threshold) (le s.threshold s.positive_sum) _ _
        (λ e. refl)
        (λ e.
          if_lem (λ (q : CusumDrift W). q.threshold ≡ s.threshold)
            (le s.negative_sum (neg s.threshold)) _ _ (λ e. refl) (λ e. refl))

  cusum_update-IsQuiet :
      (value : W) (s : CusumDrift W)
      → le s.threshold nought ≡ false
      → le nought (neg s.threshold) ≡ false
      → IsQuiet (cusum_update value s)
  unfolding cusum_update
  cusum_update-IsQuiet value s up down = cusum_decide-IsQuiet (cusum_gather value s) up down

  cusum_update-threshold :
      (value : W) (s : CusumDrift W) → (cusum_update value s).threshold ≡ s.threshold
  unfolding cusum_update
  cusum_update-threshold value s = cusum_decide-threshold (cusum_gather value s)

  -- With a positive threshold, no sum stands at the threshold between two updates, whatever the values
  -- are: a signal takes what has gathered with it, and a second one needs new values.
  pub cusum_run-IsQuiet :
      (values : List W) (s : CusumDrift W)
      → le s.threshold nought ≡ false
      → le nought (neg s.threshold) ≡ false
      → IsQuiet s
      → IsQuiet (cusum_run values s)
  unfolding cusum_run
  cusum_run-IsQuiet [] s up down quiet = quiet
  cusum_run-IsQuiet (value ∷ values) s up down quiet =
      let e = sym (cusum_update-threshold value s) in
      cusum_run-IsQuiet values (cusum_update value s) (subst (λ (t : W). le t nought ≡ false) e up)
        (subst (λ (t : W). le nought (neg t) ≡ false) e down) (cusum_update-IsQuiet value s up down)

  -- The sum lies between its least and its greatest value.
  unfoldable pub IsBracketed : PageHinkleyDrift W → Type 0
  IsBracketed s =
      (lt s.cumulative s.min_cumulative ≡ false) × (lt s.max_cumulative s.cumulative ≡ false)

  min_f_bound : (m c : W) → lt c c ≡ false → lt c (min_f m c) ≡ false
  min_f_bound m c irreflexive =
      if_lem (λ (q : W). lt c q ≡ false) (lt c m) c m (λ e. irreflexive) (λ e. e)

  max_f_bound : (m c : W) → lt c c ≡ false → lt (max_f m c) c ≡ false
  max_f_bound m c irreflexive =
      if_lem (λ (q : W). lt q c ≡ false) (lt m c) c m (λ e. irreflexive) (λ e. e)

  hinkley_decide-IsBracketed :
      (value : W) (s : PageHinkleyDrift W)
      → lt {W = W} nought nought ≡ false
      → IsBracketed s
      → IsBracketed (hinkley_decide value s)
  unfolding IsBracketed
  hinkley_decide-IsBracketed value s irreflexive h =
      if_lem IsBracketed (le s.threshold (sub s.cumulative s.min_cumulative)) _ _
        (λ e. (irreflexive, irreflexive))
        (λ e.
          if_lem IsBracketed (le s.threshold (sub s.max_cumulative s.cumulative)) _ _
            (λ e. (irreflexive, irreflexive)) (λ e. h))

  -- After each value, the sum of the Page-Hinkley test is neither below its least nor above its
  -- greatest value since the last signal.
  pub hinkley_update-IsBracketed :
      (value : W) (s : PageHinkleyDrift W)
      → ((x : W) → lt x x ≡ false)
      → IsBracketed (hinkley_update value s)
  unfolding hinkley_update IsBracketed
  hinkley_update-IsBracketed value s irreflexive =
      if_lem IsBracketed s.initialized _ _
        (λ e.
          hinkley_decide-IsBracketed value (hinkley_gather value s) (irreflexive nought)
            (min_f_bound _ _ (irreflexive _), max_f_bound _ _ (irreflexive _)))
        (λ e. (irreflexive nought, irreflexive nought))
