-- ===== src/Data/Lut.antt =====
-- src/data/featurespace/lut.py: tables that are read by linear interpolation, and their estimates from
-- live observations. `none` is a raised ValueError or IndexError.
pub mod Evaluated
pub mod Buckets
pub mod Totality
use stevehft.Prelude.{
  ◌>>=◌, ℕ, zero, suc, ◌+◌, ◌-◌, Bool, true, false, ◌&&◌, Option, none, some, List, [], ◌∷◌, length,
  map, set, replicate, get_elem?, max, min, ltb, leb, nat_eq, ◌==◌, if◌then◌else◌,
}
use stevehft.Prelude.Dict.{get_or}
use stevehft.Prelude.Float.{
  Float, nought, not_pos, add, sub, mul, div, le, lt, min_f, decimal, of_ℕ,
}

pub record LookupPoint (W : Type 0) : Type 0 where
  pub x : W
  pub y : W

-- A table is its points; `x_values` are theirs.
abbrev pub PiecewiseLinearLut : Type 0 → Type 0
PiecewiseLinearLut W = List (LookupPoint W)

pub record OnlineLutEstimator (W : Type 0) : Type 0 where
  pub x_breakpoints : List W
  pub alpha : W
  pub min_samples_per_bucket : ℕ
  pub bucket_y : List W
  pub bucket_count : List ℕ

pub record DualLut (W : Type 0) : Type 0 where
  pub static_lut : PiecewiseLinearLut W
  pub online : OnlineLutEstimator W

-- `min(counts)`
abbrev least : ℕ → List ℕ → ℕ
least n [] = n
least n (m ∷ ms) = least (min n m) ms

-- What the index of the breakpoints from `idx + 1` on, and the test at `idx`, make the index.
abbrev pub later : Option ℕ → Bool → ℕ → Option ℕ
later (some i) reached idx = some i
later none reached idx = if reached then some idx else none

module _ {W : Type 0} ⦃f : Float W⦄ where
  -- No point stands at or before the one to its left.
  abbrev pub is_increasing : List (LookupPoint W) → Bool
  is_increasing [] = true
  is_increasing (p ∷ []) = true
  is_increasing (p ∷ q ∷ points) =
      let rest = is_increasing (q ∷ points) in if le q.x p.x then false else rest

  unfoldable pub from_pairs : List (LookupPoint W) → Option (PiecewiseLinearLut W)
  from_pairs points =
      if ltb (length points) 2 then none else if is_increasing points then some points else none

  -- `points[-1]`
  abbrev pub last_of : List (LookupPoint W) → Option (LookupPoint W)
  last_of [] = none
  last_of (p ∷ []) = some p
  last_of (p ∷ q ∷ points) = last_of (q ∷ points)

  -- `points[right_index - 1]`
  abbrev pub left_of : List (LookupPoint W) → ℕ → Option (LookupPoint W)
  left_of points zero = last_of points
  left_of points (suc i) = get_elem? points i

  -- `bisect_right(x_values, query)`: how many values of a sorted list are at most the query.
  unfoldable pub bisect_right : List (LookupPoint W) → W → ℕ
  bisect_right [] query = 0
  bisect_right (p ∷ points) query =
      let rest = suc (bisect_right points query) in if lt query p.x then 0 else rest

  abbrev pub interpolated : LookupPoint W → LookupPoint W → W → W
  interpolated left right query =
      let span = sub right.x left.x in
      let weight = div (sub query left.x) span in
      if not_pos span
      then right.y
      else add (mul (sub (decimal 1 0) weight) left.y) (mul weight right.y)

  abbrev pub evaluate_between : W → List (LookupPoint W) → Option W
  evaluate_between query points = do
    left ← left_of points (bisect_right points query)
    right ← get_elem? points (bisect_right points query)
    some (interpolated left right query)

  abbrev pub evaluate_above : W → List (LookupPoint W) → Option W
  evaluate_above query points = do
    last ← last_of points
    if le last.x query then some last.y else evaluate_between query points

  unfoldable pub evaluate : W → PiecewiseLinearLut W → Option W
  unfolding bisect_right
  evaluate query points = do
    first ← get_elem? points 0
    if le query first.x then some first.y else evaluate_above query points

  unfoldable pub new_estimator : List W → W → ℕ → OnlineLutEstimator W
  new_estimator x_breakpoints alpha min_samples_per_bucket = record {
    x_breakpoints = x_breakpoints;
    alpha = alpha;
    min_samples_per_bucket = min_samples_per_bucket;
    bucket_y = replicate (max (length x_breakpoints) 1) nought;
    bucket_count = replicate (max (length x_breakpoints) 1) 0;
  }

  -- The last breakpoint that `x` is not below; the loop goes down from the end.
  unfoldable pub last_at_most : W → ℕ → List W → Option ℕ
  last_at_most x idx [] = none
  last_at_most x idx (b ∷ bs) = later (last_at_most x (suc idx) bs) (le b x) idx

  unfoldable pub bucket_index : W → OnlineLutEstimator W → ℕ
  unfolding last_at_most
  bucket_index x o = get_or (last_at_most x 0 o.x_breakpoints) 0

  abbrev pub moved : W → W → ℕ → W → W
  moved alpha y count old =
      if count == 0 then y else add (mul (sub (decimal 1 0) alpha) old) (mul alpha y)

  unfoldable pub estimator_update : W → W → OnlineLutEstimator W → Option (OnlineLutEstimator W)
  unfolding bucket_index
  estimator_update x y o = do
    count ← get_elem? o.bucket_count (bucket_index x o)
    old ← get_elem? o.bucket_y (bucket_index x o)
    some (record o {
      bucket_y = set o.bucket_y (bucket_index x o) (moved o.alpha y count old);
      bucket_count = set o.bucket_count (bucket_index x o) (count + 1);
    })

  unfoldable pub warmup_of : ℕ → List ℕ → W
  warmup_of min_samples [] = nought
  warmup_of min_samples (n ∷ ns) =
      min_f (div (of_ℕ (least n ns)) (of_ℕ (max min_samples 1))) (decimal 1 0)

  unfoldable pub warmup_weight : OnlineLutEstimator W → W
  unfolding warmup_of
  warmup_weight o = warmup_of o.min_samples_per_bucket o.bucket_count

  abbrev pub live_y : PiecewiseLinearLut W → OnlineLutEstimator W → ℕ → W → ℕ → Option W
  live_y static_lut o idx x count =
      if ltb 0 count then get_elem? o.bucket_y idx else evaluate x static_lut

  -- The points at the breakpoints from an index on.
  unfoldable pub live_points :
      PiecewiseLinearLut W → OnlineLutEstimator W → ℕ → List W → Option (List (LookupPoint W))
  unfolding evaluate
  live_points static_lut o idx [] = some []
  live_points static_lut o idx (x ∷ xs) = do
    count ← get_elem? o.bucket_count idx
    y ← live_y static_lut o idx x count
    rest ← live_points static_lut o (suc idx) xs
    some (record { x = x; y = y } ∷ rest)

  abbrev pub lut_of : PiecewiseLinearLut W → List (LookupPoint W) → Option (PiecewiseLinearLut W)
  lut_of static_lut pairs = if ltb (length pairs) 2 then some static_lut else from_pairs pairs

  unfoldable pub to_lut :
      PiecewiseLinearLut W → OnlineLutEstimator W → Option (PiecewiseLinearLut W)
  unfolding live_points from_pairs
  to_lut static_lut o = do
    pairs ← live_points static_lut o 0 o.x_breakpoints
    lut_of static_lut pairs

  unfoldable pub from_static : PiecewiseLinearLut W → W → ℕ → DualLut W
  unfolding new_estimator
  from_static static_lut alpha min_samples_per_bucket = record {
    static_lut = static_lut;
    online =
        new_estimator (map (λ (p : LookupPoint W). p.x) static_lut) alpha min_samples_per_bucket;
  }

  unfoldable pub dual_update : W → W → DualLut W → Option (DualLut W)
  unfolding estimator_update
  dual_update x y d = do online ← estimator_update x y d.online; some (record d { online = online })

  -- The observations one after the other.
  unfoldable pub dual_run : List (W × W) → DualLut W → Option (DualLut W)
  unfolding dual_update
  dual_run [] d = some d
  dual_run ((x, y) ∷ observations) d = do d' ← dual_update x y d; dual_run observations d'

  abbrev pub blend : W → DualLut W → Option W
  blend x d = do
    live_lut ← to_lut d.static_lut d.online
    static_val ← evaluate x d.static_lut
    live_val ← evaluate x live_lut
    some (
        add (mul (sub (decimal 1 0) (warmup_weight d.online)) static_val)
          (mul (warmup_weight d.online) live_val))

  unfoldable pub dual_evaluate : W → DualLut W → Option W
  unfolding warmup_weight to_lut evaluate
  dual_evaluate x d =
      if not_pos (warmup_weight d.online) then evaluate x d.static_lut else blend x d
