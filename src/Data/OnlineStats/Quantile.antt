-- ===== src/Data/OnlineStats/Quantile.antt =====
-- src/data/featurespace/online_stats.py, `PSquareQuantile`: a quantile from five markers. Positions
-- are counts; a step is up or down by one. `list.sort` is a stable insertion by `<`.
use stevehft.Prelude.{
  ℕ, zero, suc, ◌+◌, ◌-◌, Bool, true, false, ◌&&◌, ◌||◌, List, [], ◌∷◌, ◌++◌, set, length, ltb,
  nat_eq, ◌==◌, get_elem?, min, if◌then◌else◌,
}
use stevehft.Prelude.Int.{ℤ, pos, negsuc, pos_part, sub_ℕ, ◌+ℤ◌, ◌-ℤ◌}
use stevehft.Prelude.Dict.{get_or}
use stevehft.Prelude.Float.{
  Float, nought, add, sub, mul, div, le, lt, neg, clamp, decimal, of_ℕ, of_ℤ, to_int,
}

pub record PSquareQuantile (W : Type 0) : Type 0 where
  pub probability : W
  pub marker_heights : List W
  pub marker_positions : List ℕ
  pub desired_positions : List W
  pub position_increments : List W
  pub sample_count : ℕ

-- `positions[idx] += 1` for the indexes from the first argument on.
abbrev pub bump_from : ℕ → List ℕ → List ℕ
bump_from k [] = []
bump_from zero (p ∷ ps) = suc p ∷ bump_from zero ps
bump_from (suc k) (p ∷ ps) = p ∷ bump_from k ps

-- The position of a marker, and after a step.
abbrev pub position_at : List ℕ → ℕ → ℕ
position_at positions idx = get_or (get_elem? positions idx) 0

abbrev pub stepped : Bool → ℕ → ℕ
stepped true p = p + 1
stepped false p = p - 1

abbrev step_of : Bool → ℤ
step_of true = pos 1
step_of false = negsuc 0

-- `idx + step`
abbrev neighbour : Bool → ℕ → ℕ
neighbour true idx = idx + 1
neighbour false idx = idx - 1

module _ {W : Type 0} ⦃f : Float W⦄ where
  abbrev pub height_at : List W → ℕ → W
  height_at heights idx = get_or (get_elem? heights idx) nought

  abbrev pub sort_in : W → List W → List W
  sort_in x [] = x ∷ []
  sort_in x (y ∷ ys) = let rest = sort_in x ys in if lt y x then y ∷ rest else x ∷ y ∷ ys

  abbrev pub sorted : List W → List W
  sorted [] = []
  sorted (x ∷ xs) = sort_in x (sorted xs)

  unfoldable pub post_init : W → PSquareQuantile W
  post_init given =
      let probability = clamp given nought (decimal 1 0) in
      record {
        probability = probability;
        marker_heights = [];
        marker_positions = [];
        desired_positions = [];
        position_increments =
            nought
            ∷ mul (decimal 5 1) probability
            ∷ probability
            ∷ mul (decimal 5 1) (add (decimal 1 0) probability)
            ∷ decimal 1 0
            ∷ [];
        sample_count = 0;
      }

  abbrev pub start_markers : PSquareQuantile W → PSquareQuantile W
  start_markers s = record s {
    marker_heights = sorted s.marker_heights;
    marker_positions = 1 ∷ 2 ∷ 3 ∷ 4 ∷ 5 ∷ [];
    desired_positions =
        decimal 1 0
        ∷ add (decimal 1 0) (mul (decimal 2 0) s.probability)
        ∷ add (decimal 1 0) (mul (decimal 4 0) s.probability)
        ∷ add (decimal 3 0) (mul (decimal 2 0) s.probability)
        ∷ decimal 5 0
        ∷ [];
  }

  -- One of the first five values.
  abbrev pub collect : W → PSquareQuantile W → PSquareQuantile W
  collect value s =
      let s' = record s {
        marker_heights = s.marker_heights ++ (value ∷ []);
        sample_count = s.sample_count + 1;
      } in
      if s.sample_count + 1 == 5 then start_markers s' else s'

  abbrev pub cell_among : W → List W → List ℕ → ℕ
  cell_among value heights [] = 3
  cell_among value heights (idx ∷ rest) =
      let later = cell_among value heights rest in
      if le (height_at heights idx) value && lt value (height_at heights (idx + 1))
      then idx
      else later

  unfoldable pub find_marker_cell : W → List W → ℕ
  find_marker_cell value heights = cell_among value heights (0 ∷ 1 ∷ 2 ∷ 3 ∷ [])

  unfoldable pub parabolic_height : ℕ → ℤ → PSquareQuantile W → W
  parabolic_height idx step s =
      let prev_pos = position_at s.marker_positions (idx - 1) in
      let curr_pos = position_at s.marker_positions idx in
      let next_pos = position_at s.marker_positions (idx + 1) in
      let prev_height = height_at s.marker_heights (idx - 1) in
      let curr_height = height_at s.marker_heights idx in
      let next_height = height_at s.marker_heights (idx + 1) in
      if ltb prev_pos curr_pos && ltb curr_pos next_pos && ltb prev_pos next_pos
      then add curr_height (
          mul (div (of_ℤ step) (of_ℤ (sub_ℕ next_pos prev_pos))) (
            add
              (div (mul (of_ℤ (sub_ℕ curr_pos prev_pos +ℤ step)) (sub next_height curr_height))
                (of_ℤ (sub_ℕ next_pos curr_pos)))
              (div (mul (of_ℤ (sub_ℕ next_pos curr_pos -ℤ step)) (sub curr_height prev_height))
                (of_ℤ (sub_ℕ curr_pos prev_pos)))))
      else curr_height

  unfoldable pub linear_height : ℕ → Bool → PSquareQuantile W → W
  linear_height idx up s =
      let next_idx = neighbour up idx in
      let here = height_at s.marker_heights idx in
      if position_at s.marker_positions next_idx == position_at s.marker_positions idx
      then here
      else add here (
          div (mul (of_ℤ (step_of up)) (sub (height_at s.marker_heights next_idx) here)) (
            of_ℤ (
              sub_ℕ (position_at s.marker_positions next_idx)
                (position_at s.marker_positions idx))))

  -- The marker is off by one or more, and there is room for it to move.
  abbrev pub moves : W → ℕ → ℕ → ℕ → Bool
  moves desired_delta prev_pos curr_pos next_pos =
      le (decimal 1 0) desired_delta && ltb (curr_pos + 1) next_pos
      || le desired_delta (neg (decimal 1 0)) && ltb (prev_pos + 1) curr_pos

  abbrev pub move_marker : ℕ → Bool → PSquareQuantile W → PSquareQuantile W
  move_marker idx up s =
      let candidate = parabolic_height idx (step_of up) s in
      let height =
        if lt (height_at s.marker_heights (idx - 1)) candidate
          && lt candidate (height_at s.marker_heights (idx + 1))
        then candidate
        else linear_height idx up s in
      record s {
        marker_heights = set s.marker_heights idx height;
        marker_positions =
            set s.marker_positions idx (stepped up (position_at s.marker_positions idx));
      }

  abbrev pub desired_delta : ℕ → PSquareQuantile W → W
  desired_delta idx s =
      sub (height_at s.desired_positions idx) (of_ℕ (position_at s.marker_positions idx))

  unfoldable pub adjust_marker : ℕ → PSquareQuantile W → PSquareQuantile W
  unfolding parabolic_height linear_height
  adjust_marker idx s =
      if moves (desired_delta idx s) (position_at s.marker_positions (idx - 1))
        (position_at s.marker_positions idx) (position_at s.marker_positions (idx + 1))
      then move_marker idx (lt nought (desired_delta idx s)) s
      else s

  -- The outer heights follow the least and the greatest value.
  abbrev pub heights_with : W → List W → List W
  heights_with value heights =
      if lt value (height_at heights 0)
      then set heights 0 value
      else if lt (height_at heights 4) value
      then set heights 4 value
      else heights

  unfoldable pub marker_index : W → List W → ℕ
  unfolding find_marker_cell
  marker_index value heights =
      if lt value (height_at heights 0)
      then 0
      else if lt (height_at heights 4) value
      then 3
      else find_marker_cell value heights

  abbrev add_each : List W → List W → List W
  add_each [] ys = []
  add_each (x ∷ xs) [] = x ∷ xs
  add_each (x ∷ xs) (y ∷ ys) = add x y ∷ add_each xs ys

  abbrev pub place_value : W → PSquareQuantile W → PSquareQuantile W
  place_value value s = record s {
    sample_count = s.sample_count + 1;
    marker_heights = heights_with value s.marker_heights;
    marker_positions = bump_from (marker_index value s.marker_heights + 1) s.marker_positions;
    desired_positions = add_each s.desired_positions s.position_increments;
  }

  unfoldable pub quantile_update : W → PSquareQuantile W → PSquareQuantile W
  unfolding marker_index adjust_marker
  quantile_update value s =
      if ltb s.sample_count 5
      then collect value s
      else adjust_marker 3 (adjust_marker 2 (adjust_marker 1 (place_value value s)))

  -- The values one after the other.
  unfoldable pub quantile_run : List W → PSquareQuantile W → PSquareQuantile W
  unfolding quantile_update
  quantile_run [] s = s
  quantile_run (value ∷ values) s = quantile_run values (quantile_update value s)

  abbrev blended : PSquareQuantile W → List W → W
  blended s samples =
      let rank = mul s.probability (of_ℕ (length samples - 1)) in
      let lower_index = pos_part (to_int rank) in
      let upper_index = min (lower_index + 1) (length samples - 1) in
      let blend = sub rank (of_ℕ lower_index) in
      add (mul (sub (decimal 1 0) blend) (height_at samples lower_index))
        (mul blend (height_at samples upper_index))

  -- The rank is not negative, as the probability is not.
  unfoldable pub estimate : PSquareQuantile W → W
  estimate s =
      if s.sample_count == 0
      then nought
      else if ltb s.sample_count 5
      then if length s.marker_heights == 1
        then height_at (sorted s.marker_heights) 0
        else blended s (sorted s.marker_heights)
      else height_at s.marker_heights 2
