-- ===== src/Data/State/Depth.antt =====
-- src/data/state.py: depths of a book's side, and the queue ahead of a price.
use stevehft.Prelude.{
  ℕ, suc, ◌+◌, String, Bool, Option, none, some, List, [], ◌∷◌, take, max, ltb, string_eq,
  if◌then◌else◌,
}
use stevehft.Prelude.Int.{ℤ, pos, pos_part}
use stevehft.Prelude.Float.{Float, nought, not_pos, add, sub, mul, div, le, lt, of_ℕ, of_ℤ, decimal}
use stevehft.Prelude.Texts.{Texts}
use stevehft.Execution.Intents.{OrderSide, bid, ask}
use stevehft.Data.State.{
  BookLevel, SymbolState, is_pos_ℤ, side_named, book_side, fallback_book_sz, depth_of,
  fallback_book_imbalance, imbalance,
}

-- `depth if depth > 0 else max(fallback, 0)`
abbrev pub depth_or : ℕ → ℤ → ℕ
depth_or depth fallback = if ltb 0 depth then depth else pos_part fallback

module _ {W : Type 0} where
  unfoldable pub cumulative_depth : OrderSide → ℤ → Bool → SymbolState W → ℕ
  unfolding book_side fallback_book_sz
  cumulative_depth side levels is_local s =
      depth_or (depth_of (take (pos_part levels) (book_side side is_local s)))
        (fallback_book_sz side is_local s)

  -- `book if levels is None else book[: max(levels, 0)]`
  abbrev pub cut_to : Option ℤ → List (BookLevel W) → List (BookLevel W)
  cut_to none book = book
  cut_to (some levels) book = take (pos_part levels) book

  unfoldable pub side_volume : Option ℤ → Bool → SymbolState W → OrderSide → ℕ
  unfolding book_side fallback_book_sz
  side_volume levels is_local s side =
      depth_or (depth_of (cut_to levels (book_side side is_local s)))
        (fallback_book_sz side is_local s)

abbrev pub on_side {ℓ} : {A : Type ℓ} → (OrderSide → A) → Option OrderSide → Option A
on_side read none = none
on_side read (some side) = some (read side)

module _ {W : Type 0} ⦃texts : Texts⦄ where
  unfoldable pub one_sided_book_volume : String → Option ℤ → Bool → SymbolState W → Option ℕ
  unfolding side_volume side_named
  one_sided_book_volume side levels is_local s =
      on_side (side_volume levels is_local s) (side_named side)

module _ {W : Type 0} ⦃f : Float W⦄ where
  unfoldable pub depth_imbalance : ℤ → Bool → SymbolState W → W
  unfolding cumulative_depth fallback_book_imbalance
  depth_imbalance levels is_local s =
      let bid_depth = cumulative_depth bid levels is_local s in
      let ask_depth = cumulative_depth ask levels is_local s in
      if ltb 0 (bid_depth + ask_depth)
      then imbalance (pos bid_depth) (pos ask_depth)
      else fallback_book_imbalance is_local s

  -- How many levels the loop reads until their sizes, added to `cumulative`, reach the target.
  unfoldable pub levels_until : W → List (BookLevel W) → W → ℕ
  levels_until target_volume [] cumulative = 0
  levels_until target_volume (level ∷ book) cumulative =
      let more = add cumulative (of_ℕ (pos_part level.size)) in
      let rest = suc (levels_until target_volume book more) in
      if le target_volume more then 1 else rest

  abbrev pub levels_to_cover : W → ℕ → List (BookLevel W) → ℕ
  levels_to_cover fraction total_volume [] = 1
  levels_to_cover fraction total_volume (level ∷ book) =
      levels_until (mul fraction (of_ℕ total_volume)) (level ∷ book) nought

  abbrev pub side_levels_to_cover : W → Bool → SymbolState W → OrderSide → ℕ
  side_levels_to_cover fraction is_local s side =
      if ltb 0 (side_volume none is_local s side)
      then levels_to_cover fraction (side_volume none is_local s side) (book_side side is_local s)
      else 0

  -- `price` is worse than the level at which the loop stops.
  abbrev pub is_behind : OrderSide → W → W → Bool
  is_behind bid price level_price = lt (add level_price (decimal 1 12)) price
  is_behind ask price level_price = lt price (sub level_price (decimal 1 12))

  unfoldable pub queue_loop : OrderSide → W → List (BookLevel W) → ℕ
  queue_loop side price [] = 0
  queue_loop side price (level ∷ book) =
      let rest = queue_loop side price book in
      if is_behind side price level.price then 0 else pos_part level.size + rest

  module _ ⦃texts : Texts⦄ where
    unfoldable pub levels_to_cover_side_volume_fraction :
        String → W → Bool → SymbolState W → Option ℕ
    unfolding side_named book_side side_volume levels_until
    levels_to_cover_side_volume_fraction side fraction is_local s =
        if not_pos fraction
        then some 0
        else on_side (side_levels_to_cover fraction is_local s) (side_named side)

    unfoldable pub queue_ahead_lots : String → W → Bool → SymbolState W → Option ℕ
    unfolding side_named book_side queue_loop
    queue_ahead_lots side price is_local s =
        if not_pos price
        then some 0
        else on_side (λ named. queue_loop named price (book_side named is_local s))
            (side_named side)

    abbrev share_of : ℤ → Option ℕ → Option W
    share_of own_size none = none
    share_of own_size (some queue_ahead) =
        some (div (of_ℤ own_size) (of_ℕ (max (queue_ahead + pos_part own_size) 1)))

    unfoldable pub queue_share : String → W → ℤ → Bool → SymbolState W → Option W
    unfolding queue_ahead_lots
    queue_share side price own_size is_local s =
        if is_pos_ℤ own_size
        then share_of own_size (queue_ahead_lots side price is_local s)
        else some nought
