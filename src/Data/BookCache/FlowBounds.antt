-- ===== src/Data/BookCache/FlowBounds.antt =====
-- src/data/book_cache.py: the flows are at most what they are divided by, so an imbalance is one.
use stevehft.Prelude.{
  ℕ, ◌+◌, ◌≤◌, ◌≡◌, refl, ◌&&◌, List, [], ◌∷◌, take, if_lem, arith, if◌then◌else◌,
}
use stevehft.Prelude.Int.{ℤ, pos, pos_part, neg_part, abs, ◌+ℤ◌, ◌-ℤ◌, +ℤ_parts, -ℤ_parts}
use stevehft.Prelude.Float.{Float, not_pos}
use stevehft.Execution.Intents.{OrderSide, bid, ask}
use stevehft.Data.State.{BookLevel, BestPriceSnapshot, SymbolState, depth_of}
use stevehft.Data.BookCache.Flow.{
  size_change, size_lost, is_better, is_same, l1_side_flow, level_price, level_size, level_flow,
  deeper_flow, tail, multi_level_side_flow, global_l1_flow, global_l1_scale, multi_level_flow,
  multi_level_scale,
}

-- At most `lost` is lost and at most `gained` is gained.
abbrev IsWithin : ℕ → ℕ → ℤ → Type 0
IsWithin lost gained z = (neg_part z ≤ lost) × (pos_part z ≤ gained)

module _ {W : Type 0} ⦃f : Float W⦄ where
  l1_side_flow-IsWithin :
      (side : OrderSide) (p : W) (previous : ℤ) (c : W) (current : ℤ)
      → IsWithin (pos_part previous) (pos_part current) (l1_side_flow side p previous c current)
  unfolding l1_side_flow
  l1_side_flow-IsWithin side p previous c current =
      let Q = IsWithin (pos_part previous) (pos_part current) in
      let rest = if is_same p c then size_change current previous else size_lost previous in
      let better = if is_better side p c then pos (pos_part current) else rest in
      if_lem Q (not_pos p && not_pos c) (pos 0) better (λ e. (omega arith, omega arith))
        (λ e.
          if_lem Q (is_better side p c) (pos (pos_part current)) rest
            (λ e. (omega arith, omega arith))
            (λ e.
              if_lem Q (is_same p c) (size_change current previous) (size_lost previous)
                (λ e. (ground arith, ground arith)) (λ e. (ground arith, ground arith))))

  level_flow-IsWithin :
      (side : OrderSide) (p c : List (BookLevel W))
      → IsWithin (pos_part (level_size p)) (pos_part (level_size c)) (level_flow side p c)
  level_flow-IsWithin side p c =
      l1_side_flow-IsWithin side (level_price p) (level_size p) (level_price c) (level_size c)

+ℤ-IsWithin :
    (z y : ℤ) {a b c d : ℕ} → IsWithin a b z → IsWithin c d y → IsWithin (a + c) (b + d) (z +ℤ y)
+ℤ-IsWithin z y hz hy = ground (arith, +ℤ_parts z y)

-ℤ_bound : (z y : ℤ) {a b c d : ℕ} → IsWithin a b z → IsWithin c d y → abs (z -ℤ y) ≤ a + c + b + d
-ℤ_bound z y hz hy = ground (arith, -ℤ_parts z y)

module _ {W : Type 0} ⦃f : Float W⦄ where
  deeper_flow-IsWithin :
      (side : OrderSide) (p c : List (BookLevel W))
      → IsWithin (depth_of p) (depth_of c) (deeper_flow side p c)
  unfolding deeper_flow
  deeper_flow-IsWithin side [] [] = (omega arith, omega arith)
  deeper_flow-IsWithin side [] (c ∷ cs) =
      +ℤ-IsWithin _ _ (level_flow-IsWithin side [] (c ∷ cs)) (deeper_flow-IsWithin side [] cs)
  deeper_flow-IsWithin side (p ∷ ps) [] =
      +ℤ-IsWithin _ _ (level_flow-IsWithin side (p ∷ ps) []) (deeper_flow-IsWithin side ps [])
  deeper_flow-IsWithin side (p ∷ ps) (c ∷ cs) =
      +ℤ-IsWithin _ _ (level_flow-IsWithin side (p ∷ ps) (c ∷ cs)) (deeper_flow-IsWithin side ps cs)

  depth_split :
      (levels : List (BookLevel W))
      → depth_of levels ≡ pos_part (level_size levels) + depth_of (tail levels)
  depth_split [] = omega arith
  depth_split (l ∷ ls) = refl

  multi_level_side_flow-IsWithin :
      (side : OrderSide) (p c : List (BookLevel W))
      → IsWithin (depth_of p) (depth_of c) (multi_level_side_flow side p c)
  unfolding multi_level_side_flow
  multi_level_side_flow-IsWithin side p c =
      let (lost, gained) =
        +ℤ-IsWithin _ _ (level_flow-IsWithin side p c)
          (deeper_flow-IsWithin side (tail p) (tail c)) in
      (omega (arith, lost, depth_split p), omega (arith, gained, depth_split c))

  -- The flow over the local books, whatever they hold, is at most the depth that it is divided by,
  -- so that the imbalance lies between -1 and 1 without being cut.
  pub multi_level_flow_bound :
      (depth : ℕ) (p c : SymbolState W)
      → abs (multi_level_flow depth p c) ≤ multi_level_scale depth p c
  unfolding multi_level_flow multi_level_scale
  multi_level_flow_bound depth p c =
      let bids =
        multi_level_side_flow-IsWithin bid (take depth p.local_bids) (take depth c.local_bids) in
      let asks =
        multi_level_side_flow-IsWithin ask (take depth p.local_asks) (take depth c.local_asks) in
      omega (arith, -ℤ_bound _ _ bids asks)

  -- The flow over the best global levels is at most the sum of the four sizes that it is divided by,
  -- if none of these is negative.
  pub global_l1_flow_bound :
      (p c : BestPriceSnapshot W)
      → neg_part p.global_bid_sz ≡ 0
      → neg_part p.global_ask_sz ≡ 0
      → neg_part c.global_bid_sz ≡ 0
      → neg_part c.global_ask_sz ≡ 0
      → abs (global_l1_flow p c) ≤ global_l1_scale p c
  unfolding global_l1_flow global_l1_scale
  global_l1_flow_bound p c pb pa cb ca =
      let bids =
        l1_side_flow-IsWithin bid p.global_bid_px p.global_bid_sz c.global_bid_px c.global_bid_sz in
      let asks =
        l1_side_flow-IsWithin ask p.global_ask_px p.global_ask_sz c.global_ask_px c.global_ask_sz in
      let z = c.global_bid_sz +ℤ c.global_ask_sz in
      let y = z +ℤ p.global_bid_sz in
      omega (
        arith,
        -ℤ_bound _ _ bids asks,
        +ℤ_parts c.global_bid_sz c.global_ask_sz,
        +ℤ_parts z p.global_bid_sz,
        +ℤ_parts y p.global_ask_sz,
      )
