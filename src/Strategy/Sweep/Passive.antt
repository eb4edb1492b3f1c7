-- ===== src/Strategy/Sweep/Passive.antt =====
-- src/strategy/sweep_reversion.py, `compute`: the ladder's orders rest in the book, and are bounded.
use stevehft.Prelude.{
  ℕ, zero, suc, ◌+◌, ◌*◌, ◌≤◌, ◌≡◌, true, false, [], ◌∷◌, length, All, ltb, Eq, if_lem, arith,
  Bool-cases, inl, inr,
}
use stevehft.Prelude.Int.{pos, ◌-ℤ◌, ltb_ℤ}
use stevehft.Prelude.Float.{Float, not_pos, le}
use stevehft.Strategy.Sweep.{SweepState, absorb_sweep_fills}
use stevehft.Strategy.Sweep.Scores.{Arguments}
use stevehft.Strategy.Sweep.Ladder.{
  Levels, lots_in, bid_px, ask_px, bid_ladder, ask_ladder, max_levels, may_ladder, bid_levels,
  ask_levels,
}
use stevehft.Strategy.Sweep.Compute.{SweepReversionOutputs, compute}

module _ {W : Type 0} ⦃f : Float W⦄ (args : Arguments W) where
  -- A bid has a price, is below the best bid, and is of no more lots than the ladder has levels.
  abbrev pub IsPassiveBid : W × ℕ → Type 0
  IsPassiveBid (px, lots) =
      (not_pos px ≡ false)
      × (le args.state.best_price.best_bid_px px ≡ false)
      × (lots ≤ max_levels args)

  abbrev pub IsPassiveAsk : W × ℕ → Type 0
  IsPassiveAsk (px, lots) =
      (le px args.state.best_price.best_ask_px ≡ false) × (lots ≤ max_levels args)

  -- Orders may be placed at all.
  abbrev pub IsOpen : Type 0
  IsOpen = (args.session_open ≡ true) × (args.flatten_only_mode ≡ false)

  pub record IsPassive (o : SweepReversionOutputs W) : Type 0 where
    pub bids : All IsPassiveBid o.sweep_reversion_bid_levels
    pub asks : All IsPassiveAsk o.sweep_reversion_ask_levels
    -- No level adds to a position that is at its limit already.
    pub bids_open :
        ltb 0 (length o.sweep_reversion_bid_levels) ≡ true
        → IsOpen × (ltb_ℤ args.inventory_lots args.inventory_limit_lots ≡ true)
    pub asks_open :
        ltb 0 (length o.sweep_reversion_ask_levels) ≡ true
        → IsOpen × (ltb_ℤ (pos 0 -ℤ args.inventory_limit_lots) args.inventory_lots ≡ true)
    pub size : o.sweep_reversion_size_lots ≤ 2 * (max_levels args * max_levels args)

  -- The levels are passive and hold at most as many lots as `n` of the largest.
  abbrev IsLadder : (W × ℕ → Type 0) → ℕ → Levels W → Type 0
  IsLadder P n levels = All P levels × (lots_in levels ≤ n * max_levels args)

  IsLadder-skip :
      (P : W × ℕ → Type 0) (n : ℕ) (levels : Levels W)
      → IsLadder P n levels
      → IsLadder P (suc n) levels
  IsLadder-skip P n levels (all, lots) = (all, omega (arith, lots))

  IsLadder-cons :
      (P : W × ℕ → Type 0) (n : ℕ) (level : W × ℕ) (levels : Levels W)
      → P level
      → level.1 ≤ max_levels args
      → IsLadder P n levels
      → IsLadder P (suc n) (level ∷ levels)
  IsLadder-cons P n level levels p bound (all, lots) = ((p, all), omega (arith, lots, bound))

  bid_ladder-IsLadder :
      (s : SweepState W) (n lvl : ℕ)
      → lvl + n ≤ max_levels args
      → IsLadder IsPassiveBid n (bid_ladder args s n lvl)
  unfolding bid_ladder
  bid_ladder-IsLadder s zero lvl h = (tt, omega arith)
  bid_ladder-IsLadder s (suc n) lvl h =
      let deeper = bid_ladder-IsLadder s n (lvl + 1) (omega (arith, h)) in
      let px = bid_px args s lvl in
      let bound : lvl + 1 ≤ max_levels args = omega (arith, h) in
      elim (Bool-cases (not_pos px)) [
        | inl unpriced ↦ rw unpriced (tt, omega arith)
        | inr priced ↦ rw priced (elim (Bool-cases (le args.state.best_price.best_bid_px px)) [
          | inl crossing ↦
              rw crossing (IsLadder-skip IsPassiveBid n (bid_ladder args s n (lvl + 1)) deeper)
          | inr resting ↦ rw resting (
              IsLadder-cons IsPassiveBid n (px, lvl + 1) (bid_ladder args s n (lvl + 1))
                (priced, resting, bound) bound deeper)
        ])
      ]

  ask_ladder-IsLadder :
      (s : SweepState W) (n lvl : ℕ)
      → lvl + n ≤ max_levels args
      → IsLadder IsPassiveAsk n (ask_ladder args s n lvl)
  unfolding ask_ladder
  ask_ladder-IsLadder s zero lvl h = (tt, omega arith)
  ask_ladder-IsLadder s (suc n) lvl h =
      let deeper = ask_ladder-IsLadder s n (lvl + 1) (omega (arith, h)) in
      let px = ask_px args s lvl in
      let bound : lvl + 1 ≤ max_levels args = omega (arith, h) in
      elim (Bool-cases (le px args.state.best_price.best_ask_px)) [
        | inl crossing ↦
            rw crossing (IsLadder-skip IsPassiveAsk n (ask_ladder args s n (lvl + 1)) deeper)
        | inr resting ↦ rw resting (
            IsLadder-cons IsPassiveAsk n (px, lvl + 1) (ask_ladder args s n (lvl + 1))
              (resting, bound) bound deeper)
      ]

  bid_levels-IsLadder :
      (s : SweepState W) → IsLadder IsPassiveBid (max_levels args) (bid_levels args s)
  unfolding bid_levels
  bid_levels-IsLadder s =
      if_lem (λ (levels : Levels W). IsLadder IsPassiveBid (max_levels args) levels) _
        (bid_ladder args s (max_levels args) 0) []
        (λ on. bid_ladder-IsLadder s (max_levels args) 0 (omega arith)) (λ off. (tt, omega arith))

  ask_levels-IsLadder :
      (s : SweepState W) → IsLadder IsPassiveAsk (max_levels args) (ask_levels args s)
  unfolding ask_levels
  ask_levels-IsLadder s =
      if_lem (λ (levels : Levels W). IsLadder IsPassiveAsk (max_levels args) levels) _
        (ask_ladder args s (max_levels args) 0) []
        (λ on. ask_ladder-IsLadder s (max_levels args) 0 (omega arith)) (λ off. (tt, omega arith))

  bid_levels-open :
      (s : SweepState W)
      → ltb 0 (length (bid_levels args s)) ≡ true
      → IsOpen × (ltb_ℤ args.inventory_lots args.inventory_limit_lots ≡ true)
  unfolding bid_levels may_ladder
  bid_levels-open s h = ground (arith, h)

  ask_levels-open :
      (s : SweepState W)
      → ltb 0 (length (ask_levels args s)) ≡ true
      → IsOpen × (ltb_ℤ (pos 0 -ℤ args.inventory_limit_lots) args.inventory_lots ≡ true)
  unfolding ask_levels may_ladder
  ask_levels-open s h = ground (arith, h)

module _ {W : Type 0} ⦃f : Float W⦄ ⦃e : Eq W⦄ where
  -- Every level of the ladder that `compute` outputs rests in the book: a bid has a positive price
  -- below the best bid, an ask a price above the best ask. A level is of at most as many lots as the
  -- ladder has levels, and the whole ladder of at most twice the square of that. There are bids only
  -- in an open session, outside flatten-only mode and with the inventory below its limit, and asks
  -- only there with the inventory above the negated limit.
  pub compute-IsPassive :
      (args : Arguments W) (s : SweepState W) → IsPassive args (compute args s).0
  unfolding compute
  compute-IsPassive args s =
      let absorbed = absorb_sweep_fills args.state.symbol args.order_ledger args.tick_size s in
      let (bids, bid_lots) = bid_levels-IsLadder args absorbed in
      let (asks, ask_lots) = ask_levels-IsLadder args absorbed in
      record {
        bids = bids;
        asks = asks;
        bids_open = bid_levels-open args absorbed;
        asks_open = ask_levels-open args absorbed;
        size = omega (arith, bid_lots, ask_lots);
      }
