-- ===== src/Strategy/Sweep/Ladder.antt =====
-- src/strategy/sweep_reversion.py, the ladder of `compute`: passive orders on both sides of the short
-- moving average, each a tick further from it and a lot larger than the one before.
use stevehft.Prelude.{
  ℕ, zero, suc, ◌+◌, Bool, not, ◌&&◌, List, [], ◌∷◌, map, max, leb, Eq, if◌then◌else◌,
}
use stevehft.Prelude.Int.{pos, pos_part, ◌-ℤ◌, ltb_ℤ}
use stevehft.Prelude.Float.{
  Float, is_pos, not_pos, le, add, sub, mul, div, neg, max_f, clamp, decimal, of_ℕ,
}
use stevehft.Strategy.ParamMath.{round_to_tick, merge_sweep_pending_levels}
use stevehft.Strategy.Sweep.{SweepState}
use stevehft.Strategy.Sweep.Scores.{Arguments, short_ma, long_ma_drift_ticks, book_age_ms}

-- Prices with sizes, best first.
abbrev pub Levels : Type 0 → Type 0
Levels W = List (W × ℕ)

module _ {W : Type 0} where
  -- `sum(sz for _, sz in levels)`
  abbrev pub lots_in : Levels W → ℕ
  lots_in [] = 0
  lots_in (level ∷ levels) = level.1 + lots_in levels

module _ {W : Type 0} ⦃f : Float W⦄ where
  abbrev pub offset : Arguments W → ℕ → W
  offset args lvl = mul (add args.history_config.sweep_min_edge_ticks (of_ℕ lvl)) args.tick_size

  unfoldable pub bid_px : Arguments W → SweepState W → ℕ → W
  unfolding round_to_tick short_ma
  bid_px args s lvl = round_to_tick (sub (short_ma args s) (offset args lvl)) args.tick_size

  unfoldable pub ask_px : Arguments W → SweepState W → ℕ → W
  unfolding round_to_tick short_ma
  ask_px args s lvl = round_to_tick (add (short_ma args s) (offset args lvl)) args.tick_size

  -- The bids from a level on: a price that is not positive ends the ladder.
  unfoldable pub bid_ladder : Arguments W → SweepState W → ℕ → ℕ → Levels W
  unfolding bid_px
  bid_ladder args s zero lvl = []
  bid_ladder args s (suc n) lvl =
      let deeper = bid_ladder args s n (lvl + 1) in
      let level_px = bid_px args s lvl in
      if not_pos level_px
      then []
      else (if le args.state.best_price.best_bid_px level_px
          then deeper
          else (level_px, lvl + 1) ∷ deeper)

  unfoldable pub ask_ladder : Arguments W → SweepState W → ℕ → ℕ → Levels W
  unfolding ask_px
  ask_ladder args s zero lvl = []
  ask_ladder args s (suc n) lvl =
      let deeper = ask_ladder args s n (lvl + 1) in
      let level_px = ask_px args s lvl in
      if le level_px args.state.best_price.best_ask_px then deeper else (level_px, lvl + 1) ∷ deeper

  abbrev pub max_levels : Arguments W → ℕ
  max_levels args = max (pos_part args.history_config.sweep_ladder_depth_levels) 1

  unfoldable pub may_ladder : Arguments W → SweepState W → Bool
  unfolding short_ma
  may_ladder args s =
      args.session_open
      && not args.flatten_only_mode
      && le args.toxicity_score args.history_config.sweep_max_toxicity
      && le (book_age_ms args) args.history_config.sweep_max_book_age_ms
      && leb 6 s.updates_seen
      && is_pos (short_ma args s)

  abbrev pub drift_score : Arguments W → SweepState W → W
  drift_score args s =
      clamp (div (long_ma_drift_ticks args s) (max_f (decimal 3 0) (decimal 1 9)))
        (neg (decimal 1 0)) (decimal 1 0)

  abbrev pub bids_blocked_by_inv : Arguments W → Bool
  bids_blocked_by_inv args = not (ltb_ℤ args.inventory_lots args.inventory_limit_lots)

  abbrev pub asks_blocked_by_inv : Arguments W → Bool
  asks_blocked_by_inv args = not (ltb_ℤ (pos 0 -ℤ args.inventory_limit_lots) args.inventory_lots)

  unfoldable pub bid_levels : Arguments W → SweepState W → Levels W
  unfolding may_ladder bid_ladder long_ma_drift_ticks
  bid_levels args s =
      if may_ladder args s
        && le (neg (decimal 33 2)) (drift_score args s)
        && not (bids_blocked_by_inv args)
      then bid_ladder args s (max_levels args) 0
      else []

  unfoldable pub ask_levels : Arguments W → SweepState W → Levels W
  unfolding may_ladder ask_ladder long_ma_drift_ticks
  ask_levels args s =
      if may_ladder args s
        && le (drift_score args s) (decimal 33 2)
        && not (asks_blocked_by_inv args)
      then ask_ladder args s (max_levels args) 0
      else []

module _ {W : Type 0} ⦃f : Float W⦄ ⦃e : Eq W⦄ where
  -- The levels of a side are put into the pending ones, with no fill seen.
  unfoldable pub note_pending : W → Levels W → SweepState W → SweepState W
  unfolding merge_sweep_pending_levels
  note_pending sign [] s = s
  note_pending sign (level ∷ levels) s = record s {
    sweep_pending_levels =
        merge_sweep_pending_levels s.sweep_pending_levels
          (map (λ (l : W × ℕ). (l.0, sign, 0)) (level ∷ levels));
  }
