-- ===== src/Strategy/Sweep.antt =====
-- src/strategy/sweep_reversion.py: the ladder that waits at the short moving average, and the fills of
-- its orders. Of the adaptive state and of the configuration (src/strategy/param_types.py) these are
-- the fields that the engine uses.
pub mod Ladder
pub mod Scores
pub mod Compute
pub mod Absorbed
pub mod Passive
mod Tests
use stevehft.Prelude.{
  ℕ, ◌+◌, ◌*◌, String, Bool, true, false, not, ◌&&◌, Option, none, some, List, [], ◌∷◌, drop,
  length, ltb, ◌==◌, if◌then◌else◌,
}
use stevehft.Prelude.Int.{ℤ, abs, ◌+ℤ◌}
use stevehft.Prelude.Float.{
  Float, nought, is_pos, not_pos, lt, le, add, sub, mul, div, abs_f, max_f, decimal, of_ℕ, to_int,
}
use stevehft.Execution.Intents.{OrderSide, bid, ask, side_eq}
use stevehft.Execution.Audit.{FillRecord, OrderAuditRecord}
use stevehft.Execution.Ledger.{OrderLedger}
use stevehft.Execution.Ledger.Audits.{audits_for_symbol}

-- A pending level: its price, the sign of its side, and how many fills have been seen.
abbrev pub Pending : Type 0 → Type 0
Pending W = W × W × ℕ

pub record SweepState (W : Type 0) : Type 0 where
  pub initialized : Bool
  pub updates_seen : ℕ
  pub ewma_return_zscore : W
  pub ewma_sweep_short_ma : W
  pub ewma_sweep_long_ma : W
  pub mr_ema_fast_price : W
  pub mr_ema_slow_price : W
  pub mr_error_fast_ticks : W
  pub mr_error_medium_ticks : W
  pub mr_error_slow_ticks : W
  pub mr_reversion_quality_fast : W
  pub mr_reversion_quality_medium : W
  pub mr_reversion_quality_slow : W
  pub mr_crossed_fast : Bool
  pub mr_crossed_medium : Bool
  pub mr_crossed_slow : Bool
  pub mr_cross_direction : ℤ
  pub mr_cross_depth : ℤ
  pub mr_cross_anchor_price : W
  pub sweep_fill_price : W
  pub sweep_fill_lots : ℤ
  pub sweep_fill_side_sign : W
  pub sweep_pending_levels : List (Pending W)
  pub sweep_cross_direction : ℤ
  pub sweep_cross_depth : ℤ
  pub sweep_cross_anchor_tau_s : W
  pub sweep_cross_anchor_price : W

pub record SweepConfig (W : Type 0) : Type 0 where
  pub sweep_threshold_ticks : W
  pub sweep_min_edge_ticks : W
  pub mean_reversion_momentum_fade : W
  pub sweep_max_toxicity : W
  pub sweep_max_book_age_ms : W
  pub sweep_ladder_depth_levels : ℤ
  pub sweep_exit_threshold_ticks : W

module _ {W : Type 0} where
  -- `sum(f.executed_size for f in new_fills)`
  abbrev pub lots_of : List (FillRecord W) → ℕ
  lots_of [] = 0
  lots_of (fill ∷ fills) = fill.executed_size + lots_of fills

module _ {W : Type 0} ⦃f : Float W⦄ where
  -- `x == 0.0`
  abbrev pub is_nought : W → Bool
  is_nought x = not_pos x && le nought x

  abbrev pub match_side : W → OrderSide
  match_side sign = if is_pos sign then bid else ask

  abbrev pub notional_from : W → List (FillRecord W) → W
  notional_from acc [] = acc
  notional_from acc (fill ∷ fills) =
      notional_from (add acc (mul fill.executed_price (of_ℕ fill.executed_size))) fills

  -- The new fills of one audit go into the position of the sweep.
  abbrev pub take_fills : W → List (FillRecord W) → SweepState W → SweepState W
  take_fills sign new_fills s =
      let existing_lots = abs s.sweep_fill_lots in
      let new_lots = lots_of new_fills in
      record s {
        sweep_fill_price =
            div
              (add (mul s.sweep_fill_price (of_ℕ existing_lots)) (notional_from (of_ℕ 0) new_fills))
              (of_ℕ (existing_lots + new_lots));
        sweep_fill_lots = s.sweep_fill_lots +ℤ to_int (mul sign (of_ℕ new_lots));
        sweep_fill_side_sign =
            if is_nought s.sweep_fill_side_sign then sign else s.sweep_fill_side_sign;
      }

  -- An audit of the level's side whose order stands near the level's price.
  abbrev pub is_near : W → Pending W → OrderAuditRecord W → Bool
  is_near tick level a =
      (a.side == match_side (level.1))
      && not (lt (mul tick (decimal 15 1)) (abs_f (sub a.submit_price (level.0))))

  unfoldable pub find_near : W → Pending W → List (OrderAuditRecord W) → Option (OrderAuditRecord W)
  find_near tick level [] = none
  find_near tick level (a ∷ audits) =
      let later = find_near tick level audits in if is_near tick level a then some a else later

  -- The audit that was found: its new fills are taken, and the level says how many it has seen.
  abbrev pub see_audit : Pending W → OrderAuditRecord W → SweepState W → Pending W × SweepState W
  see_audit (price, sign, seen) a s =
      let new_fills = drop seen a.fills in
      if ltb 0 (lots_of new_fills)
      then ((price, sign, length a.fills), take_fills sign new_fills s)
      else ((price, sign, seen), s)

  -- A level that no audit is near is dropped.
  abbrev pub see_found :
      Pending W → Option (OrderAuditRecord W) → SweepState W → Option (Pending W) × SweepState W
  see_found level none s = (none, s)
  see_found level (some a) s = let (level', s') = see_audit level a s in (some level', s')

  abbrev pub keep_level : Option (Pending W) → List (Pending W) → List (Pending W)
  keep_level none levels = levels
  keep_level (some level) levels = level ∷ levels

  unfoldable pub absorb_levels :
      W
      → List (OrderAuditRecord W)
      → List (Pending W)
      → SweepState W
      → List (Pending W) × SweepState W
  unfolding find_near
  absorb_levels tick audits [] s = ([], s)
  absorb_levels tick audits (level ∷ levels) s =
      let (kept, s') = see_found level (find_near tick level audits) s in
      let (levels', s'') = absorb_levels tick audits levels s' in (keep_level kept levels', s'')

  abbrev pub with_pending : List (Pending W) × SweepState W → SweepState W
  with_pending (levels, s) = record s { sweep_pending_levels = levels }

  abbrev pub absorb_audits : W → List (OrderAuditRecord W) → SweepState W → SweepState W
  absorb_audits tick audits s =
      if ltb 0 (length s.sweep_pending_levels)
      then with_pending (absorb_levels tick audits s.sweep_pending_levels s)
      else s

  unfoldable pub absorb_sweep_fills :
      String → Option (OrderLedger W) → W → SweepState W → SweepState W
  unfolding absorb_levels
  absorb_sweep_fills symbol none tick_size s = s
  absorb_sweep_fills symbol (some l) tick_size s =
      absorb_audits (max_f tick_size (decimal 1 9)) (audits_for_symbol symbol l) s
