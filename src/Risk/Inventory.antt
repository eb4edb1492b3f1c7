-- ===== src/Risk/Inventory.antt =====
-- src/risk/inventory.py: the positions that the broker reports. Share counts are naturals, the net
-- position is an integer.
use stevehft.Prelude.{
  ℕ, String, Bool, ◌&&◌, ◌||◌, Option, none, some, List, [], ◌∷◌, ltb, leb, any, ◌==◌, string_eq,
  if◌then◌else◌,
}
use stevehft.Prelude.Int.{ℤ, pos, ◌-ℤ◌, trunc_div, beq_ℤ, int_eq}
use stevehft.Prelude.Dict.{Dict, lookup, insert, values}
use stevehft.Prelude.Float.{Float, sum_from, nought, is_pos, not_pos, mul, le, abs_f, of_ℕ, decimal}

pub record Position (W : Type 0) : Type 0 where
  pub symbol : String
  pub long_shares : ℕ
  pub short_shares : ℕ
  pub long_price : W
  pub short_price : W
  pub realized_pl : W
  pub last_update_ts_ns : ℕ

pub record PortfolioSummaryState (W : Type 0) : Type 0 where
  pub total_bp : W
  pub total_shares : ℕ
  pub total_realized_pl : W
  pub last_update_ts_ns : ℕ

pub record PortfolioLedger (W : Type 0) : Type 0 where
  pub positions : Dict String (Position W)
  pub summary : PortfolioSummaryState W

module _ {W : Type 0} where
  unfoldable pub net_shares : Position W → ℤ
  net_shares p = pos p.long_shares -ℤ pos p.short_shares

  -- `int(net_shares / 100)`, which is exact below 2 ^ 53 shares.
  unfoldable pub net_lots : Position W → ℤ
  unfolding net_shares
  net_lots p = trunc_div (net_shares p) 100

  abbrev net_lots_of : Option (Position W) → ℤ
  net_lots_of none = pos 0
  net_lots_of (some p) = net_lots p

  unfoldable pub get_net_lots : String → PortfolioLedger W → ℤ
  unfolding net_lots
  get_net_lots symbol l = net_lots_of (lookup symbol l.positions)

module _ {W : Type 0} ⦃f : Float W⦄ where
  unfoldable pub short_close_buying_power : Position W → W
  short_close_buying_power p =
      if leb p.short_shares 0 || not_pos p.short_price
      then nought
      else mul (of_ℕ p.short_shares) p.short_price

  -- The price of the position's own side, or the mark if that is not known.
  abbrev reference_price : W → W → W
  reference_price own mark_price = if is_pos own then own else mark_price

  unfoldable pub forced_close_penalty : W → Position W → W
  forced_close_penalty mark_price p =
      if ltb 0 p.long_shares
      then mul (mul (of_ℕ p.long_shares) (reference_price p.long_price mark_price)) (decimal 1 2)
      else if ltb 0 p.short_shares
      then mul (mul (of_ℕ p.short_shares) (reference_price p.short_price mark_price)) (decimal 1 2)
      else nought

  abbrev penalty_of : W → Option (Position W) → W
  penalty_of mark_price none = nought
  penalty_of mark_price (some p) = forced_close_penalty mark_price p

  unfoldable pub estimate_forced_close_penalty : String → W → PortfolioLedger W → W
  unfolding forced_close_penalty
  estimate_forced_close_penalty symbol mark_price l =
      penalty_of mark_price (lookup symbol l.positions)

  abbrev close_powers : List (Position W) → List W
  close_powers [] = []
  close_powers (p ∷ ps) = short_close_buying_power p ∷ close_powers ps

  unfoldable pub estimated_short_close_buying_power : PortfolioLedger W → W
  unfolding short_close_buying_power
  estimated_short_close_buying_power l = sum_from (of_ℕ 0) (close_powers (values l.positions))

  unfoldable pub update_position : Position W → PortfolioLedger W → PortfolioLedger W
  update_position p l = record l { positions = insert p.symbol p l.positions }

  -- What the broker no longer reports is flat; the realised profit stays.
  unfoldable pub cleared : ℕ → String → Position W → Position W
  cleared ts_ns symbol p = record {
    symbol = symbol;
    long_shares = 0;
    short_shares = 0;
    long_price = nought;
    short_price = nought;
    realized_pl = p.realized_pl;
    last_update_ts_ns = ts_ns;
  }

  -- The positions that `clear_missing_positions` passes over: reported, or flat with no profit.
  unfoldable pub is_kept : List String → String → Position W → Bool
  unfolding net_shares
  is_kept active_symbols symbol p =
      any (λ s. s == symbol) active_symbols
      || (beq_ℤ (net_shares p) (pos 0) && le (abs_f p.realized_pl) (decimal 1 12))

  -- The loop over a copy of the items, which overwrites entries in place.
  unfoldable pub clear_missing_loop :
      List String
      → ℕ
      → Dict String (Position W)
      → Dict String (Position W)
      → Dict String (Position W)
  unfolding is_kept cleared
  clear_missing_loop active_symbols ts_ns [] positions = positions
  clear_missing_loop active_symbols ts_ns ((symbol, p) ∷ rest) positions =
      clear_missing_loop active_symbols ts_ns rest (
        if is_kept active_symbols symbol p
        then positions
        else insert symbol (cleared ts_ns symbol p) positions)

  unfoldable pub clear_missing_positions : List String → ℕ → PortfolioLedger W → PortfolioLedger W
  unfolding clear_missing_loop
  clear_missing_positions active_symbols ts_ns l = record l {
    positions = clear_missing_loop active_symbols ts_ns l.positions l.positions;
  }
