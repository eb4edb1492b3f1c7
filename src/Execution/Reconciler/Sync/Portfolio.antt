-- ===== src/Execution/Reconciler/Sync/Portfolio.antt =====
-- src/execution/reconciler.py, `_sync_portfolio`: the positions and the summary are the broker's.
use stevehft.Prelude.{ℕ, String, Bool, true, false, Option, none, some, List, [], ◌∷◌}
use stevehft.Prelude.Dict.{keys}
use stevehft.Prelude.Float.{Float}
use stevehft.Risk.Inventory.{Position, PortfolioLedger, update_position, clear_missing_positions}
use stevehft.Execution.Reconciler.Sync.{Broker, RawItem, RawSummary}

module _ {W : Type 0} ⦃f : Float W⦄ where
  unfoldable pub position_of : String → RawItem W → ℕ → Position W
  position_of symbol item now_ns = record {
    symbol = symbol;
    long_shares = item.long_shares;
    short_shares = item.short_shares;
    long_price = item.long_price;
    short_price = item.short_price;
    realized_pl = item.realized_pl;
    last_update_ts_ns = now_ns;
  }

  unfoldable pub update_items :
      List (String × RawItem W) → ℕ → PortfolioLedger W → PortfolioLedger W
  update_items [] now_ns p = p
  update_items ((symbol, item) ∷ rest) now_ns p =
      update_items rest now_ns (update_position (position_of symbol item now_ns) p)

  -- Whether the summary came, and the ledger afterwards.
  abbrev pub take_summary : Option (RawSummary W) → ℕ → PortfolioLedger W → Bool × PortfolioLedger W
  take_summary none now_ns p = (false, p)
  take_summary (some s) now_ns p = (
    true,
    record p {
      summary = record {
        total_bp = s.total_bp;
        total_shares = s.total_shares;
        total_realized_pl = s.total_realized_pl;
        last_update_ts_ns = now_ns;
      };
    },
  )

module _ {T W : Type 0} ⦃f : Float W⦄ (broker : Broker T W) where
  abbrev take_items :
      Option (List (String × RawItem W))
      → ℕ
      → PortfolioLedger W
      → T
      → (Bool × PortfolioLedger W) × T
  take_items none now_ns p t = ((false, p), t)
  take_items (some items) now_ns p t =
      let p = clear_missing_positions (keys items) now_ns (update_items items now_ns p) in
      let (summary, t) = broker.get_portfolio_summary t in (take_summary summary now_ns p, t)

  -- `false` stands for an exception; the positions are written before the summary is asked for.
  unfoldable pub sync_portfolio : ℕ → PortfolioLedger W → T → (Bool × PortfolioLedger W) × T
  sync_portfolio now_ns p t =
      let (items, t) = broker.get_portfolio_items t in take_items items now_ns p t
