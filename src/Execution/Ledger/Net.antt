-- ===== src/Execution/Ledger/Net.antt =====
-- src/execution/order_state.py: the net position that the ledger has executed, and the baseline that
-- moves it to what the broker reports.
pub mod Lookups
pub mod Baseline
use stevehft.Prelude.{
  ℕ, ◌*◌, max, String, Option, none, some, List, [], ◌∷◌, get_elem?, string_eq, ◌==◌, if◌then◌else◌,
}
use stevehft.Prelude.Int.{ℤ, pos, ◌+ℤ◌, ◌-ℤ◌, trunc_div, beq_ℤ, int_eq}
use stevehft.Prelude.Dict.{Dict, lookup, get_or}
use stevehft.Execution.Lots.{lot_size_shares}
use stevehft.Execution.Orders.{WorkingOrder, executed_lots}
use stevehft.Execution.Audit.{OrderAuditRecord, cumulative_executed_shares}
use stevehft.Execution.SymbolLedger.{Ref}
use stevehft.Execution.Ledger.{OrderLedger}
use stevehft.Execution.Ledger.Store.{find_by_order_id}
use stevehft.Execution.Ledger.Audits.{audits_for_symbol}
use stevehft.Execution.Ledger.Archive.{signed, bump_ℤ}
use stevehft.Risk.Inventory.{Position, net_shares}

module _ {W : Type 0} where
  abbrev pub order_of : Option Ref → OrderLedger W → Option (WorkingOrder W)
  order_of none l = none
  order_of (some r) l = get_elem? l.heap r

  -- What the order object itself shows as executed, if it is of the audit's symbol.
  abbrev pub visible_shares : String → Option (WorkingOrder W) → ℕ
  visible_shares symbol none = 0
  visible_shares symbol (some o) =
      if o.symbol == symbol then executed_lots o * lot_size_shares else 0

  unfoldable pub audit_shares : OrderAuditRecord W → Option (WorkingOrder W) → ℤ
  unfolding cumulative_executed_shares executed_lots
  audit_shares a o = signed a.side (max (cumulative_executed_shares a) (visible_shares a.symbol o))

  -- The loop over the symbol's audits: looking an order up may add it to `orders_by_order_id`.
  unfoldable pub net_loop : ℤ → List (OrderAuditRecord W) → OrderLedger W → ℤ × OrderLedger W
  net_loop net [] l = (net, l)
  net_loop net (a ∷ rest) l =
      let (found, l') = find_by_order_id a.order_id l in
      net_loop (net +ℤ audit_shares a (order_of found l')) rest l'

  unfoldable pub get_net_executed_shares : String → OrderLedger W → ℤ × OrderLedger W
  unfolding net_loop audits_for_symbol
  get_net_executed_shares symbol l =
      net_loop (get_or (lookup symbol l.archived_net_executed_shares_by_symbol) (pos 0))
        (audits_for_symbol symbol l) l

  -- `int(shares / LOT_SIZE_SHARES)`
  unfoldable pub get_net_executed_lots : String → OrderLedger W → ℤ × OrderLedger W
  unfolding get_net_executed_shares
  get_net_executed_lots symbol l =
      let (shares, l') = get_net_executed_shares symbol l in (trunc_div shares lot_size_shares, l')

  abbrev pub broker_net_shares : Option (Position W) → ℤ
  broker_net_shares none = pos 0
  broker_net_shares (some p) = net_shares p

  -- An offset of 0 writes nothing.
  unfoldable pub settle : ℤ → String → OrderLedger W → OrderLedger W
  unfolding bump_ℤ
  settle offset symbol l = if beq_ℤ offset (pos 0) then l else record l {
    archived_net_executed_shares_by_symbol =
        bump_ℤ symbol offset l.archived_net_executed_shares_by_symbol;
  }

  -- One round of `apply_position_baseline`.
  unfoldable pub baseline_one : Dict String (Position W) → String → OrderLedger W → OrderLedger W
  unfolding get_net_executed_shares settle
  baseline_one broker_positions symbol l =
      let (local, l') = get_net_executed_shares symbol l in
      settle (broker_net_shares (lookup symbol broker_positions) -ℤ local) symbol l'

  -- `apply_position_baseline` for the given symbols.
  unfoldable pub apply_position_baseline :
      Dict String (Position W) → List String → OrderLedger W → OrderLedger W
  unfolding baseline_one
  apply_position_baseline broker_positions [] l = l
  apply_position_baseline broker_positions (symbol ∷ rest) l =
      apply_position_baseline broker_positions rest (baseline_one broker_positions symbol l)
