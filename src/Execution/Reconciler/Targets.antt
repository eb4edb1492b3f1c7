-- ===== src/Execution/Reconciler/Targets.antt =====
-- src/execution/reconciler.py, `build_reconciliation_actions`: the commands for a list of targets, slot
-- by slot. The slots' orders are objects of the ledger, which a decision may write to.
pub mod Once
use stevehft.Prelude.{
  ℕ, String, Bool, true, false, not, Option, none, some, List, [], ◌∷◌, ◌++◌, map, any, sort_by,
  nat_eq, string_eq, ◌==◌, if◌then◌else◌,
}
use stevehft.Prelude.Float.{Float}
use stevehft.Execution.Intents.{OrderSide, bid, ask}
use stevehft.Execution.Orders.{QuoteTarget, WorkingOrder, OrderCommand, side_levels}
use stevehft.Execution.SymbolLedger.{Ref, get_order, side_level_indexes}
use stevehft.Execution.Ledger.{OrderLedger}
use stevehft.Execution.Ledger.Store.{symbol_ledger, put_symbol, modify_order}
use stevehft.Execution.Ledger.Audits.{add_member}
use stevehft.Execution.Router.{object_at}
use stevehft.Execution.Reconciler.{ReconciliationConfig}
use stevehft.Execution.Reconciler.Decisions.{reconcile_side}

-- The members of a list, each once.
unfoldable pub members : List ℕ → List ℕ
members [] = []
members (n ∷ ns) = let rest = members ns in if any (λ m. m == n) rest then rest else n ∷ rest

-- `{0}` in flatten mode
abbrev pub zero_level : Bool → List ℕ
zero_level true = 0 ∷ []
zero_level false = []

module _ {W : Type 0} where
  -- `sorted(target_level_indexes | live_level_indexes)`
  unfoldable pub level_indexes : QuoteTarget W → OrderSide → OrderLedger W → List ℕ
  level_indexes target side l =
      sort_by (λ n. n)
        (members (
          map (λ level. level.level_index) (side_levels target side)
          ++ side_level_indexes side (symbol_ledger target.symbol l)
          ++ zero_level target.flatten_mode))

  abbrev pub write_back : Option Ref → Option (WorkingOrder W) → OrderLedger W → OrderLedger W
  write_back (some r) (some o) l = modify_order r (λ before. o) l
  write_back r order l = l

  abbrev pub with_command : Option (OrderCommand W) → List (OrderCommand W) → List (OrderCommand W)
  with_command none cs = cs
  with_command (some c) cs = c ∷ cs

module _ {W : Type 0} ⦃f : Float W⦄ where
  unfoldable pub reconcile_slot :
      ReconciliationConfig W
      → QuoteTarget W
      → OrderSide
      → ℕ
      → ℕ
      → OrderLedger W
      → Option (OrderCommand W) × OrderLedger W
  reconcile_slot c target side now_ns n l =
      let r = get_order side n (symbol_ledger target.symbol l) in
      let (command, order) = reconcile_side c target side n (object_at r l) now_ns in
      (command, write_back r order l)

  unfoldable pub reconcile_levels :
      ReconciliationConfig W
      → QuoteTarget W
      → OrderSide
      → ℕ
      → List ℕ
      → OrderLedger W
      → List (OrderCommand W) × OrderLedger W
  reconcile_levels c target side now_ns [] l = ([], l)
  reconcile_levels c target side now_ns (n ∷ ns) l =
      let (command, l) = reconcile_slot c target side now_ns n l in
      let (commands, l) = reconcile_levels c target side now_ns ns l in
      (with_command command commands, l)

  unfoldable pub reconcile_side_levels :
      ReconciliationConfig W
      → QuoteTarget W
      → OrderSide
      → ℕ
      → OrderLedger W
      → List (OrderCommand W) × OrderLedger W
  reconcile_side_levels c target side now_ns l =
      reconcile_levels c target side now_ns (level_indexes target side l) l

  -- The symbol's ledger is made if it is missing, and remembers the target.
  unfoldable pub note_target : QuoteTarget W → ℕ → OrderLedger W → OrderLedger W
  note_target target ts_ns l =
      put_symbol target.symbol
        (record (symbol_ledger target.symbol l) {
          last_target = some target;
          last_decision_ts_ns = ts_ns;
        })
        l

  unfoldable pub reconcile_target :
      ReconciliationConfig W
      → ℕ
      → QuoteTarget W
      → OrderLedger W
      → List (OrderCommand W) × OrderLedger W
  reconcile_target c ts_ns target l =
      let (bids, l) = reconcile_side_levels c target bid ts_ns (note_target target ts_ns l) in
      let (asks, l) = reconcile_side_levels c target ask ts_ns l in (bids ++ asks, l)

  -- A symbol is dirty once there is a command for it.
  abbrev pub mark_dirty : String → List (OrderCommand W) → List String → List String
  mark_dirty symbol [] dirty = dirty
  mark_dirty symbol (c ∷ cs) dirty = add_member symbol dirty

  unfoldable pub build_loop :
      ReconciliationConfig W
      → ℕ
      → List (QuoteTarget W)
      → List (OrderCommand W)
      → List String
      → OrderLedger W
      → (List (OrderCommand W) × List String) × OrderLedger W
  build_loop c ts_ns [] commands dirty l = ((commands, dirty), l)
  build_loop c ts_ns (target ∷ targets) commands dirty l =
      let (made, l) = reconcile_target c ts_ns target l in
      build_loop c ts_ns targets (commands ++ made) (mark_dirty target.symbol made dirty) l

  unfoldable pub build_reconciliation_actions :
      ReconciliationConfig W
      → List (QuoteTarget W)
      → ℕ
      → OrderLedger W
      → (List (OrderCommand W) × List String) × OrderLedger W
  build_reconciliation_actions c targets ts_ns l = build_loop c ts_ns targets [] [] l
