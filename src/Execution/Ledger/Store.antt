-- ===== src/Execution/Ledger/Store.antt =====
-- src/execution/order_state.py: finding, registering and writing order objects.
use stevehft.Prelude.{
  String, Option, none, some, List, [], ◌∷◌, ◌++◌, length, set, get_elem?, string_eq, ◌==◌,
  if◌then◌else◌,
}
use stevehft.Prelude.Dict.{Dict, lookup, insert}
use stevehft.Execution.Orders.{WorkingOrder}
use stevehft.Execution.SymbolLedger.{Ref, SymbolOrderLedger, fresh, set_order, all_orders}
use stevehft.Execution.Ledger.{OrderLedger}

-- An object with the reference by which it is written.
abbrev pub Object : Type 0 → Type 0
Object W = Ref × WorkingOrder W

module _ {W : Type 0} where
  -- The objects of some references, in order. There are no dangling ones (`IsStored`).
  abbrev pub resolve_one : Ref → Option (WorkingOrder W) → List (Object W) → List (Object W)
  resolve_one r none rest = rest
  resolve_one r (some o) rest = (r, o) ∷ rest

  unfoldable pub resolve : List (WorkingOrder W) → List Ref → List (Object W)
  resolve heap [] = []
  resolve heap (r ∷ rs) = resolve_one r (get_elem? heap r) (resolve heap rs)

  unfoldable pub slot_refs : Dict String (SymbolOrderLedger W) → List Ref
  slot_refs [] = []
  slot_refs ((symbol, s) ∷ rest) = all_orders s ++ slot_refs rest

  -- The objects in the slots, symbol by symbol.
  unfoldable pub slot_objects : OrderLedger W → List (Object W)
  unfolding resolve slot_refs
  slot_objects l = resolve l.heap (slot_refs l.by_symbol)

  abbrev pub or_fresh : String → Option (SymbolOrderLedger W) → SymbolOrderLedger W
  or_fresh symbol none = fresh symbol
  or_fresh symbol (some s) = s

  -- What `ensure_symbol` returns, and the ledger after it.
  unfoldable pub symbol_ledger : String → OrderLedger W → SymbolOrderLedger W
  unfolding fresh
  symbol_ledger symbol l = or_fresh symbol (lookup symbol l.by_symbol)

  unfoldable pub put_symbol : String → SymbolOrderLedger W → OrderLedger W → OrderLedger W
  put_symbol symbol s l = record l { by_symbol = insert symbol s l.by_symbol }

  unfoldable pub ensure_symbol : String → OrderLedger W → OrderLedger W
  unfolding symbol_ledger put_symbol
  ensure_symbol symbol l = put_symbol symbol (symbol_ledger symbol l) l

  unfoldable pub first_with_id : String → List (Object W) → Option Ref
  first_with_id order_id [] = none
  first_with_id order_id ((r, o) ∷ rest) =
      if o.order_id == order_id then some r else first_with_id order_id rest

  unfoldable pub remember : String → Option Ref → OrderLedger W → Option Ref × OrderLedger W
  remember order_id none l = (none, l)
  remember order_id (some r) l =
      (some r, record l { orders_by_order_id = insert order_id r l.orders_by_order_id })

  unfoldable pub find_or_scan : Option Ref → String → OrderLedger W → Option Ref × OrderLedger W
  find_or_scan (some r) order_id l = (some r, l)
  find_or_scan none order_id l = remember order_id (first_with_id order_id (slot_objects l)) l

  -- A hit in a slot only is put into `orders_by_order_id` on the way.
  unfoldable pub find_by_order_id : String → OrderLedger W → Option Ref × OrderLedger W
  unfolding find_or_scan
  find_by_order_id order_id l = find_or_scan (lookup order_id l.orders_by_order_id) order_id l

  -- `register_live_order` of an object that its caller has just made.
  unfoldable pub register_live_order : WorkingOrder W → OrderLedger W → OrderLedger W
  unfolding symbol_ledger
  register_live_order o l = record l {
    heap = l.heap ++ (o ∷ []);
    by_symbol =
        insert o.symbol
          (set_order o.side (some (length l.heap)) o.level_index (symbol_ledger o.symbol l))
          l.by_symbol;
    orders_by_order_id = insert o.order_id (length l.heap) l.orders_by_order_id;
  }

  abbrev pub write_at :
      List (WorkingOrder W)
      → Ref
      → Option (WorkingOrder W)
      → (WorkingOrder W → WorkingOrder W)
      → List (WorkingOrder W)
  write_at heap r none change = heap
  write_at heap r (some o) change = set heap r (change o)

  -- Assignments to fields of an order object: every reference to it sees them.
  unfoldable pub modify_order :
      Ref → (WorkingOrder W → WorkingOrder W) → OrderLedger W → OrderLedger W
  modify_order r change l = record l { heap = write_at l.heap r (get_elem? l.heap r) change }
