-- ===== src/Execution/SymbolLedger.antt =====
-- src/execution/order_state.py, `SymbolOrderLedger`: the slots of one symbol. Level 0 of a side has
-- a field of its own, further levels stand in a dictionary. A slot holds a reference to an order
-- object, which `orders_by_order_id` shares; a reference is the object's place in the ledger's heap.
pub mod Slots
use stevehft.Prelude.{
  ℕ, zero, suc, ◌≡◌, String, Bool, Option, none, some, List, [], ◌∷◌, ◌++◌, map, leb, nat_eq, ◌==◌,
  if◌then◌else◌, sort_by,
}
use stevehft.Prelude.Dict.{Dict, lookup, insert, erase, keys}
use stevehft.Execution.Intents.{OrderSide, bid, ask}
use stevehft.Execution.Orders.{QuoteTarget, is_some}

abbrev pub Ref : Type 0
Ref = ℕ

pub record SymbolOrderLedger (W : Type 0) : Type 0 where
  pub symbol : String
  pub bid_order : Option Ref
  pub ask_order : Option Ref
  pub bid_level_orders : Dict ℕ Ref
  pub ask_level_orders : Dict ℕ Ref
  pub last_target : Option (QuoteTarget W)
  pub last_decision_ts_ns : ℕ

-- `d.pop(level, None)` or `d[level] = order`
abbrev pub put_level : ℕ → Option Ref → Dict ℕ Ref → Dict ℕ Ref
put_level level none d = erase level d
put_level level (some r) d = insert level r d

-- The level 0 slot in front of the others.
abbrev pub and_then : Option Ref → List Ref → List Ref
and_then none rs = rs
and_then (some r) rs = r ∷ rs

abbrev pub level_refs : Dict ℕ Ref → List Ref
level_refs d = map (λ p. p.1) (sort_by (λ p. p.0) d)

-- `indexes.add(0)`, unless it is there.
abbrev pub with_level_zero : Option Ref → List ℕ → List ℕ
with_level_zero none levels = levels
with_level_zero (some r) levels = 0 ∷ levels

module _ {W : Type 0} where
  unfoldable pub fresh : String → SymbolOrderLedger W
  fresh symbol = record {
    symbol = symbol;
    bid_order = none;
    ask_order = none;
    bid_level_orders = [];
    ask_level_orders = [];
    last_target = none;
    last_decision_ts_ns = 0;
  }

  unfoldable pub get_order : OrderSide → ℕ → SymbolOrderLedger W → Option Ref
  get_order bid zero l = l.bid_order
  get_order bid (suc n) l = lookup (suc n) l.bid_level_orders
  get_order ask zero l = l.ask_order
  get_order ask (suc n) l = lookup (suc n) l.ask_level_orders

  unfoldable pub set_order : OrderSide → Option Ref → ℕ → SymbolOrderLedger W → SymbolOrderLedger W
  set_order bid order zero l = record l { bid_order = order }
  set_order bid order (suc n) l = record l {
    bid_level_orders = put_level (suc n) order l.bid_level_orders;
  }
  set_order ask order zero l = record l { ask_order = order }
  set_order ask order (suc n) l = record l {
    ask_level_orders = put_level (suc n) order l.ask_level_orders;
  }

  -- `tuple(sorted(indexes))`. The dictionaries have no key 0 (`set_order`), so 0 is added at most
  -- once.
  unfoldable pub side_level_indexes : OrderSide → SymbolOrderLedger W → List ℕ
  side_level_indexes bid l =
      sort_by (λ n. n) (with_level_zero l.bid_order (keys l.bid_level_orders))
  side_level_indexes ask l =
      sort_by (λ n. n) (with_level_zero l.ask_order (keys l.ask_level_orders))

  unfoldable pub all_orders : SymbolOrderLedger W → List Ref
  all_orders l =
      and_then l.bid_order (level_refs l.bid_level_orders)
      ++ and_then l.ask_order (level_refs l.ask_level_orders)
