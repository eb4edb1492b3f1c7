-- ===== src/Execution/Ledger/Live.antt =====
-- src/execution/order_state.py, `live_orders`: the orders that can still trade, each once.
pub mod Complete
use stevehft.Prelude.{
  ℕ, ◌+◌, String, Bool, true, not, ◌&&◌, ◌||◌, Option, none, some, List, [], ◌∷◌, ◌++◌, map, any,
  select, nat_eq, string_eq, ◌==◌, if◌then◌else◌,
}
use stevehft.Prelude.Dict.{values}
use stevehft.Prelude.Float.{Float, add, of_ℕ}
use stevehft.Execution.Intents.{OrderSide, side_eq}
use stevehft.Execution.Orders.{
  WorkingOrder, is_live, remaining_size, estimated_reserved_buying_power,
}
use stevehft.Execution.Ledger.{OrderLedger}
use stevehft.Execution.Ledger.Store.{Object, resolve, slot_objects}

abbrev pub fits_symbol : Option String → String → Bool
fits_symbol none s = true
fits_symbol (some symbol) s = s == symbol

abbrev pub fits_side : Option OrderSide → OrderSide → Bool
fits_side none s = true
fits_side (some side) s = s == side

module _ {W : Type 0} where
  unfoldable pub is_wanted : Option String → Option OrderSide → Object W → Bool
  unfolding is_live
  is_wanted symbol side (r, o) = is_live o && fits_symbol symbol o.symbol && fits_side side o.side

  unfoldable pub has_ref : List (Object W) → Object W → Bool
  has_ref seen (r, o) = any (λ s. s.0 == r) seen

  unfoldable pub has_id : List (Object W) → String → Bool
  has_id seen order_id = any (λ s. s.1.order_id == order_id) seen

  -- The second loop, over the slots. The sets of object and order ids that it keeps are those of the
  -- list that it builds.
  unfoldable pub live_loop :
      Option String → Option OrderSide → List (Object W) → List (Object W) → List (Object W)
  unfolding is_wanted has_ref has_id
  live_loop symbol side live [] = live
  live_loop symbol side live ((r, o) ∷ rest) =
      live_loop symbol side
        (if not (is_wanted symbol side (r, o)) || has_ref live (r, o) || has_id live o.order_id
          then live
          else live ++ ((r, o) ∷ []))
        rest

  unfoldable pub live_objects : Option String → Option OrderSide → OrderLedger W → List (Object W)
  unfolding live_loop resolve slot_objects
  live_objects symbol side l =
      live_loop symbol side
        (select (is_wanted symbol side) (resolve l.heap (values l.orders_by_order_id)))
        (slot_objects l)

  unfoldable pub live_orders :
      Option String → Option OrderSide → OrderLedger W → List (WorkingOrder W)
  unfolding live_objects
  live_orders symbol side l = map (λ o. o.1) (live_objects symbol side l)

  abbrev pub sum_sizes : List (WorkingOrder W) → ℕ
  sum_sizes [] = 0
  sum_sizes (o ∷ os) = remaining_size o + sum_sizes os

module _ {W : Type 0} ⦃f : Float W⦄ where
  abbrev pub sum_powers : W → List (WorkingOrder W) → W
  sum_powers acc [] = acc
  sum_powers acc (o ∷ os) = sum_powers (add acc (estimated_reserved_buying_power o)) os

  -- The property of the ledger that sums the property of its live orders.
  unfoldable pub reserved_buying_power : OrderLedger W → W
  unfolding live_orders
  reserved_buying_power l = sum_powers (of_ℕ 0) (live_orders none none l)
