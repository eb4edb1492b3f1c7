-- ===== src/Execution/SymbolLedger/Slots.antt =====
-- A slot is its side and its level: writing one leaves the others alone.
use stevehft.Prelude.{
  ℕ, zero, suc, ◌≡◌, refl, ◌&&◌, Option, none, some, arith, nat_eq, ◌==◌, if◌then◌else◌,
}
use stevehft.Prelude.Dict.{lookup, lookup-insert, lookup-erase}
use stevehft.Execution.Intents.{OrderSide, bid, ask, side_eq}
use stevehft.Execution.SymbolLedger.{Ref, SymbolOrderLedger, put_level, get_order, set_order}

lookup-put_level :
    (n m : ℕ) (order : Option Ref) (d : _)
    → lookup m (put_level n order d) ≡ (if n == m then order else lookup m d)
lookup-put_level n m none d = lookup-erase n m d
lookup-put_level n m (some r) d = lookup-insert n m r d

-- Reading a slot after a write gives what was written if it is the slot's own side and level, and
-- what was there before otherwise.
pub get_order-set_order :
    {W : Type 0} (s t : OrderSide) (n m : ℕ) (order : Option Ref) (l : SymbolOrderLedger W)
    → get_order t m (set_order s order n l)
      ≡ (if (s == t) && (n == m) then order else get_order t m l)
unfolding get_order set_order
get_order-set_order bid bid zero zero order l = refl
get_order-set_order bid bid zero (suc m) order l = ground arith
get_order-set_order bid bid (suc n) zero order l = ground arith
get_order-set_order bid bid (suc n) (suc m) order l =
    lookup-put_level (suc n) (suc m) order l.bid_level_orders
get_order-set_order bid ask zero zero order l = refl
get_order-set_order bid ask zero (suc m) order l = refl
get_order-set_order bid ask (suc n) zero order l = refl
get_order-set_order bid ask (suc n) (suc m) order l = refl
get_order-set_order ask bid zero zero order l = refl
get_order-set_order ask bid zero (suc m) order l = refl
get_order-set_order ask bid (suc n) zero order l = refl
get_order-set_order ask bid (suc n) (suc m) order l = refl
get_order-set_order ask ask zero zero order l = refl
get_order-set_order ask ask zero (suc m) order l = ground arith
get_order-set_order ask ask (suc n) zero order l = ground arith
get_order-set_order ask ask (suc n) (suc m) order l =
    lookup-put_level (suc n) (suc m) order l.ask_level_orders
