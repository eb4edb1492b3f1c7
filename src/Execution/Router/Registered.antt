-- ===== src/Execution/Router/Registered.antt =====
-- The ledger after the router has written down an order, and the repeats that it therefore drops.
use stevehft.Prelude.{
  ℕ, ◌≡◌, refl, ap, ◌∙◌, String, true, some, get_elem?, get_elem?-append_last, string_eq, ◌==◌,
  if◌then◌else◌, ◌&&◌, length, nat_eq,
}
use stevehft.Prelude.Dict.{lookup-insert_self, ==_self}
use stevehft.Prelude.Float.{Float}
use stevehft.Execution.Intents.{OrderSide, OrderLiquidity, side_eq}
use stevehft.Execution.Audit.{OrderAuditRecord}
use stevehft.Execution.Orders.{WorkingOrder, OrderCommand}
use stevehft.Execution.SymbolLedger.{SymbolOrderLedger, get_order, set_order}
use stevehft.Execution.SymbolLedger.Slots.{get_order-set_order}
use stevehft.Execution.Ledger.{OrderLedger}
use stevehft.Execution.Ledger.Store.{
  symbol_ledger, register_live_order, find_by_order_id, find_or_scan,
}
use stevehft.Execution.Ledger.Audits.{ensure_audit, put_audit}
use stevehft.Execution.Ledger.Audits.Lookup.{audit_at}
use stevehft.Execution.Router.{object_at, slot_of, slot_order}
use stevehft.Execution.Router.Bookings.{register, new_working_order}

module _ {W : Type 0} where
  get_order-set_order_self :
      (side : OrderSide) (n r : ℕ) (l : SymbolOrderLedger W)
      → get_order side n (set_order side (some r) n l) ≡ some r
  get_order-set_order_self side n r l =
      get_order-set_order side side n n (some r) l
      ∙ ap (λ b. if b then some r else get_order side n l) same
    where
      same : (side == side) && (n == n) ≡ true
      same = rw (==_self side, ==_self n) refl

  pub slot_order-alike :
      (c d : OrderCommand W) (l : OrderLedger W)
      → d.symbol ≡ c.symbol
      → d.side ≡ c.side
      → d.level_index ≡ c.level_index
      → slot_order d l ≡ slot_order c l
  unfolding slot_order
  slot_order-alike c d l es ed en = rw (es, ed, en) refl

  slot_of-found :
      (c : OrderCommand W) (s : SymbolOrderLedger W) (l : OrderLedger W) (r : ℕ)
      (o : WorkingOrder W)
      → get_order c.side c.level_index s ≡ some r
      → get_elem? l.heap r ≡ some o
      → slot_of c (some s) l ≡ some o
  slot_of-found c s l r o e h = ap (λ q. object_at q l) e ∙ h

module _ {W : Type 0} ⦃f : Float W⦄ (c : OrderCommand W) (price : W) (liquidity : OrderLiquidity)
    (status id : String) (now : ℕ) (l : OrderLedger W) where
  slot_order-register :
      slot_order c (register c price liquidity status id now l)
      ≡ some (new_working_order c price liquidity status id now)
  unfolding slot_order register register_live_order ensure_audit put_audit new_working_order
  slot_order-register =
      let s = set_order c.side (some (length l.heap)) c.level_index (symbol_ledger c.symbol l) in
      let after = register c price liquidity status id now l in
      ap (λ q. slot_of c q after) (lookup-insert_self c.symbol s l.by_symbol)
      ∙ slot_of-found c s after (length l.heap) _
          (get_order-set_order_self c.side c.level_index (length l.heap) (symbol_ledger c.symbol l))
          (get_elem?-append_last l.heap (new_working_order c price liquidity status id now))

  find-register :
      find_by_order_id id (register c price liquidity status id now l)
      ≡ (some (length l.heap), register c price liquidity status id now l)
  unfolding find_by_order_id register register_live_order ensure_audit put_audit new_working_order
  find-register =
      let after = register c price liquidity status id now l in
      ap (λ q. find_or_scan q id after) (lookup-insert_self id (length l.heap) l.orders_by_order_id)

  -- After an order is written down, its slot holds the new order, its id is found and leads to that
  -- same object, and its audit record has the order's status and time.
  pub register_lem :
      (slot_order c (register c price liquidity status id now l)
        ≡ some (new_working_order c price liquidity status id now))
      × (find_by_order_id id (register c price liquidity status id now l)
          ≡ (some (length l.heap), register c price liquidity status id now l))
      × (get_elem? (register c price liquidity status id now l).heap (length l.heap)
          ≡ some (new_working_order c price liquidity status id now))
      × ((a : OrderAuditRecord W) × (audit_at id (register c price liquidity status id now l)
            ≡ some a)
          × (a.current_status ≡ status)
          × (a.last_update_ts_ns ≡ now))
  unfolding register register_live_order put_audit ensure_audit new_working_order
  register_lem = (
    slot_order-register,
    find-register,
    get_elem?-append_last l.heap (new_working_order c price liquidity status id now),
    (_, lookup-insert_self id _ _, refl, refl),
  )
