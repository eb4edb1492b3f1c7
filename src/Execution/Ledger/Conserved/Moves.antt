-- ===== src/Execution/Ledger/Conserved/Moves.antt =====
-- The methods that book nothing keep the balance.
use stevehft.Prelude.{
  ◌≡◌, ap, ◌∙◌, String, Option, none, some, List, [], ◌∷◌, string_eq, if_lem, if◌then◌else◌,
}
use stevehft.Prelude.Int.{ℤ, pos, ◌-ℤ◌, beq_ℤ}
use stevehft.Prelude.Dict.{Dict, lookup, ==_self}
use stevehft.Prelude.Float.{Float}
use stevehft.Execution.Orders.{WorkingOrder}
use stevehft.Execution.Audit.{OrderAuditRecord}
use stevehft.Execution.SymbolLedger.{Ref}
use stevehft.Execution.Ledger.{OrderLedger}
use stevehft.Execution.Ledger.Store.{
  find_by_order_id, find_or_scan, remember, first_with_id, slot_objects, modify_order,
  register_live_order, ensure_symbol, put_symbol,
}
use stevehft.Execution.Ledger.Audits.{AuditRequest, ensured, ensure_audit, audits_for_symbol}
use stevehft.Execution.Ledger.Audits.Lookup.{audit_at, audit_at-ensure_audit}
use stevehft.Execution.Ledger.Conserved.{IsConserved}
use stevehft.Execution.Ledger.Net.{
  net_loop, get_net_executed_shares, get_net_executed_lots, settle, baseline_one,
  apply_position_baseline, broker_net_shares,
}
use stevehft.Risk.Inventory.{Position}

module _ {W : Type 0} where
  -- What a step writes does not count.
  remember-IsConserved :
      (id : String) (found : Option Ref) (l : OrderLedger W)
      → IsConserved l
      → IsConserved (remember id found l).1
  unfolding remember
  remember-IsConserved id none l v = v
  remember-IsConserved id (some r) l v = record {
    audits = v.audits;
    named = v.named;
    shares = v.shares;
    trades = v.trades;
  }

  find_or_scan-IsConserved :
      (found : Option Ref) (id : String) (l : OrderLedger W)
      → IsConserved l
      → IsConserved (find_or_scan found id l).1
  unfolding find_or_scan
  find_or_scan-IsConserved none id l v =
      remember-IsConserved id (first_with_id id (slot_objects l)) l v
  find_or_scan-IsConserved (some r) id l v = v

  pub find_by_order_id-IsConserved :
      (id : String) (l : OrderLedger W) → IsConserved l → IsConserved (find_by_order_id id l).1
  unfolding find_by_order_id
  find_by_order_id-IsConserved id l v =
      find_or_scan-IsConserved (lookup id l.orders_by_order_id) id l v

  pub modify_order-IsConserved :
      (r : Ref) (change : WorkingOrder W → WorkingOrder W) (l : OrderLedger W)
      → IsConserved l
      → IsConserved (modify_order r change l)
  unfolding modify_order
  modify_order-IsConserved r change l v = record {
    audits = v.audits;
    named = v.named;
    shares = v.shares;
    trades = v.trades;
  }

  pub register_live_order-IsConserved :
      (o : WorkingOrder W) (l : OrderLedger W)
      → IsConserved l
      → IsConserved (register_live_order o (ensure_symbol o.symbol l))
  unfolding register_live_order ensure_symbol put_symbol
  register_live_order-IsConserved o l v = record {
    audits = v.audits;
    named = v.named;
    shares = v.shares;
    trades = v.trades;
  }

  net_loop-IsConserved :
      (audits : List (OrderAuditRecord W)) (net : ℤ) (l : OrderLedger W)
      → IsConserved l
      → IsConserved (net_loop net audits l).1
  unfolding net_loop
  net_loop-IsConserved [] net l v = v
  net_loop-IsConserved (a ∷ rest) net l v =
      net_loop-IsConserved rest _ (find_by_order_id a.order_id l).1
        (find_by_order_id-IsConserved a.order_id l v)

  get_net_executed_shares-IsConserved :
      (symbol : String) (l : OrderLedger W)
      → IsConserved l
      → IsConserved (get_net_executed_shares symbol l).1
  unfolding get_net_executed_shares
  get_net_executed_shares-IsConserved symbol l v =
      net_loop-IsConserved (audits_for_symbol symbol l) _ l v

  pub get_net_executed_lots-IsConserved :
      (symbol : String) (l : OrderLedger W)
      → IsConserved l
      → IsConserved (get_net_executed_lots symbol l).1
  unfolding get_net_executed_lots
  get_net_executed_lots-IsConserved symbol l v = get_net_executed_shares-IsConserved symbol l v

  settle-IsConserved :
      (offset : ℤ) (symbol : String) (l : OrderLedger W)
      → IsConserved l
      → IsConserved (settle offset symbol l)
  unfolding settle
  settle-IsConserved offset symbol l v =
      if_lem IsConserved (beq_ℤ offset (pos 0)) l _ (λ e. v)
        (λ e. record { audits = v.audits; named = v.named; shares = v.shares; trades = v.trades })

  baseline_one-IsConserved :
      (positions : Dict String (Position W)) (symbol : String) (l : OrderLedger W)
      → IsConserved l
      → IsConserved (baseline_one positions symbol l)
  unfolding baseline_one
  baseline_one-IsConserved positions symbol l v =
      let (local, l') = get_net_executed_shares symbol l in
      settle-IsConserved (broker_net_shares (lookup symbol positions) -ℤ local) symbol l'
        (get_net_executed_shares-IsConserved symbol l v)

  pub apply_position_baseline-IsConserved :
      (positions : Dict String (Position W)) (symbols : List String) (l : OrderLedger W)
      → IsConserved l
      → IsConserved (apply_position_baseline positions symbols l)
  unfolding apply_position_baseline
  apply_position_baseline-IsConserved positions [] l v = v
  apply_position_baseline-IsConserved positions (symbol ∷ rest) l v =
      apply_position_baseline-IsConserved positions rest (baseline_one positions symbol l)
        (baseline_one-IsConserved positions symbol l v)

module _ {W : Type 0} ⦃f : Float W⦄ where
  pub found_audit :
      (r : AuditRequest W) (l : OrderLedger W)
      → audit_at r.order_id (ensure_audit r l) ≡ some (ensured r l)
  found_audit r l =
      audit_at-ensure_audit r r.order_id l
      ∙ ap (λ b. if b then some (ensured r l) else audit_at r.order_id l) (==_self r.order_id)
