-- ===== src/Execution/Router/Recancel.antt =====
-- A cancellation that the broker has taken: a second one does not reach the broker.
use stevehft.Prelude.{
  ℕ, ◌≡◌, refl, ap, ◌∙◌, sym, subst, String, true, false, Option, none, some, get_elem?,
  get_elem?-set_self, get_elem?-in_range, if◌then◌else◌, string_eq,
}
use stevehft.Prelude.Dict.{lookup, lookup-insert_self}
use stevehft.Prelude.Float.{Float}
use stevehft.Execution.Orders.{WorkingOrder, OrderCommand}
use stevehft.Execution.SymbolLedger.{Ref}
use stevehft.Execution.Ledger.{OrderLedger}
use stevehft.Execution.Ledger.Store.{
  find_by_order_id, find_or_scan, remember, first_with_id, slot_objects, modify_order, write_at,
}
use stevehft.Execution.Ledger.Audits.{put_audit, ensure_audit}
use stevehft.Execution.ShiftOrders.{ShiftOrder, built, build_cancel_order}
use stevehft.Execution.Router.{Trader, OrderRouter, done}
use stevehft.Execution.Router.Bookings.{mark_cancelled}
use stevehft.Execution.Router.Actions.{send_cancel, cancel_command}

module _ {W : Type 0} where
  remember-lookup :
      (id : String) (q : Option Ref) (r : Ref) (l l' : OrderLedger W)
      → remember id q l ≡ (some r, l')
      → lookup id l'.orders_by_order_id ≡ some r
  unfolding remember
  remember-lookup id none r l l' h = absurd (cc)
  remember-lookup id (some q) r l l' h =
      ap (λ p. lookup id p.1.orders_by_order_id) (sym h)
      ∙ lookup-insert_self id q l.orders_by_order_id
      ∙ ap (λ p. p.0) h

  find_or_scan-lookup :
      (id : String) (q : Option Ref) (r : Ref) (l l' : OrderLedger W)
      → lookup id l.orders_by_order_id ≡ q
      → find_or_scan q id l ≡ (some r, l')
      → lookup id l'.orders_by_order_id ≡ some r
  unfolding find_or_scan
  find_or_scan-lookup id none r l l' e h =
      remember-lookup id (first_with_id id (slot_objects l)) r l l' h
  find_or_scan-lookup id (some q) r l l' e h =
      ap (λ p. lookup id p.1.orders_by_order_id) (sym h) ∙ e ∙ ap (λ p. p.0) h

  -- What has been found stands in `orders_by_order_id` from then on.
  found-lookup :
      (id : String) (r : Ref) (l l' : OrderLedger W)
      → find_by_order_id id l ≡ (some r, l')
      → lookup id l'.orders_by_order_id ≡ some r
  unfolding find_by_order_id
  found-lookup id r l l' e = find_or_scan-lookup id (lookup id l.orders_by_order_id) r l l' refl e

  -- A lookup that succeeds at once leaves the ledger alone.
  lookup-found :
      (id : String) (r : Ref) (l : OrderLedger W)
      → lookup id l.orders_by_order_id ≡ some r
      → find_by_order_id id l ≡ (some r, l)
  unfolding find_by_order_id find_or_scan
  lookup-found id r l e = rw e refl

module _ {W : Type 0} ⦃f : Float W⦄ where
  find-mark_cancelled :
      (id : String) (r : Ref) (l : OrderLedger W) (o : WorkingOrder W) (now : ℕ)
      → lookup id l.orders_by_order_id ≡ some r
      → find_by_order_id id (mark_cancelled r o now l) ≡ (some r, mark_cancelled r o now l)
  unfolding mark_cancelled put_audit ensure_audit modify_order
  find-mark_cancelled id r l o now e = lookup-found id r (mark_cancelled r o now l) e

  heap-mark_cancelled :
      (r : Ref) (o : WorkingOrder W) (now : ℕ) (l : OrderLedger W)
      → get_elem? l.heap r ≡ some o
      → get_elem? (mark_cancelled r o now l).heap r
        ≡ some (record o { pending_cancel = true; last_update_ts_ns = now })
  unfolding mark_cancelled put_audit ensure_audit modify_order
  heap-mark_cancelled r o now l e =
      ap
        (λ q.
          get_elem?
            (write_at l.heap r q (λ o. record o { pending_cancel = true; last_update_ts_ns = now }))
            r)
        e
      ∙ get_elem?-set_self l.heap r _ (get_elem?-in_range l.heap r o e)

module _ {T W : Type 0} ⦃f : Float W⦄ (tr : Trader T W) where
  send_cancel_accepted :
      (x : ShiftOrder W) (r : Ref) (o : WorkingOrder W) (s : OrderRouter T W) (id : String)
      (t t' : T)
      → tr.new_order x s.trader ≡ (id, t)
      → tr.submit_cancellation x id t ≡ (true, t')
      → send_cancel tr (built x) r o s ≡ (
        done,
        record s {
          trader = (tr.monotonic_ns t').1;
          order_ledger = mark_cancelled r o (tr.monotonic_ns t').0 s.order_ledger;
        },
      )
  unfolding send_cancel
  send_cancel_accepted x r o s id t t' en ea = rw (en, ea) refl

  cancel_command_accepted :
      (c : OrderCommand W) (s : OrderRouter T W) (r : Ref) (l : OrderLedger W) (o : WorkingOrder W)
      (x : ShiftOrder W) (id : String) (t t' : T)
      → find_by_order_id c.order_id s.order_ledger ≡ (some r, l)
      → get_elem? l.heap r ≡ some o
      → o.pending_cancel ≡ false
      → build_cancel_order o ≡ built x
      → tr.new_order x s.trader ≡ (id, t)
      → tr.submit_cancellation x id t ≡ (true, t')
      → cancel_command tr c s ≡ (
        done,
        record s {
          trader = (tr.monotonic_ns t').1;
          order_ledger = mark_cancelled r o (tr.monotonic_ns t').0 l;
        },
      )
  unfolding cancel_command
  cancel_command_accepted c s r l o x id t t' ef eo ep eb en ea =
      let s' = record s { order_ledger = l } in
      rw (ef, eo)
        (ap (λ b. if b then (done, s') else send_cancel tr (build_cancel_order o) r o s') ep
          ∙ ap (λ q. send_cancel tr q r o s') eb
          ∙ send_cancel_accepted x r o s' id t t' en ea)

  cancel_command_pending :
      (c : OrderCommand W) (s : OrderRouter T W) (r : Ref) (o : WorkingOrder W)
      → find_by_order_id c.order_id s.order_ledger ≡ (some r, s.order_ledger)
      → get_elem? s.order_ledger.heap r ≡ some o
      → o.pending_cancel ≡ true
      → cancel_command tr c s ≡ (done, s)
  unfolding cancel_command
  cancel_command_pending c s r o ef eo ep = rw (ef, eo, ep) refl

  -- Once the broker has taken a cancellation of an order, a second one of the same id is dropped:
  -- neither the broker nor the ledger sees it.
  pub cancel_command_twice :
      (c : OrderCommand W) (s : OrderRouter T W) (r : Ref) (l : OrderLedger W) (o : WorkingOrder W)
      (x : ShiftOrder W) (id : String) (t t' : T)
      → find_by_order_id c.order_id s.order_ledger ≡ (some r, l)
      → get_elem? l.heap r ≡ some o
      → o.pending_cancel ≡ false
      → build_cancel_order o ≡ built x
      → tr.new_order x s.trader ≡ (id, t)
      → tr.submit_cancellation x id t ≡ (true, t')
      → cancel_command tr c (cancel_command tr c s).1 ≡ (done, (cancel_command tr c s).1)
  cancel_command_twice c s r l o x id t t' ef eo ep eb en ea =
      let now = (tr.monotonic_ns t').0 in
      let after = record s {
        trader = (tr.monotonic_ns t').1;
        order_ledger = mark_cancelled r o now l;
      } in
      subst (λ q. cancel_command tr c q ≡ (done, q))
        (sym (ap (λ q. q.1) (cancel_command_accepted c s r l o x id t t' ef eo ep eb en ea)))
        (cancel_command_pending c after r
          (record o { pending_cancel = true; last_update_ts_ns = now })
          (find-mark_cancelled c.order_id r l o now (found-lookup c.order_id r s.order_ledger l ef))
          (heap-mark_cancelled r o now l eo) refl)
