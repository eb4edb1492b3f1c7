-- ===== src/Execution/Reconciler/Poll/Balance.antt =====
-- A poll keeps the session's totals those of the audits and the archive.
use stevehft.Prelude.{
  ℕ, ◌≡◌, refl, String, not, ◌||◌, Option, none, some, List, [], ◌∷◌, any, string_eq, ◌==◌, if_lem,
  length,
}
use stevehft.Prelude.Int.{ℤ}
use stevehft.Prelude.Dict.{lookup, keys, values}
use stevehft.Prelude.Float.{Float}
use stevehft.Execution.Intents.{OrderSide, OrderLiquidity}
use stevehft.Execution.Orders.{WorkingOrder, is_live}
use stevehft.Execution.Audit.{OrderAuditRecord}
use stevehft.Execution.SymbolLedger.{Ref}
use stevehft.Execution.Ledger.{OrderLedger}
use stevehft.Execution.Ledger.Store.{find_by_order_id}
use stevehft.Execution.Ledger.Audits.{AuditRequest, ensured, ensure_audit, request}
use stevehft.Execution.Ledger.Audits.Lookup.{audit_at}
use stevehft.Execution.Ledger.Fills.{Formats, append_fill}
use stevehft.Execution.Ledger.Conserved.{
  IsConserved, put_audit-IsConserved, ensure_audit-IsConserved, append_fill-IsConserved,
}
use stevehft.Execution.Ledger.Conserved.Moves.{
  find_by_order_id-IsConserved, modify_order-IsConserved, register_live_order-IsConserved,
  found_audit,
}
use stevehft.Execution.Router.{object_at}
use stevehft.Execution.Reconciler.{ReconciliationConfig}
use stevehft.Execution.Reconciler.Sync.{RawOrder, RawFill, Broker, infer_side, infer_liquidity}
use stevehft.Execution.Reconciler.Sync.Waiting.{
  Seen, order_seen_live, order_gone, note_status, update_or_register, see_order, parsed, see_one,
  see_all, in_grace, retire_object, retire_missing, sync_waiting_orders,
}
use stevehft.Execution.Reconciler.Sync.Executions.{
  Booked, execution_slice, is_settled, fill_of, book_parsed, book_raw, book_slice, count_executions,
  book_executions, sync_audit, sync_loop, sync_executions,
}

module _ {W : Type 0} ⦃f : Float W⦄ where
  note_status-IsConserved :
      (r : AuditRequest W) (status : String) (now_ns : ℕ) (l : OrderLedger W)
      → IsConserved l
      → IsConserved (note_status r status now_ns l)
  unfolding note_status
  note_status-IsConserved r status now_ns l v =
      put_audit-IsConserved r.order_id (ensured r l) _ (ensure_audit r l)
        (ensure_audit-IsConserved r l v) (found_audit r l) (refl, refl, refl)

  update_or_register-IsConserved :
      (raw : RawOrder W) (side : OrderSide) (liquidity : OrderLiquidity) (now_ns : ℕ)
      (found : Option Ref) (order : Option (WorkingOrder W)) (l : OrderLedger W)
      → IsConserved l
      → IsConserved (update_or_register raw side liquidity now_ns found order l)
  unfolding order_seen_live
  update_or_register-IsConserved raw side liquidity now_ns (some r) (some o) l v =
      note_status-IsConserved _ raw.status now_ns _ (modify_order-IsConserved r _ l v)
  update_or_register-IsConserved raw side liquidity now_ns none order l v =
      note_status-IsConserved _ raw.status now_ns _
        (register_live_order-IsConserved (order_seen_live raw side liquidity now_ns) l v)
  update_or_register-IsConserved raw side liquidity now_ns (some r) none l v =
      note_status-IsConserved _ raw.status now_ns _
        (register_live_order-IsConserved (order_seen_live raw side liquidity now_ns) l v)

  see_one-IsConserved :
      (raw : Option (RawOrder W × OrderSide)) (now_ns : ℕ) (seen : Seen W)
      → IsConserved seen.2
      → IsConserved (see_one raw now_ns seen).2
  unfolding see_order
  see_one-IsConserved none now_ns seen v = v
  see_one-IsConserved (some (raw, side)) now_ns (ids, failures, l) v =
      let (found, l') = find_by_order_id raw.id l in
      update_or_register-IsConserved raw side (infer_liquidity raw.type_name) now_ns found
        (object_at found l') l' (find_by_order_id-IsConserved raw.id l v)

  see_all-IsConserved :
      (raws : List (Option (RawOrder W))) (now_ns : ℕ) (seen : Seen W)
      → IsConserved seen.2
      → IsConserved (see_all raws now_ns seen).2
  unfolding see_all
  see_all-IsConserved [] now_ns seen v = v
  see_all-IsConserved (raw ∷ rest) now_ns seen v =
      see_all-IsConserved rest now_ns (see_one (parsed raw) now_ns seen)
        (see_one-IsConserved (parsed raw) now_ns seen v)

  retire_object-IsConserved :
      (c : ReconciliationConfig W) (ids : List String) (now_ns : ℕ) (r : Ref)
      (order : Option (WorkingOrder W)) (l : OrderLedger W)
      → IsConserved l
      → IsConserved (retire_object c ids now_ns r order l)
  retire_object-IsConserved c ids now_ns r none l v = v
  retire_object-IsConserved c ids now_ns r (some o) l v =
      if_lem IsConserved
        (any (λ id. id == o.order_id) ids || not (is_live o) || in_grace c now_ns o) l _ (λ e. v)
        (λ e.
          note_status-IsConserved _ "inactive" now_ns _
            (modify_order-IsConserved r (order_gone now_ns) l v))

  retire_missing-IsConserved :
      (c : ReconciliationConfig W) (ids : List String) (now_ns : ℕ) (rs : List Ref)
      (l : OrderLedger W)
      → IsConserved l
      → IsConserved (retire_missing c ids now_ns rs l)
  unfolding retire_missing
  retire_missing-IsConserved c ids now_ns [] l v = v
  retire_missing-IsConserved c ids now_ns (r ∷ rs) l v =
      retire_missing-IsConserved c ids now_ns rs _
        (retire_object-IsConserved c ids now_ns r (object_at (some r) l) l v)

  pub sync_waiting_orders-IsConserved :
      (c : ReconciliationConfig W) (waiting : List (Option (RawOrder W))) (now_ns failures : ℕ)
      (l : OrderLedger W)
      → IsConserved l
      → IsConserved (sync_waiting_orders c waiting now_ns failures l).0
  unfolding sync_waiting_orders
  sync_waiting_orders-IsConserved c waiting now_ns failures l v =
      let (ids, seen_failures, l') = see_all waiting now_ns ([], 0, l) in
      retire_missing-IsConserved c ids now_ns (values l'.orders_by_order_id) l'
        (see_all-IsConserved waiting now_ns ([], 0, l) v)

module _ {W : Type 0} ⦃f : Float W⦄ ⦃fmt : Formats⦄ where
  book_raw-IsConserved :
      (index : ℤ) (raw : Option (RawFill W)) (now_ns : ℕ) (b : Booked W)
      → IsConserved b.0
      → IsConserved (book_raw index raw now_ns b).0
  book_raw-IsConserved index none now_ns b v = v
  book_raw-IsConserved index (some raw) now_ns b v = parsed_side (infer_side raw.type_name)
    where
      parsed_side : (side : Option OrderSide) → IsConserved (book_parsed index raw side now_ns b).0
      parsed_side none = v
      parsed_side (some side) =
          let r = record (request raw.id raw.symbol side) {
            liquidity = infer_liquidity raw.type_name;
          } in
          let fill = fill_of index raw side now_ns in
          ensure_audit-IsConserved r (append_fill fill (ensure_audit r b.0))
            (append_fill-IsConserved fill (ensure_audit r b.0) (ensure_audit-IsConserved r b.0 v))

  book_slice-IsConserved :
      (raws : List (ℤ × Option (RawFill W))) (now_ns : ℕ) (b : Booked W)
      → IsConserved b.0
      → IsConserved (book_slice raws now_ns b).0
  unfolding book_slice
  book_slice-IsConserved [] now_ns b v = v
  book_slice-IsConserved ((index, raw) ∷ rest) now_ns b v =
      book_slice-IsConserved rest now_ns (book_raw index raw now_ns b)
        (book_raw-IsConserved index raw now_ns b v)

  count_executions-IsConserved :
      (id : String) (count : ℕ) (a : Option (OrderAuditRecord W)) (l : OrderLedger W)
      → audit_at id l ≡ a
      → IsConserved l
      → IsConserved (count_executions id count a l)
  count_executions-IsConserved id count none l e v = v
  count_executions-IsConserved id count (some a) l e v =
      put_audit-IsConserved id a _ l v e (refl, refl, refl)

  book_executions-IsConserved :
      (id : String) (a : OrderAuditRecord W) (executions : Option (List (Option (RawFill W))))
      (now_ns : ℕ) (b : Booked W)
      → IsConserved b.0
      → IsConserved (book_executions id a executions now_ns b).0
  book_executions-IsConserved id a none now_ns b v = v
  book_executions-IsConserved id a (some executions) now_ns b v =
      let raws = execution_slice a.seen_execution_count executions in
      let (l, failures) = book_slice raws now_ns b in
      count_executions-IsConserved id (length executions) (lookup id l.audits_by_order_id) l refl
        (book_slice-IsConserved raws now_ns b v)

module _ {T W : Type 0} ⦃f : Float W⦄ ⦃fmt : Formats⦄ (broker : Broker T W) where
  sync_audit-IsConserved :
      (id : String) (a : Option (OrderAuditRecord W)) (now_ns : ℕ) (s : Booked W × T)
      → IsConserved s.0.0
      → IsConserved (sync_audit broker id a now_ns s).0.0
  sync_audit-IsConserved id none now_ns s v = v
  sync_audit-IsConserved id (some a) now_ns ((l, failures), t) v =
      let (found, l') = find_by_order_id id l in
      let kept = find_by_order_id-IsConserved id l v in
      let (executions, t') = broker.get_executed_orders id t in
      if_lem (λ (r : Booked W × T). IsConserved r.0.0) (is_settled a (object_at found l') now_ns)
        ((l', failures), t) (book_executions id a executions now_ns (l', failures), t') (λ e. kept)
        (λ e. book_executions-IsConserved id a executions now_ns (l', failures) kept)

  sync_loop-IsConserved :
      (ids : List String) (now_ns : ℕ) (s : Booked W × T)
      → IsConserved s.0.0
      → IsConserved (sync_loop broker ids now_ns s).0.0
  unfolding sync_loop
  sync_loop-IsConserved [] now_ns s v = v
  sync_loop-IsConserved (id ∷ ids) now_ns s v =
      sync_loop-IsConserved ids now_ns _
        (sync_audit-IsConserved id (lookup id s.0.0.audits_by_order_id) now_ns s v)

  pub sync_executions-IsConserved :
      (now_ns : ℕ) (l : OrderLedger W) (t : T)
      → IsConserved l
      → IsConserved (sync_executions broker now_ns l t).0.0
  unfolding sync_executions
  sync_executions-IsConserved now_ns l t v =
      sync_loop-IsConserved (keys l.audits_by_order_id) now_ns ((l, 0), t) v
