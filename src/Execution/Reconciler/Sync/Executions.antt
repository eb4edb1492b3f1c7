-- ===== src/Execution/Reconciler/Sync/Executions.antt =====
-- src/execution/reconciler.py, `_sync_executions`: the executions of every audited order are asked for
-- and booked.
use stevehft.Prelude.{
  ℕ, suc, ◌+◌, ◌-◌, max, String, Bool, not, ◌&&◌, ◌||◌, Option, none, some, List, [], ◌∷◌, length,
  drop, ltb, nat_eq, string_eq, ◌==◌, if◌then◌else◌,
}
use stevehft.Prelude.Int.{ℤ, pos, negsuc}
use stevehft.Prelude.Dict.{lookup, keys}
use stevehft.Prelude.Float.{Float}
use stevehft.Execution.Intents.{OrderSide}
use stevehft.Execution.Audit.{FillRecord, OrderAuditRecord}
use stevehft.Execution.Orders.{WorkingOrder, is_terminal}
use stevehft.Execution.Ledger.{OrderLedger}
use stevehft.Execution.Ledger.Store.{find_by_order_id}
use stevehft.Execution.Ledger.Audits.{request, ensure_audit, put_audit}
use stevehft.Execution.Ledger.Fills.{Formats, append_fill}
use stevehft.Execution.Router.{object_at}
use stevehft.Execution.Reconciler.{is_working}
use stevehft.Execution.Reconciler.Sync.{Broker, RawFill, infer_side, infer_liquidity}

-- The ledger and the failures of this poll.
abbrev pub Booked : Type 0 → Type 0
Booked W = OrderLedger W × ℕ

module _ {W : Type 0} where
  abbrev enumerate : ℕ → List (Option (RawFill W)) → List (ℤ × Option (RawFill W))
  enumerate start [] = []
  enumerate start (x ∷ xs) = (pos start, x) ∷ enumerate (suc start) xs

  abbrev unindexed : List (Option (RawFill W)) → List (ℤ × Option (RawFill W))
  unindexed [] = []
  unindexed (x ∷ xs) = (negsuc 0, x) ∷ unindexed xs

  -- The executions that have to be looked at: the new ones, or the last one again, whose size may have
  -- grown; all of them, without an index, if the list got shorter. Nothing at all of an empty list.
  unfoldable pub execution_slice : ℕ → List (Option (RawFill W)) → List (ℤ × Option (RawFill W))
  execution_slice seen executions =
      if ltb seen (length executions)
      then enumerate seen (drop seen executions)
      else if length executions == seen
      then enumerate (seen - 1) (drop (seen - 1) executions)
      else unindexed executions

  -- An audit of a finished order is not asked for again.
  unfoldable pub is_settled : OrderAuditRecord W → Option (WorkingOrder W) → ℕ → Bool
  is_settled a order now_ns =
      is_terminal a.current_status
      && (ltb 0 a.seen_execution_count
          || (ltb 0 a.last_update_ts_ns && ltb a.last_update_ts_ns now_ns))
      && not (is_working order)

  abbrev pub fill_of : ℤ → RawFill W → OrderSide → ℕ → FillRecord W
  fill_of index raw side now_ns = record {
    order_id = raw.id;
    symbol = raw.symbol;
    side = side;
    executed_size = raw.executed_size;
    executed_price = raw.executed_price;
    status = raw.status;
    event_ts_ns = now_ns;
    broker_timestamp = raw.timestamp;
    execution_index = index;
  }

  -- `audit.seen_execution_count = max(...)`
  abbrev pub count_executions :
      String → ℕ → Option (OrderAuditRecord W) → OrderLedger W → OrderLedger W
  count_executions id count none l = l
  count_executions id count (some a) l =
      put_audit id (record a { seen_execution_count = max a.seen_execution_count count }) l

module _ {W : Type 0} ⦃f : Float W⦄ ⦃fmt : Formats⦄ where
  abbrev pub book_parsed : ℤ → RawFill W → Option OrderSide → ℕ → Booked W → Booked W
  book_parsed index raw none now_ns (l, failures) = (l, failures + 1)
  book_parsed index raw (some side) now_ns (l, failures) =
      let r = record (request raw.id raw.symbol side) {
        liquidity = infer_liquidity raw.type_name;
      } in
      (ensure_audit r (append_fill (fill_of index raw side now_ns) (ensure_audit r l)), failures)

  abbrev pub book_raw : ℤ → Option (RawFill W) → ℕ → Booked W → Booked W
  book_raw index none now_ns (l, failures) = (l, failures + 1)
  book_raw index (some raw) now_ns b = book_parsed index raw (infer_side raw.type_name) now_ns b

  unfoldable pub book_slice : List (ℤ × Option (RawFill W)) → ℕ → Booked W → Booked W
  book_slice [] now_ns b = b
  book_slice ((index, raw) ∷ rest) now_ns b = book_slice rest now_ns (book_raw index raw now_ns b)

  abbrev pub book_executions :
      String → OrderAuditRecord W → Option (List (Option (RawFill W))) → ℕ → Booked W → Booked W
  book_executions id a none now_ns (l, failures) = (l, failures + 1)
  book_executions id a (some executions) now_ns b =
      let (l, failures) = book_slice (execution_slice a.seen_execution_count executions) now_ns b in
      (count_executions id (length executions) (lookup id l.audits_by_order_id) l, failures)

module _ {T W : Type 0} ⦃f : Float W⦄ ⦃fmt : Formats⦄ (broker : Broker T W) where
  abbrev pub sync_audit : String → Option (OrderAuditRecord W) → ℕ → Booked W × T → Booked W × T
  sync_audit id none now_ns s = s
  sync_audit id (some a) now_ns ((l, failures), t) =
      let (found, l) = find_by_order_id id l in
      let (executions, t') = broker.get_executed_orders id t in
      if is_settled a (object_at found l) now_ns
      then ((l, failures), t)
      else (book_executions id a executions now_ns (l, failures), t')

  -- The loop over `audit_records_snapshot()`.
  unfoldable pub sync_loop : List String → ℕ → Booked W × T → Booked W × T
  sync_loop [] now_ns s = s
  sync_loop (id ∷ ids) now_ns s =
      sync_loop ids now_ns (sync_audit id (lookup id s.0.0.audits_by_order_id) now_ns s)

  unfoldable pub sync_executions : ℕ → OrderLedger W → T → Booked W × T
  sync_executions now_ns l t = sync_loop (keys l.audits_by_order_id) now_ns ((l, 0), t)
