-- ===== src/Execution/Reconciler/Sync/Waiting.antt =====
-- src/execution/reconciler.py, `_sync_waiting_orders`: the orders that the broker still has are
-- updated or taken over, and those that it has no longer become inactive.
use stevehft.Prelude.{
  ℕ, ◌+◌, ◌*◌, String, Bool, false, not, ◌&&◌, ◌||◌, Option, none, some, List, [], ◌∷◌, any, ltb,
  nat_eq, string_eq, ◌==◌, if◌then◌else◌,
}
use stevehft.Prelude.Dict.{values}
use stevehft.Prelude.Float.{Float}
use stevehft.Execution.Intents.{OrderSide, OrderLiquidity}
use stevehft.Execution.Orders.{WorkingOrder, is_live, has_pending_replace}
use stevehft.Execution.SymbolLedger.{Ref}
use stevehft.Execution.Ledger.{OrderLedger}
use stevehft.Execution.Ledger.Store.{
  ensure_symbol, find_by_order_id, register_live_order, modify_order,
}
use stevehft.Execution.Ledger.Audits.{
  AuditRequest, request, ensured, ensure_audit, put_audit, add_member,
}
use stevehft.Execution.Router.{object_at}
use stevehft.Execution.Reconciler.{ReconciliationConfig, ns_per_ms}
use stevehft.Execution.Reconciler.Sync.{RawOrder, infer_side, infer_liquidity}

-- `_parse_failures` after a poll with some failures
abbrev pub failures_after : ℕ → ℕ → ℕ
failures_after before this_poll = if ltb 0 this_poll then before + this_poll else 0

-- The live ids, the parse failures of this poll, and the ledger.
abbrev pub Seen : Type 0 → Type 0
Seen W = List String × ℕ × OrderLedger W

module _ {W : Type 0} where
  -- The object of an order that the ledger does not know.
  unfoldable pub order_seen_live : RawOrder W → OrderSide → OrderLiquidity → ℕ → WorkingOrder W
  order_seen_live raw side liquidity now_ns = record {
    symbol = raw.symbol;
    side = side;
    order_id = raw.id;
    price = raw.price;
    size = raw.size;
    level_index = 0;
    executed_size = raw.executed_size;
    status = raw.status;
    liquidity = liquidity;
    submitted_ts_ns = now_ns;
    last_update_ts_ns = now_ns;
    last_replace_request_ts_ns = 0;
    inactive_ts_ns = 0;
    pending_cancel = false;
    pending_replace_price = none;
    pending_replace_size = 0;
    pending_replace_reason = "";
  }

  unfoldable pub order_updated : RawOrder W → OrderLiquidity → ℕ → WorkingOrder W → WorkingOrder W
  order_updated raw liquidity now_ns o = record o {
    price = raw.price;
    size = raw.size;
    executed_size = raw.executed_size;
    status = raw.status;
    liquidity = liquidity;
    last_update_ts_ns = now_ns;
  }

  unfoldable pub order_gone : ℕ → WorkingOrder W → WorkingOrder W
  order_gone now_ns o = record o {
    status = "inactive";
    pending_cancel = false;
    inactive_ts_ns = now_ns;
    last_update_ts_ns = now_ns;
  }

  abbrev pub with_side : RawOrder W → Option OrderSide → Option (RawOrder W × OrderSide)
  with_side raw none = none
  with_side raw (some side) = some (raw, side)

  -- A raw order with its side, if both can be read.
  abbrev pub parsed : Option (RawOrder W) → Option (RawOrder W × OrderSide)
  parsed none = none
  parsed (some raw) = with_side raw (infer_side raw.type_name)

  -- A new order may be missing from the list for a while.
  unfoldable pub in_grace : ReconciliationConfig W → ℕ → WorkingOrder W → Bool
  in_grace c now_ns o =
      (o.status == "pending_new" || o.status == "pending_flatten")
      && not o.pending_cancel
      && not (has_pending_replace o)
      && ltb 0 o.submitted_ts_ns
      && ltb now_ns (o.submitted_ts_ns + c.new_order_grace_ms * ns_per_ms)

module _ {W : Type 0} ⦃f : Float W⦄ where
  -- The audit's status and time are written.
  unfoldable pub note_status : AuditRequest W → String → ℕ → OrderLedger W → OrderLedger W
  note_status r status now_ns l =
      put_audit r.order_id
        (record (ensured r l) { current_status = status; last_update_ts_ns = now_ns })
        (ensure_audit r l)

  abbrev pub update_or_register :
      RawOrder W
      → OrderSide
      → OrderLiquidity
      → ℕ
      → Option Ref
      → Option (WorkingOrder W)
      → OrderLedger W
      → OrderLedger W
  update_or_register raw side liquidity now_ns (some r) (some o) l =
      note_status
        (record (request raw.id raw.symbol side) {
          level_index = o.level_index;
          liquidity = liquidity;
        })
        raw.status now_ns (modify_order r (order_updated raw liquidity now_ns) l)
  update_or_register raw side liquidity now_ns found order l =
      note_status
        (record (request raw.id raw.symbol side) {
          submitted_ts_ns = now_ns;
          submit_price = raw.price;
          submit_size = raw.size;
          liquidity = liquidity;
        })
        raw.status now_ns
        (register_live_order (order_seen_live raw side liquidity now_ns)
          (ensure_symbol raw.symbol l))

  unfoldable pub see_order : RawOrder W → OrderSide → ℕ → OrderLedger W → OrderLedger W
  see_order raw side now_ns l =
      let (found, l) = find_by_order_id raw.id l in
      update_or_register raw side (infer_liquidity raw.type_name) now_ns found (object_at found l) l

  abbrev pub see_one : Option (RawOrder W × OrderSide) → ℕ → Seen W → Seen W
  see_one none now_ns (live_ids, failures, l) = (live_ids, failures + 1, l)
  see_one (some (raw, side)) now_ns (live_ids, failures, l) =
      (add_member raw.id live_ids, failures, see_order raw side now_ns l)

  unfoldable pub see_all : List (Option (RawOrder W)) → ℕ → Seen W → Seen W
  see_all [] now_ns seen = seen
  see_all (raw ∷ rest) now_ns seen = see_all rest now_ns (see_one (parsed raw) now_ns seen)

  abbrev pub retire_object :
      ReconciliationConfig W
      → List String
      → ℕ
      → Ref
      → Option (WorkingOrder W)
      → OrderLedger W
      → OrderLedger W
  retire_object c live_ids now_ns r none l = l
  retire_object c live_ids now_ns r (some o) l =
      if any (λ id. id == o.order_id) live_ids || not (is_live o) || in_grace c now_ns o
      then l
      else note_status
          (record (request o.order_id o.symbol o.side) {
            level_index = o.level_index;
            liquidity = o.liquidity;
          })
          "inactive" now_ns (modify_order r (order_gone now_ns) l)

  -- The loop over `all_orders_snapshot()`.
  unfoldable pub retire_missing :
      ReconciliationConfig W → List String → ℕ → List Ref → OrderLedger W → OrderLedger W
  retire_missing c live_ids now_ns [] l = l
  retire_missing c live_ids now_ns (r ∷ rs) l =
      retire_missing c live_ids now_ns rs
        (retire_object c live_ids now_ns r (object_at (some r) l) l)

  -- The ledger and `_parse_failures` afterwards.
  unfoldable pub sync_waiting_orders :
      ReconciliationConfig W
      → List (Option (RawOrder W))
      → ℕ
      → ℕ
      → OrderLedger W
      → OrderLedger W × ℕ
  sync_waiting_orders c waiting now_ns parse_failures l =
      let (live_ids, failures, l) = see_all waiting now_ns ([], 0, l) in
      (
        retire_missing c live_ids now_ns (values l.orders_by_order_id) l,
        failures_after parse_failures failures,
      )
