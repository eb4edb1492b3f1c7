-- ===== src/Execution/Reconciler/Decisions.antt =====
-- src/execution/reconciler.py, `_reconcile_side`: what is commanded for one slot, given its target and
-- its order. The order is returned too, since the method writes to it.
use stevehft.Prelude.{
  ℕ, String, not, ◌&&◌, ◌||◌, Option, none, some, ltb, leb, nat_eq, string_eq, ◌==◌, if◌then◌else◌,
}
use stevehft.Prelude.Float.{Float, lt}
use stevehft.Execution.Intents.{OrderSide, submit, cancel, flatten}
use stevehft.Execution.Orders.{
  QuoteTarget, QuoteLevelTarget, WorkingOrder, OrderCommand, level_target, is_live,
  has_pending_replace,
}
use stevehft.Execution.Reconciler.Live.{decide_live}
use stevehft.Execution.Reconciler.{
  command, ReconciliationConfig, Decision, or_text, cleared_replace, clear_pending_replace,
  hold_after_inactive,
}

module _ {W : Type 0} ⦃f : Float W⦄ where
  -- The branch of `flatten_mode`.
  unfoldable pub decide_flatten :
      QuoteTarget W → OrderSide → ℕ → QuoteLevelTarget W → Option (WorkingOrder W) → Decision W
  decide_flatten target side level_index lt none =
      if not (level_index == 0) then (none, none) else (
        some
            (record (command target side level_index flatten (or_text target.reason "flatten_only")
              lt.price) { size = lt.size }),
        none,
      )
  decide_flatten target side level_index lt (some o) =
      if not (is_live o)
      then (
        some
            (record (command target side level_index flatten (or_text target.reason "flatten_only")
              lt.price) { size = lt.size }),
        some o,
      )
      else if not o.pending_cancel
      then (
        some
            (record (command target side level_index cancel "flatten_cancel_passive_before_market"
              lt.price) { order_id = o.order_id }),
        some o,
      )
      else (none, some o)

  -- The branch of a target that is switched off.
  abbrev pub cancel_working :
      QuoteTarget W
      → OrderSide
      → ℕ
      → QuoteLevelTarget W
      → Option (WorkingOrder W)
      → Option (OrderCommand W)
  cancel_working target side level_index lt none = none
  cancel_working target side level_index lt (some o) =
      if is_live o && not o.pending_cancel
      then some (record (command target side level_index cancel "target_disabled" lt.price) {
        order_id = o.order_id;
      })
      else none

  unfoldable pub decide_disabled :
      QuoteTarget W → OrderSide → ℕ → QuoteLevelTarget W → Option (WorkingOrder W) → Decision W
  decide_disabled target side level_index lt order =
      let order = clear_pending_replace order in
      (cancel_working target side level_index lt order, order)

  abbrev pub submission : QuoteTarget W → OrderSide → ℕ → Option W → ℕ → String → OrderCommand W
  submission target side level_index price size reason =
      record (command target side level_index submit reason price) { price = price; size = size }

  -- The branch of a slot without a live order.
  unfoldable pub decide_empty :
      ReconciliationConfig W
      → QuoteTarget W
      → OrderSide
      → ℕ
      → QuoteLevelTarget W
      → Option (WorkingOrder W)
      → ℕ
      → Decision W
  decide_empty c target side level_index lt none now_ns = (
    some (
        submission target side level_index lt.price lt.size
          (or_text target.reason "no_live_order")),
    none,
  )
  decide_empty c target side level_index lt (some o) now_ns =
      if hold_after_inactive c (some o) now_ns target.flatten_mode
      then (none, some o)
      else if has_pending_replace o
      then (
        some (
            submission target side level_index o.pending_replace_price o.pending_replace_size (
              or_text (or_text o.pending_replace_reason target.reason) "replace_after_cancel_ack")),
        some (cleared_replace o),
      )
      else (
        some (
            submission target side level_index lt.price lt.size
              (or_text target.reason "no_live_order")),
        some o,
      )

  abbrev pub decide_enabled :
      ReconciliationConfig W
      → QuoteTarget W
      → OrderSide
      → ℕ
      → W
      → QuoteLevelTarget W
      → Option (WorkingOrder W)
      → ℕ
      → Decision W
  decide_enabled c target side level_index target_price level none now_ns =
      decide_empty c target side level_index level none now_ns
  decide_enabled c target side level_index target_price level (some o) now_ns =
      if is_live o
      then decide_live c target side level_index target_price level o now_ns
      else decide_empty c target side level_index level (some o) now_ns

  abbrev pub decide_quote :
      ReconciliationConfig W
      → QuoteTarget W
      → OrderSide
      → ℕ
      → Option W
      → QuoteLevelTarget W
      → Option (WorkingOrder W)
      → ℕ
      → Decision W
  decide_quote c target side level_index none level order now_ns =
      decide_disabled target side level_index level order
  decide_quote c target side level_index (some target_price) level order now_ns =
      if not level.enabled || leb level.size 0
      then decide_disabled target side level_index level order
      else decide_enabled c target side level_index target_price level order now_ns

  unfoldable pub reconcile_side :
      ReconciliationConfig W
      → QuoteTarget W
      → OrderSide
      → ℕ
      → Option (WorkingOrder W)
      → ℕ
      → Decision W
  reconcile_side c target side level_index order now_ns =
      let level = level_target target side level_index in
      if target.flatten_mode && ltb 0 level.size
      then decide_flatten target side level_index level order
      else decide_quote c target side level_index level.price level order now_ns
