-- ===== src/Execution/Ledger/Archive.antt =====
-- src/execution/order_state.py, `archive_completed_audits`: the oldest finished audits above the
-- limit are folded into the totals of their symbols and dropped.
pub mod Candidates
pub mod Balance
use stevehft.Prelude.{
  ℕ, ◌+◌, ◌-◌, String, Bool, not, ◌&&◌, ◌||◌, none, some, List, [], ◌∷◌, map, any, select, take,
  sort_by, length, leb, string_eq, ◌==◌, if◌then◌else◌,
}
use stevehft.Prelude.Int.{ℤ, pos, ◌+ℤ◌, ◌-ℤ◌}
use stevehft.Prelude.Dict.{Dict, lookup, insert, erase, get_or}
use stevehft.Prelude.Float.{Float, nought, add}
use stevehft.Execution.Intents.{OrderSide, bid, ask, limit, liquidity_eq}
use stevehft.Execution.Orders.{is_terminal}
use stevehft.Execution.Audit.{
  OrderAuditRecord, cumulative_executed_shares, is_plain_cancel, estimated_rebate, estimated_fee,
}
use stevehft.Execution.Ledger.{OrderLedger}
use stevehft.Execution.Ledger.Store.{slot_objects}

-- `signed_multiplier * shares`
abbrev pub signed : OrderSide → ℕ → ℤ
signed bid n = pos n
signed ask n = pos 0 -ℤ pos n

-- `d[k] = d.get(k, 0) + n`
unfoldable pub bump : String → ℕ → Dict String ℕ → Dict String ℕ
bump k n d = insert k (get_or (lookup k d) 0 + n) d

unfoldable pub bump_ℤ : String → ℤ → Dict String ℤ → Dict String ℤ
bump_ℤ k n d = insert k (get_or (lookup k d) (pos 0) +ℤ n) d

-- `ids.discard(id)`
unfoldable pub discard : String → List String → List String
discard id ids = select (λ k. not (k == id)) ids

-- An empty set is taken out of the dictionary.
abbrev pub put_ids : String → List String → Dict String (List String) → Dict String (List String)
put_ids symbol [] d = erase symbol d
put_ids symbol (id ∷ ids) d = insert symbol (id ∷ ids) d

unfoldable pub disown : String → String → Dict String (List String) → Dict String (List String)
unfolding discard
disown symbol id d = elim (lookup symbol d) [
  | none ↦ d
  | some ids ↦ put_ids symbol (discard id ids) d
]

module _ {W : Type 0} ⦃f : Float W⦄ where
  unfoldable pub bump_f : String → W → Dict String W → Dict String W
  bump_f k x d = insert k (add (get_or (lookup k d) nought) x) d

  -- The body of the last loop.
  unfoldable pub archive_one : OrderAuditRecord W → OrderLedger W → OrderLedger W
  unfolding bump bump_ℤ bump_f disown
  archive_one a l = record l {
    archived_net_executed_shares_by_symbol =
        bump_ℤ a.symbol (signed a.side (cumulative_executed_shares a))
          l.archived_net_executed_shares_by_symbol;
    archived_executed_shares_by_symbol =
        bump a.symbol (cumulative_executed_shares a) l.archived_executed_shares_by_symbol;
    archived_fill_count_by_symbol =
        bump a.symbol a.cumulative_fill_count l.archived_fill_count_by_symbol;
    archived_cancel_count_by_symbol =
        (if is_plain_cancel a
          then bump a.symbol 1 l.archived_cancel_count_by_symbol
          else l.archived_cancel_count_by_symbol);
    archived_passive_fill_count_by_symbol =
        (if a.liquidity == limit
          then bump a.symbol a.cumulative_fill_count l.archived_passive_fill_count_by_symbol
          else l.archived_passive_fill_count_by_symbol);
    archived_estimated_rebate_by_symbol =
        bump_f a.symbol (estimated_rebate a) l.archived_estimated_rebate_by_symbol;
    archived_estimated_fee_by_symbol =
        bump_f a.symbol (estimated_fee a) l.archived_estimated_fee_by_symbol;
    audits_by_order_id = erase a.order_id l.audits_by_order_id;
    orders_by_order_id = erase a.order_id l.orders_by_order_id;
    audit_ids_by_symbol = disown a.symbol a.order_id l.audit_ids_by_symbol;
  }

  unfoldable pub archive_all : List (OrderAuditRecord W) → OrderLedger W → OrderLedger W
  archive_all [] l = l
  archive_all (a ∷ rest) l = archive_all rest (archive_one a l)

  -- An audit may go if its order holds no slot and is finished, and the retention time is over. The
  -- age is compared as a sum, since it may be negative.
  unfoldable pub may_archive : ℕ → OrderLedger W → String × OrderAuditRecord W → Bool
  unfolding slot_objects is_terminal
  may_archive ts_ns l (order_id, a) =
      not (any (λ o. o.1.order_id == order_id) (slot_objects l))
      && is_terminal a.current_status
      && (leb ts_ns 0
          || leb a.last_update_ts_ns 0
          || leb (a.last_update_ts_ns + l.min_completed_audit_retention_ns) ts_ns)

  unfoldable pub archive_candidates : ℕ → OrderLedger W → List (OrderAuditRecord W)
  unfolding may_archive
  archive_candidates ts_ns l =
      sort_by (λ a. a.last_update_ts_ns)
        (map (λ p. p.1) (select (may_archive ts_ns l) l.audits_by_order_id))

  -- `now_ns` is 0 for a missing time.
  unfoldable pub archive_completed_audits : ℕ → OrderLedger W → OrderLedger W
  unfolding archive_candidates archive_all
  archive_completed_audits now_ns l =
      let audits = length l.audits_by_order_id in
      let keep = l.max_completed_audits_retained in
      if leb keep 0 || leb audits keep
      then l
      else archive_all (take (audits - keep) (archive_candidates now_ns l)) l
