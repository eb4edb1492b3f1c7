-- ===== src/Execution/Ledger/Fills/Replay.antt =====
-- An execution report that the broker repeats is booked once.
use stevehft.Prelude.{
  ℕ, ◌≤◌, ◌≡◌, refl, ap, ◌∙◌, max, String, ◌||◌, Option, none, some, List, leb, string_eq, ◌==◌,
  arith, Bool-cases, inl, inr,
}
use stevehft.Prelude.Dict.{==_self, lookup, lookup-insert}
use stevehft.Prelude.Float.{Float, not_pos}
use stevehft.Execution.Audit.{FillRecord, OrderAuditRecord, normalized_fill_lots}
use stevehft.Execution.Ledger.{OrderLedger}
use stevehft.Execution.Ledger.Audits.{AuditRequest, request, ensured, ensure_audit, put_audit}
use stevehft.Execution.Ledger.Audits.Lookup.{audit_at, audit_at-put_audit, audit_at-ensure_audit}
use stevehft.Execution.Ledger.Fills.{
  Formats, fill_key, seen_lots, mark_seen, count_seen, book_audit, book_session, append_fill,
  Verdict, repeated, duplicate, fresh, classify, book_as,
}

-- What an audit has booked.
pub record Books (W : Type 0) : Type 0 where
  pub fills : List (FillRecord W)
  pub lots : ℕ
  pub notional : W
  pub count : ℕ
  pub arrival_shortfall : W
  pub decision_shortfall : W
  pub arrival_ticks : W
  pub decision_ticks : W

-- What the session has booked.
pub record Totals (W : Type 0) : Type 0 where
  pub trades : ℕ
  pub shares : ℕ
  pub notional : W
  pub price_sum : W
  pub arrival_shortfall : W
  pub decision_shortfall : W
  pub passive_fills : ℕ
  pub aggressive_fills : ℕ
  pub rebate : W
  pub fee : W

module _ {W : Type 0} where
  abbrev pub books : OrderAuditRecord W → Books W
  books a = record {
    fills = a.fills;
    lots = a.cumulative_fill_lots;
    notional = a.cumulative_fill_notional;
    count = a.cumulative_fill_count;
    arrival_shortfall = a.cumulative_arrival_shortfall;
    decision_shortfall = a.cumulative_decision_shortfall;
    arrival_ticks = a.cumulative_arrival_slippage_ticks;
    decision_ticks = a.cumulative_decision_slippage_ticks;
  }

  abbrev pub totals : OrderLedger W → Totals W
  totals l = record {
    trades = l.session_executed_trades;
    shares = l.session_executed_shares;
    notional = l.session_fill_notional;
    price_sum = l.session_fill_price_sum;
    arrival_shortfall = l.session_arrival_shortfall;
    decision_shortfall = l.session_decision_shortfall;
    passive_fills = l.session_passive_fills;
    aggressive_fills = l.session_aggressive_fills;
    rebate = l.session_estimated_rebate;
    fee = l.session_estimated_fee;
  }

  abbrev books_at : Option (OrderAuditRecord W) → Option (Books W)
  books_at none = none
  books_at (some a) = some (books a)

  -- The books of an order's audit, if it has one.
  abbrev pub books_of : String → OrderLedger W → Option (Books W)
  books_of id l = books_at (audit_at id l)

module _ {W : Type 0} ⦃f : Float W⦄ ⦃fmt : Formats⦄ (fill : FillRecord W) where
  abbrev own_request : AuditRequest W
  own_request = request fill.order_id fill.symbol fill.side

  -- All that the report says is seen.
  abbrev IsSeen : OrderAuditRecord W → Type 0
  IsSeen a = normalized_fill_lots a fill.executed_size ≤ seen_lots (fill_key fill) a

  seen_lots-mark_seen :
      (key : String) (n : ℕ) (a : OrderAuditRecord W)
      → seen_lots key (mark_seen key n a) ≡ max (seen_lots key a) n
  unfolding mark_seen
  seen_lots-mark_seen key n a = rw (lookup-insert, ==_self key)

  abbrev HasSeen : OrderLedger W → Type 0
  HasSeen l = (a : OrderAuditRecord W) × (audit_at fill.order_id l ≡ some a) × IsSeen a

  found :
      (a : OrderAuditRecord W) (l : OrderLedger W)
      → IsSeen a
      → HasSeen (put_audit fill.order_id a l)
  found a l seen = (a, rw (audit_at-put_audit, ==_self fill.order_id), seen)

  -- However a report is classified, its lots are seen afterwards.
  book_as-HasSeen :
      (v : Verdict) (a : OrderAuditRecord W) (l : OrderLedger W)
      → HasSeen (book_as v (fill_key fill) fill a l)
  unfolding book_as count_seen mark_seen book_audit book_session normalized_fill_lots
  book_as-HasSeen repeated a l =
      found _ l (rw (lookup-insert, ==_self (fill_key fill)) (omega arith))
  book_as-HasSeen duplicate a l =
      found _ l (rw (lookup-insert, ==_self (fill_key fill)) (omega arith))
  book_as-HasSeen fresh a l = found _ l (rw (lookup-insert, ==_self (fill_key fill)) (omega arith))

  classify-IsSeen : (a : OrderAuditRecord W) → IsSeen a → classify (fill_key fill) fill a ≡ repeated
  unfolding classify normalized_fill_lots
  classify-IsSeen a seen = ground arith

  -- An audit that is there keeps its sizes and its books when it is asked for again.
  ensured-IsSeen :
      (r : AuditRequest W) (a : OrderAuditRecord W) (l : OrderLedger W)
      → lookup r.order_id l.audits_by_order_id ≡ some a
      → IsSeen a
      → IsSeen (ensured r l) × (books (ensured r l) ≡ books a)
  unfolding ensured normalized_fill_lots
  ensured-IsSeen r a l e seen = rw e (seen, refl)

  -- A report whose lots are seen changes no books and no totals.
  abbrev Unchanged : OrderLedger W → OrderLedger W → Type 0
  Unchanged l l' = (totals l' ≡ totals l) × ((id : String) → books_of id l' ≡ books_of id l)

  books-marked :
      (n : ℕ) (a : OrderAuditRecord W)
      → books (count_seen fill (mark_seen (fill_key fill) n a)) ≡ books a
  unfolding count_seen mark_seen
  books-marked n a = refl

  books_of-repeated :
      (a a' : OrderAuditRecord W) (l : OrderLedger W)
      → audit_at fill.order_id l ≡ some a
      → books a' ≡ books a
      → Unchanged l (put_audit fill.order_id a' (ensure_audit own_request l))
  unfolding request put_audit ensure_audit
  books_of-repeated a a' l e b = (
    refl,
    λ id. elim (Bool-cases (fill.order_id == id)) [
      | inl here ↦
          let same = (string_eq.equals_iff fill.order_id id).0 here in
          rw (audit_at-put_audit, here, ← same, e) (ap some b)
      | inr there ↦ rw (audit_at-put_audit, there, audit_at-ensure_audit, there)
    ],
  )

  append_fill-HasSeen : (l : OrderLedger W) → HasSeen l → Unchanged l (append_fill fill l)
  unfolding append_fill request
  append_fill-HasSeen l (a, e, seen) =
      let (seen', same) = ensured-IsSeen own_request a l e seen in
      elim (Bool-cases (leb fill.executed_size 0 || not_pos fill.executed_price)) [
        | inl refused ↦ rw refused (refl, λ id. refl)
        | inr passed ↦
            rw (passed, classify-IsSeen (ensured own_request l) seen')
              (books_of-repeated a _ l e (books-marked _ (ensured own_request l) ∙ same))
      ]

  -- The broker repeats its reports: to append a fill a second time changes neither the session's
  -- totals nor the books of any audit.
  pub append_fill-replay :
      (l : OrderLedger W)
      → let l' = append_fill fill l in
        (totals (append_fill fill l') ≡ totals l')
        × ((id : String) → books_of id (append_fill fill l') ≡ books_of id l')
  append_fill-replay l =
      elim (Bool-cases (leb fill.executed_size 0 || not_pos fill.executed_price)) [
        | inl refused ↦ unfold append_fill in rw refused (refl, λ id. refl)
        | inr passed ↦
            append_fill-HasSeen (append_fill fill l)
              (unfold append_fill in rw passed (book_as-HasSeen _ _ _))
      ]
