-- ===== src/Execution/Ledger/Conserved.antt =====
-- No executed share is lost or counted twice: the session's totals are those of the audits that are
-- still there and those of the archive together.
pub mod Moves
use stevehft.Prelude.{
  ℕ, ◌+◌, ◌-◌, ◌*◌, ◌≡◌, refl, ap, ◌∙◌, sym, String, ◌||◌, some, arith, string_eq, leb, ◌==◌,
  Bool-cases, inl, inr, Option-cases, some-injective,
}
use stevehft.Prelude.Dict.{Dict, lookup, insert, erase, ==_self, lookup-insert, lookup-erase}
use stevehft.Prelude.Dict.Sums.{IsDict, sum_values, measure_of, insert-IsDict, sum_values-insert}
use stevehft.Prelude.Float.{Float, not_pos}
use stevehft.Execution.Audit.{FillRecord, OrderAuditRecord, normalized_fill_lots}
use stevehft.Execution.Ledger.{OrderLedger, empty}
use stevehft.Execution.Ledger.Audits.{AuditRequest, request, ensured, ensure_audit, put_audit}
use stevehft.Execution.Ledger.Audits.Lookup.{audit_at, audit_at-ensure_audit}
use stevehft.Execution.Ledger.Fills.{
  Formats, fill_key, seen_lots, mark_seen, count_seen, book_audit, book_session, append_fill,
  Verdict, repeated, duplicate, fresh, book_as,
}

abbrev pub itself : ℕ → ℕ
itself n = n

module _ {W : Type 0} where
  abbrev pub fill_count_of : OrderAuditRecord W → ℕ
  fill_count_of a = a.cumulative_fill_count

  abbrev pub lots_of : OrderAuditRecord W → ℕ
  lots_of a = a.cumulative_fill_lots

  -- Every audit stands under its own id.
  abbrev pub IsNamed : Dict String (OrderAuditRecord W) → Type 0
  IsNamed d = (id : String) (a : OrderAuditRecord W) → lookup id d ≡ some a → a.order_id ≡ id

  pub record IsConserved (l : OrderLedger W) : Type 0 where
    pub audits : IsDict l.audits_by_order_id
    pub named : IsNamed l.audits_by_order_id
    pub shares :
        l.session_executed_shares
        ≡ sum_values lots_of l.audits_by_order_id * 100
          + sum_values itself l.archived_executed_shares_by_symbol
    pub trades :
        l.session_executed_trades
        ≡ sum_values fill_count_of l.audits_by_order_id
          + sum_values itself l.archived_fill_count_by_symbol

  insert-IsNamed :
      (id : String) (a : OrderAuditRecord W) (d : Dict String (OrderAuditRecord W))
      → a.order_id ≡ id
      → IsNamed d
      → IsNamed (insert id a d)
  insert-IsNamed id a d own named j b found = elim (Bool-cases (id == j)) [
    | inl here ↦
        let same = some-injective _ _ (rw (lookup-insert, here) at found) in
        ap (λ (c : OrderAuditRecord W). c.order_id) (sym same)
        ∙ own
        ∙ (string_eq.equals_iff id j).0 here
    | inr there ↦ named j b (rw (lookup-insert, there) at found)
  ]

  pub erase-IsNamed :
      (id : String) (d : Dict String (OrderAuditRecord W)) → IsNamed d → IsNamed (erase id d)
  erase-IsNamed id d named j b found = elim (Bool-cases (id == j)) [
    | inl here ↦ absurd (cc (rw (lookup-erase, here) at found))
    | inr there ↦ named j b (rw (lookup-erase, there) at found)
  ]

  -- One audit is written, and books `n` lots in `k` fills more than before, as the session does.
  write-IsConserved :
      (id : String) (a : OrderAuditRecord W) (n k : ℕ) (l l' : OrderLedger W)
      → IsConserved l
      → l'.audits_by_order_id ≡ insert id a l.audits_by_order_id
      → (l'.archived_executed_shares_by_symbol ≡ l.archived_executed_shares_by_symbol)
        × (l'.archived_fill_count_by_symbol ≡ l.archived_fill_count_by_symbol)
      → a.order_id ≡ id
      → (lots_of a ≡ measure_of lots_of (audit_at id l) + n)
        × (l'.session_executed_shares ≡ l.session_executed_shares + n * 100)
      → (fill_count_of a ≡ measure_of fill_count_of (audit_at id l) + k)
        × (l'.session_executed_trades ≡ l.session_executed_trades + k)
      → IsConserved l'
  write-IsConserved id a n k l l' v written (shares, counts) own (lots, booked) (fills, made) =
      record {
        audits = rw written (insert-IsDict id a l.audits_by_order_id v.audits);
        named = rw written (insert-IsNamed id a l.audits_by_order_id own v.named);
        shares =
            rw (written, shares)
              (omega (arith, v.shares, sum_values-insert lots_of id a l.audits_by_order_id));
        trades =
            rw (written, counts)
              (omega (arith, v.trades, sum_values-insert fill_count_of id a l.audits_by_order_id));
      }

  -- An audit written over one with its id, lots and fills keeps the balance.
  pub put_audit-IsConserved :
      (id : String) (a a' : OrderAuditRecord W) (l : OrderLedger W)
      → IsConserved l
      → audit_at id l ≡ some a
      → (a'.order_id ≡ a.order_id) × (lots_of a' ≡ lots_of a) × (fill_count_of a' ≡ fill_count_of a)
      → IsConserved (put_audit id a' l)
  unfolding put_audit
  put_audit-IsConserved id a a' l v e (n, s, t) =
      write-IsConserved id a' 0 0 l _ v refl (refl, refl) (n ∙ v.named id a e)
        (omega (arith, ap (measure_of lots_of) e)) (omega (arith, ap (measure_of fill_count_of) e))

module _ {W : Type 0} ⦃f : Float W⦄ where
  pub empty-IsConserved : (tick_size : W) → IsConserved (empty tick_size)
  unfolding empty lookup
  empty-IsConserved tick_size = record {
    audits = tt;
    named = λ id a found. absurd (cc found);
    shares = omega arith;
    trades = omega arith;
  }

  ensured_lem :
      (r : AuditRequest W) (l : OrderLedger W)
      → IsConserved l
      → ((ensured r l).order_id ≡ r.order_id)
        × (lots_of (ensured r l) ≡ measure_of lots_of (audit_at r.order_id l))
        × (fill_count_of (ensured r l) ≡ measure_of fill_count_of (audit_at r.order_id l))
  unfolding ensured
  ensured_lem r l v = elim (Option-cases (audit_at r.order_id l)) [
    | inl missing ↦ rw missing (refl, refl, refl)
    | inr (a, e) ↦ rw e (v.named r.order_id a e, refl, refl)
  ]

  -- Asking for an audit books nothing.
  pub ensure_audit-IsConserved :
      (r : AuditRequest W) (l : OrderLedger W) → IsConserved l → IsConserved (ensure_audit r l)
  unfolding ensure_audit
  ensure_audit-IsConserved r l v =
      let (own, lots, fills) = ensured_lem r l v in
      write-IsConserved r.order_id (ensured r l) 0 0 l _ v refl (refl, refl) own
        (omega (arith, lots)) (omega (arith, fills))

  book_as-IsConserved :
      (v : Verdict) (key : String) (fill : FillRecord W) (a : OrderAuditRecord W)
      (l : OrderLedger W)
      → IsConserved l
      → audit_at fill.order_id l ≡ some a
      → IsConserved (book_as v key fill a l)
  unfolding book_as count_seen mark_seen
  book_as-IsConserved repeated key fill a l c e =
      put_audit-IsConserved fill.order_id a _ l c e (refl, refl, refl)
  book_as-IsConserved duplicate key fill a l c e =
      put_audit-IsConserved fill.order_id a _ l c e (refl, refl, refl)
  book_as-IsConserved fresh key fill a l c e =
      unfold book_session put_audit book_audit in
      write-IsConserved fill.order_id
        (book_audit l.tick_size key (normalized_fill_lots a fill.executed_size)
          (normalized_fill_lots a fill.executed_size - seen_lots key a) fill a)
        (normalized_fill_lots a fill.executed_size - seen_lots key a) 1 l _ c refl (refl, refl)
        (c.named fill.order_id a e) (rw e (refl, refl)) (rw e (refl, refl))

  -- Appending a fill keeps the ledger balanced: if every audit stands under its own id, and the
  -- session's executed shares and trades are those of the audits and the archive together, then so it
  -- is afterwards.
  pub append_fill-IsConserved :
      ⦃fmt : Formats⦄ (fill : FillRecord W) (l : OrderLedger W)
      → IsConserved l
      → IsConserved (append_fill fill l)
  unfolding append_fill
  append_fill-IsConserved fill l c =
      elim (Bool-cases (leb fill.executed_size 0 || not_pos fill.executed_price)) [
        | inl refused ↦ rw refused c
        | inr passed ↦ rw passed (
            book_as-IsConserved _ (fill_key fill) fill _ _ (ensure_audit-IsConserved _ l c)
              (unfold request in rw (audit_at-ensure_audit, ==_self fill.order_id)))
      ]
