-- ===== src/Execution/Ledger/Audits/Lookup.antt =====
-- Which audit is found after the ledger's audits are written.
use stevehft.Prelude.{◌≡◌, String, Option, some, string_eq, ◌==◌, if◌then◌else◌}
use stevehft.Prelude.Dict.{lookup, lookup-insert}
use stevehft.Prelude.Float.{Float}
use stevehft.Execution.Audit.{OrderAuditRecord}
use stevehft.Execution.Ledger.{OrderLedger}
use stevehft.Execution.Ledger.Audits.{AuditRequest, ensured, ensure_audit, put_audit}

-- An order's audit record, as the ledger's dictionary has it.
abbrev pub audit_at : {W : Type 0} → String → OrderLedger W → Option (OrderAuditRecord W)
audit_at id l = lookup id l.audits_by_order_id

pub audit_at-put_audit :
    {W : Type 0} (k id : String) (a : OrderAuditRecord W) (l : OrderLedger W)
    → audit_at id (put_audit k a l) ≡ (if k == id then some a else audit_at id l)
unfolding put_audit
audit_at-put_audit k id a l = lookup-insert k id a l.audits_by_order_id

pub audit_at-ensure_audit :
    {W : Type 0} ⦃f : Float W⦄ (r : AuditRequest W) (id : String) (l : OrderLedger W)
    → audit_at id (ensure_audit r l)
      ≡ (if r.order_id == id then some (ensured r l) else audit_at id l)
unfolding ensure_audit
audit_at-ensure_audit r id l = lookup-insert r.order_id id (ensured r l) l.audits_by_order_id
