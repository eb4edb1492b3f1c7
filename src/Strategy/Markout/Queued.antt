-- ===== src/Strategy/Markout/Queued.antt =====
-- src/strategy/markout_tracker.py, `queue_pending`: each fill is queued once.
use stevehft.Prelude.{ℕ, ◌≡◌, String, false, some, List, [], ◌∷◌, any, length, All, ◌==◌, string_eq}
use stevehft.Prelude.Dict.{Dict, lookup}
use stevehft.Prelude.Float.{Float}
use stevehft.Execution.Audit.{OrderAuditRecord}

module _ {W : Type 0} where
  -- No two audits are of the same order.
  abbrev pub AreDistinct : List (OrderAuditRecord W) → Type 0
  AreDistinct [] = Unit
  AreDistinct (a ∷ audits) =
      (any (λ (b : OrderAuditRecord W). b.order_id == a.order_id) audits ≡ false)
      × AreDistinct audits

  -- Every fill of the audits has been counted.
  abbrev AreSeen : List (OrderAuditRecord W) → Dict String ℕ → Type 0
  AreSeen audits seen =
      All (λ (a : OrderAuditRecord W). lookup a.order_id seen ≡ some (length a.fills)) audits
