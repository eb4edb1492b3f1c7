-- ===== src/Execution/Ledger/Archive/Candidates.antt =====
-- The audits that are archived in one call are in the ledger, and are all different.
use stevehft.Prelude.{
  ℕ, ◌≡◌, ◌∙◌, String, false, List, [], ◌∷◌, All, take, string_eq, ◌==◌, some, arith, ap,
}
use stevehft.Prelude.Dict.{Dict, lookup, values}
use stevehft.Prelude.Dict.Entries.{IsEntry, KeysDiffer, entries-KeysDiffer, entries-IsEntry}
use stevehft.Prelude.Sorting.{
  All-select, All-sort_by, All-take, AllPairs, AllPairs-select, AllPairs-sort_by, AllPairs-take,
}
use stevehft.Prelude.Float.{Float}
use stevehft.Execution.Audit.{OrderAuditRecord}
use stevehft.Execution.Ledger.{OrderLedger}
use stevehft.Execution.Ledger.Conserved.{IsNamed, IsConserved}
use stevehft.Execution.Ledger.Archive.{archive_candidates}

module _ {W : Type 0} where
  abbrev pub IsFound : Dict String (OrderAuditRecord W) → OrderAuditRecord W → Type 0
  IsFound d a = lookup a.order_id d ≡ some a

  abbrev pub Differ : OrderAuditRecord W → OrderAuditRecord W → Type 0
  Differ a b = (a.order_id == b.order_id) ≡ false

  Differ-symm : (a b : OrderAuditRecord W) → Differ a b → Differ b a
  Differ-symm a b h = ground (
    arith,
    string_eq.equals_iff a.order_id b.order_id,
    string_eq.equals_iff b.order_id a.order_id,
  )

  values-IsFound :
      (d ps : Dict String (OrderAuditRecord W))
      → IsNamed d
      → All (IsEntry d) ps
      → All (IsFound d) (values ps)
  values-IsFound d [] named f = tt
  values-IsFound d ((k, a) ∷ ps) named f =
      (ap (λ i. lookup i d) (named k a f.0) ∙ f.0, values-IsFound d ps named f.1)

  values_apart :
      (d : Dict String (OrderAuditRecord W)) (k : String) (a : OrderAuditRecord W)
      (ps : Dict String (OrderAuditRecord W))
      → IsNamed d
      → a.order_id ≡ k
      → All (IsEntry d) ps
      → All (KeysDiffer (k, a)) ps
      → All (Differ a) (values ps)
  values_apart d k a [] named own f h = tt
  values_apart d k a ((j, b) ∷ ps) named own f h =
      (rw (own, named j b f.0) h.0, values_apart d k a ps named own f.1 h.1)

  values-Differ :
      (d ps : Dict String (OrderAuditRecord W))
      → IsNamed d
      → All (IsEntry d) ps
      → AllPairs KeysDiffer ps
      → AllPairs Differ (values ps)
  values-Differ d [] named f h = tt
  values-Differ d ((k, a) ∷ ps) named f h =
      (values_apart d k a ps named (named k a f.0) f.1 h.0, values-Differ d ps named f.1 h.1)

module _ {W : Type 0} ⦃f : Float W⦄ (now n : ℕ) (l : OrderLedger W) (v : IsConserved l) where
  abbrev chosen : List (OrderAuditRecord W)
  chosen = take n (archive_candidates now l)

  pub chosen-IsFound : All (IsFound l.audits_by_order_id) chosen
  unfolding archive_candidates
  chosen-IsFound = All-take _ n _ (
      All-sort_by _ _ _ (
        values-IsFound l.audits_by_order_id _ v.named
          (All-select _ _ l.audits_by_order_id (entries-IsEntry l.audits_by_order_id v.audits))))

  pub chosen-Differ : AllPairs Differ chosen
  unfolding archive_candidates
  chosen-Differ =
      let entries = entries-IsEntry l.audits_by_order_id v.audits in
      AllPairs-take Differ n _ (
        AllPairs-sort_by Differ Differ-symm _ _ (
          values-Differ l.audits_by_order_id _ v.named (All-select _ _ l.audits_by_order_id entries)
            (AllPairs-select KeysDiffer _ l.audits_by_order_id
              (entries-KeysDiffer l.audits_by_order_id v.audits))))
