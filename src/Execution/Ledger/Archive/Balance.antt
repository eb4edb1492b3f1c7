-- ===== src/Execution/Ledger/Archive/Balance.antt =====
-- Archiving moves the totals of an audit from the live audits to the archive, and loses none.
use stevehft.Prelude.{
  ℕ, ◌+◌, ◌-◌, ◌≡◌, refl, ap, String, ◌||◌, Option, none, some, List, [], ◌∷◌, All, arith, leb,
  take, length, string_eq, Bool-cases, inl, inr,
}
use stevehft.Prelude.Dict.{Dict, lookup, get_or, lookup-erase}
use stevehft.Prelude.Dict.Sums.{
  sum_values, measure_of, erase-IsDict, sum_values-insert, sum_values-erase,
}
use stevehft.Prelude.Sorting.{AllPairs}
use stevehft.Prelude.Float.{Float}
use stevehft.Execution.Audit.{OrderAuditRecord, cumulative_executed_shares}
use stevehft.Execution.Ledger.{OrderLedger}
use stevehft.Execution.Ledger.Conserved.{IsConserved, erase-IsNamed, lots_of, fill_count_of, itself}
use stevehft.Execution.Ledger.Archive.{
  bump, archive_one, archive_all, archive_completed_audits, archive_candidates,
}
use stevehft.Execution.Ledger.Archive.Candidates.{IsFound, Differ, chosen-IsFound, chosen-Differ}

get_or-measure_of : (o : Option ℕ) → get_or o 0 ≡ measure_of itself o
get_or-measure_of none = refl
get_or-measure_of (some n) = refl

sum_values-bump :
    (k : String) (n : ℕ) (d : Dict String ℕ)
    → sum_values itself (bump k n d) ≡ sum_values itself d + n
unfolding bump
sum_values-bump k n d = omega (
  arith,
  sum_values-insert itself k (get_or (lookup k d) 0 + n) d,
  get_or-measure_of (lookup k d),
)

module _ {W : Type 0} ⦃f : Float W⦄ where
  archive_one-IsConserved :
      (a : OrderAuditRecord W) (l : OrderLedger W)
      → IsConserved l
      → IsFound l.audits_by_order_id a
      → IsConserved (archive_one a l)
  unfolding archive_one cumulative_executed_shares
  archive_one-IsConserved a l v found = record {
    audits = erase-IsDict a.order_id l.audits_by_order_id v.audits;
    named = erase-IsNamed a.order_id l.audits_by_order_id v.named;
    shares = omega (
      arith,
      v.shares,
      sum_values-bump a.symbol (cumulative_executed_shares a) l.archived_executed_shares_by_symbol,
      sum_values-erase lots_of a.order_id l.audits_by_order_id v.audits,
      ap (measure_of lots_of) found,
    );
    trades = omega (
      arith,
      v.trades,
      sum_values-bump a.symbol a.cumulative_fill_count l.archived_fill_count_by_symbol,
      sum_values-erase fill_count_of a.order_id l.audits_by_order_id v.audits,
      ap (measure_of fill_count_of) found,
    );
  }

  -- The other audits are still there.
  still-IsFound :
      (a : OrderAuditRecord W) (l : OrderLedger W) (rest : List (OrderAuditRecord W))
      → All (Differ a) rest
      → All (IsFound l.audits_by_order_id) rest
      → All (IsFound (archive_one a l).audits_by_order_id) rest
  unfolding archive_one
  still-IsFound a l [] h found = tt
  still-IsFound a l (b ∷ rest) h found =
      (rw (lookup-erase, h.0) found.0, still-IsFound a l rest h.1 found.1)

  archive_all-IsConserved :
      (audits : List (OrderAuditRecord W)) (l : OrderLedger W)
      → IsConserved l
      → All (IsFound l.audits_by_order_id) audits
      → AllPairs Differ audits
      → IsConserved (archive_all audits l)
  unfolding archive_all
  archive_all-IsConserved [] l v found h = v
  archive_all-IsConserved (a ∷ rest) l v found h =
      archive_all-IsConserved rest (archive_one a l) (archive_one-IsConserved a l v found.0)
        (still-IsFound a l rest h.0 found.1) h.1

  -- Archiving keeps the ledger balanced: if the session's executed shares and trades are those of the
  -- audits and the archive together, they still are when audits have moved to the archive.
  pub archive_completed_audits-IsConserved :
      (now_ns : ℕ) (l : OrderLedger W)
      → IsConserved l
      → IsConserved (archive_completed_audits now_ns l)
  unfolding archive_completed_audits
  archive_completed_audits-IsConserved now_ns l v =
      let audits : ℕ = length l.audits_by_order_id in
      let keep = l.max_completed_audits_retained in
      elim (Bool-cases (leb keep 0 || leb audits keep)) [
        | inl idle ↦ rw idle v
        | inr full ↦ rw full (
            archive_all-IsConserved (take (audits - keep) (archive_candidates now_ns l)) l v
              (chosen-IsFound now_ns (audits - keep) l v)
              (chosen-Differ now_ns (audits - keep) l v))
      ]
