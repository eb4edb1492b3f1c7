-- ===== src/Strategy/Sweep/Absorbed.antt =====
-- src/strategy/sweep_reversion.py, `_absorb_sweep_fills`: a second call right after the first
-- changes nothing.
use stevehft.Prelude.{
  ℕ, ◌≡◌, refl, ap, String, some, List, [], ◌∷◌, drop, length, ltb, if◌then◌else◌, Bool-cases, inl,
  inr, Option-cases,
}
use stevehft.Prelude.Float.{Float, max_f, decimal}
use stevehft.Execution.Intents.{side_eq}
use stevehft.Execution.Audit.{OrderAuditRecord}
use stevehft.Execution.Ledger.{OrderLedger}
use stevehft.Execution.Ledger.Audits.{audits_for_symbol}
use stevehft.Strategy.Markout.Lists.{drop-length}
use stevehft.Strategy.Sweep.{
  Pending, SweepState, lots_of, is_near, find_near, see_audit, absorb_levels, with_pending,
  absorb_audits, absorb_sweep_fills,
}

module _ {W : Type 0} ⦃f : Float W⦄ where
  -- A level that has seen an audit has nothing more to take from it.
  see_audit_twice :
      (level : Pending W) (a : OrderAuditRecord W) (s s' : SweepState W)
      → see_audit (see_audit level a s).0 a s' ≡ ((see_audit level a s).0, s')
  see_audit_twice (price, sign, seen) a s s' =
      elim (Bool-cases (ltb 0 (lots_of (drop seen a.fills)))) [
        | inl new ↦ rw (new, drop-length a.fills) refl
        | inr old ↦ rw (old, old) refl
      ]

  -- How many fills a level has seen does not change what it is near to.
  find_near_seen :
      (tick price sign : W) (m n : ℕ) (audits : List (OrderAuditRecord W))
      → find_near tick (price, sign, m) audits ≡ find_near tick (price, sign, n) audits
  unfolding find_near
  find_near_seen tick price sign m n [] = refl
  find_near_seen tick price sign m n (a ∷ audits) =
      ap (λ later. if is_near tick (price, sign, n) a then some a else later)
        (find_near_seen tick price sign m n audits)

  find_near-see_audit :
      (tick : W) (level : Pending W) (a : OrderAuditRecord W) (s : SweepState W)
      (audits : List (OrderAuditRecord W))
      → find_near tick (see_audit level a s).0 audits ≡ find_near tick level audits
  find_near-see_audit tick (price, sign, seen) a s audits =
      elim (Bool-cases (ltb 0 (lots_of (drop seen a.fills)))) [
        | inl new ↦ rw new (find_near_seen tick price sign (length a.fills) seen audits)
        | inr old ↦ rw old refl
      ]

  absorb_levels_twice :
      (tick : W) (audits : List (OrderAuditRecord W)) (levels : List (Pending W))
      (s s' : SweepState W)
      → absorb_levels tick audits (absorb_levels tick audits levels s).0 s'
        ≡ ((absorb_levels tick audits levels s).0, s')
  unfolding absorb_levels
  absorb_levels_twice tick audits [] s s' = refl
  absorb_levels_twice tick audits (level ∷ levels) s s' =
      elim (Option-cases (find_near tick level audits)) [
        | inl nothing ↦ rw nothing (absorb_levels_twice tick audits levels s s')
        | inr (a, found) ↦
            rw
              (
                found,
                find_near-see_audit tick level a s audits,
                found,
                see_audit_twice level a s s',
                absorb_levels_twice tick audits levels (see_audit level a s).1 s',
              )
              refl
      ]

  -- What `_absorb_sweep_fills` leaves, given the levels and the state that its loop returns.
  absorbed_twice :
      (tick : W) (audits : List (OrderAuditRecord W)) (levels : List (Pending W)) (s : SweepState W)
      → absorb_audits tick audits (with_pending (absorb_levels tick audits levels s))
        ≡ with_pending (absorb_levels tick audits levels s)
  absorbed_twice tick audits levels s =
      let r = absorb_levels tick audits levels s in
      elim (Bool-cases (ltb 0 (length r.0))) [
        | inl some_left ↦
            rw (some_left, absorb_levels_twice tick audits levels s (with_pending r)) refl
        | inr none_left ↦ rw none_left refl
      ]

  -- A second `_absorb_sweep_fills` right after the first, with the same ledger, changes nothing: neither
  -- the position of the sweep nor its pending levels.
  pub absorb_sweep_fills_twice :
      (symbol : String) (l : OrderLedger W) (tick_size : W) (s : SweepState W)
      → absorb_sweep_fills symbol
          (some l)
          tick_size
          (absorb_sweep_fills symbol (some l) tick_size s)
        ≡ absorb_sweep_fills symbol (some l) tick_size s
  unfolding absorb_sweep_fills
  absorb_sweep_fills_twice symbol l tick_size s =
      elim (Bool-cases (ltb 0 (length s.sweep_pending_levels))) [
        | inl pending ↦ rw pending (
            absorbed_twice (max_f tick_size (decimal 1 9)) (audits_for_symbol symbol l)
              s.sweep_pending_levels s)
        | inr idle ↦ rw (idle, idle) refl
      ]
