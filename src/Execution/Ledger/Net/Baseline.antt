-- ===== src/Execution/Ledger/Net/Baseline.antt =====
-- After a baseline the ledger's net position is the broker's.
use stevehft.Prelude.{
  Bool, ◌≡◌, refl, sym, ◌∙◌, ap, String, Option, some, none, List, [], ◌∷◌, string_eq, ◌==◌,
  if◌then◌else◌, arith, Bool-cases, inl, inr, true, false, any, ◌||◌,
}
use stevehft.Prelude.Int.{ℤ, pos, ◌+ℤ◌, ◌-ℤ◌, beq_ℤ, beq_ℤ_iff, int_laws}
use stevehft.Prelude.Dict.{Dict, lookup, lookup-insert, get_or}
use stevehft.Execution.Audit.{OrderAuditRecord}
use stevehft.Execution.Ledger.{OrderLedger}
use stevehft.Execution.Ledger.Store.{
  find_by_order_id, find_or_scan, remember, first_with_id, slot_objects,
}
use stevehft.Execution.Ledger.Audits.{audits_for_symbol, audits_of, ids_of}
use stevehft.Execution.SymbolLedger.{Ref}
use stevehft.Execution.Ledger.Archive.{bump_ℤ}
use stevehft.Execution.Ledger.Net.{
  settle, net_loop, get_net_executed_shares, broker_net_shares, baseline_one,
  apply_position_baseline,
}
use stevehft.Execution.Ledger.Net.Lookups.{
  Alike, Alike-trans, archive-Alike, net_loop_congr, net_loop-Alike, net_loop-add,
}
use stevehft.Risk.Inventory.{Position}

reach_broker : (local broker : ℤ) → local +ℤ (broker -ℤ local) ≡ broker
reach_broker local broker = omega int_laws

add_zero : (a : ℤ) → a ≡ a +ℤ pos 0
add_zero a = omega int_laws

add_nothing : (b : Bool) (a m : ℤ) → m ≡ pos 0 → a ≡ a +ℤ (if b then m else pos 0)
add_nothing true a m e = rw e (add_zero a)
add_nothing false a m e = add_zero a

either :
    (b c : Bool) (x y z : ℤ)
    → z ≡ (if b then x else y)
    → (if c then x else z) ≡ (if b || c then x else y)
either b c x y z e = ground arith

beq_zero : (m : ℤ) → beq_ℤ m (pos 0) ≡ true → m ≡ pos 0
beq_zero m h = (beq_ℤ_iff m (pos 0)).0 h

module _ {W : Type 0} where
  abbrev pub net_of : String → OrderLedger W → ℤ
  net_of symbol l = (get_net_executed_shares symbol l).0

  abbrev start : String → OrderLedger W → ℤ
  start symbol l = get_or (lookup symbol l.archived_net_executed_shares_by_symbol) (pos 0)

  audits_for_symbol-Alike :
      (symbol : String) (l l' : OrderLedger W)
      → Alike l l'
      → audits_for_symbol symbol l' ≡ audits_for_symbol symbol l
  unfolding audits_for_symbol
  audits_for_symbol-Alike symbol l l' p =
      ap (λ d. audits_of (ids_of symbol d) l'.audits_by_order_id) p.ids
      ∙ ap (λ d. audits_of (ids_of symbol l.audit_ids_by_symbol) d) p.audits

  -- With the same orders and audits, an archive that is higher by `m` gives a net position that is.
  net_of-Alike :
      (symbol : String) (m : ℤ) (l l' : OrderLedger W)
      → Alike l l'
      → start symbol l' ≡ start symbol l +ℤ m
      → net_of symbol l' ≡ net_of symbol l +ℤ m
  unfolding get_net_executed_shares
  net_of-Alike symbol m l l' p e =
      let as' = audits_for_symbol symbol l in
      ap (λ n. (net_loop n (audits_for_symbol symbol l') l').0) e
      ∙ ap (λ audits. (net_loop (start symbol l +ℤ m) audits l').0)
          (audits_for_symbol-Alike symbol l l' p)
      ∙ net_loop_congr as' (start symbol l +ℤ m) l l' p
      ∙ net_loop-add as' (start symbol l) m l

  get_net-Alike :
      (symbol : String) (l : OrderLedger W) → Alike l (get_net_executed_shares symbol l).1
  unfolding get_net_executed_shares
  get_net-Alike symbol l = net_loop-Alike (audits_for_symbol symbol l) (start symbol l) l

  abbrev archive : OrderLedger W → Dict String ℤ
  archive l = l.archived_net_executed_shares_by_symbol

  archive-remember :
      (id : String) (o : Option Ref) (l : OrderLedger W) → archive (remember id o l).1 ≡ archive l
  unfolding remember
  archive-remember id none l = refl
  archive-remember id (some r) l = refl

  archive-find_or_scan :
      (id : String) (o : Option Ref) (l : OrderLedger W)
      → archive (find_or_scan o id l).1 ≡ archive l
  unfolding find_or_scan
  archive-find_or_scan id none l = archive-remember id (first_with_id id (slot_objects l)) l
  archive-find_or_scan id (some r) l = refl

  archive-net_loop :
      (audits : List (OrderAuditRecord W)) (net : ℤ) (l : OrderLedger W)
      → archive (net_loop net audits l).1 ≡ archive l
  unfolding net_loop find_by_order_id
  archive-net_loop [] net l = refl
  archive-net_loop (a ∷ rest) net l =
      archive-net_loop rest _ _ ∙ archive-find_or_scan a.order_id _ l

  archive-get_net :
      (symbol : String) (l : OrderLedger W)
      → archive (get_net_executed_shares symbol l).1 ≡ archive l
  unfolding get_net_executed_shares
  archive-get_net symbol l = archive-net_loop (audits_for_symbol symbol l) (start symbol l) l

  abbrev pub broker_of : Dict String (Position W) → String → ℤ
  broker_of positions symbol = broker_net_shares (lookup symbol positions)

  start-bump :
      (s t : String) (m : ℤ) (l : OrderLedger W)
      → get_or (lookup t (bump_ℤ s m (archive l))) (pos 0)
        ≡ start t l +ℤ (if s == t then m else pos 0)
  unfolding bump_ℤ
  start-bump s t m l = elim (Bool-cases (s == t)) [
    | inl here ↦
        rw (lookup-insert, here) (ap (λ k. start k l +ℤ m) ((string_eq.equals_iff s t).0 here))
    | inr there ↦ rw (lookup-insert, there) (add_zero (start t l))
  ]

  -- A round for `s` adds its offset to the net position of `s`, and nothing to any other.
  net_of-settle :
      (m : ℤ) (s t : String) (l l' : OrderLedger W)
      → Alike l l'
      → archive l' ≡ archive l
      → net_of t (settle m s l') ≡ net_of t l +ℤ (if s == t then m else pos 0)
  unfolding settle
  net_of-settle m s t l l' p e = elim (Bool-cases (beq_ℤ m (pos 0))) [
    | inl zero ↦ rw zero (
        net_of-Alike t _ l l' p
          (ap (λ d. get_or (lookup t d) (pos 0)) e ∙ add_nothing (s == t) _ m (beq_zero m zero)))
    | inr other ↦ rw other (
        net_of-Alike t _ l _ (Alike-trans l l' _ p (archive-Alike _ l')) (
          start-bump s t m l'
          ∙ ap (λ d. get_or (lookup t d) (pos 0) +ℤ (if s == t then m else pos 0)) e))
  ]

  net_of-baseline_one :
      (positions : Dict String (Position W)) (s t : String) (l : OrderLedger W)
      → net_of t (baseline_one positions s l)
        ≡ net_of t l +ℤ (if s == t then broker_of positions s -ℤ net_of s l else pos 0)
  unfolding baseline_one
  net_of-baseline_one positions s t l =
      net_of-settle _ s t l (get_net_executed_shares s l).1 (get_net-Alike s l)
        (archive-get_net s l)

  baseline_one_value :
      (positions : Dict String (Position W)) (s t : String) (l : OrderLedger W)
      → net_of t (baseline_one positions s l)
        ≡ (if s == t then broker_of positions t else net_of t l)
  baseline_one_value positions s t l = elim (Bool-cases (s == t)) [
    | inl here ↦
        net_of-baseline_one positions s t l
        ∙ rw (here, (string_eq.equals_iff s t).0 here)
            (reach_broker (net_of t l) (broker_of positions t))
    | inr there ↦ net_of-baseline_one positions s t l ∙ rw there (sym (add_zero (net_of t l)))
  ]

  -- After a baseline the ledger's net position of each of its symbols is the broker's, and 0 where
  -- the broker reports none; a symbol that was there already stays, and the others do not move.
  pub apply_position_baseline_lem :
      (positions : Dict String (Position W)) (symbols : List String) (l : OrderLedger W)
      (t : String)
      → net_of t (apply_position_baseline positions symbols l)
        ≡ (if any (λ s. s == t) symbols then broker_of positions t else net_of t l)
  unfolding apply_position_baseline
  apply_position_baseline_lem positions [] l t = refl
  apply_position_baseline_lem positions (s ∷ rest) l t =
      apply_position_baseline_lem positions rest (baseline_one positions s l) t
      ∙ either (s == t) (any (λ k. k == t) rest) (broker_of positions t) (net_of t l) _
          (baseline_one_value positions s t l)
