-- ===== src/Execution/Ledger/Net/Lookups.antt =====
-- Looking an order up may add it to `orders_by_order_id`: what any later look-up finds is the same,
-- so the net position does not depend on which orders were looked up before.
use stevehft.Prelude.{
  ◌≡◌, refl, sym, ◌∙◌, ap, String, Option, none, some, List, [], ◌∷◌, string_eq, ◌==◌, Bool-cases,
  inl, inr,
}
use stevehft.Prelude.Int.{ℤ, ◌+ℤ◌, int_laws}
use stevehft.Prelude.Dict.{Dict, lookup, insert, lookup-insert}
use stevehft.Execution.Audit.{OrderAuditRecord}
use stevehft.Execution.SymbolLedger.{Ref}
use stevehft.Execution.Ledger.{OrderLedger}
use stevehft.Execution.Ledger.Store.{
  find_by_order_id, find_or_scan, first_with_id, remember, slot_objects, Object,
}
use stevehft.Execution.Ledger.Net.{order_of, audit_shares, net_loop}

swap_last : (a b c : ℤ) → a +ℤ b +ℤ c ≡ a +ℤ c +ℤ b
swap_last a b c = omega int_laws

module _ {W : Type 0} where
  abbrev or_slot : Option Ref → String → List (Object W) → Option Ref
  or_slot none id slots = first_with_id id slots
  or_slot (some r) id slots = some r

  abbrev pub found : String → OrderLedger W → Option Ref
  found id l = (find_by_order_id id l).0

  remember_value : (id : String) (o : Option Ref) (l : OrderLedger W) → (remember id o l).0 ≡ o
  unfolding remember
  remember_value id none l = refl
  remember_value id (some r) l = refl

  found_or_scan :
      (o : Option Ref) (id : String) (l : OrderLedger W)
      → (find_or_scan o id l).0 ≡ or_slot o id (slot_objects l)
  unfolding find_or_scan
  found_or_scan none id l = remember_value id (first_with_id id (slot_objects l)) l
  found_or_scan (some r) id l = refl

  found_value :
      (id : String) (l : OrderLedger W)
      → found id l ≡ or_slot (lookup id l.orders_by_order_id) id (slot_objects l)
  unfolding find_by_order_id
  found_value id l = found_or_scan (lookup id l.orders_by_order_id) id l

  -- The same orders are found, and the objects and the audits are the same.
  pub record Alike (l l' : OrderLedger W) : Type 0 where
    pub heap : l'.heap ≡ l.heap
    pub audits : l'.audits_by_order_id ≡ l.audits_by_order_id
    pub ids : l'.audit_ids_by_symbol ≡ l.audit_ids_by_symbol
    pub finds : (id : String) → found id l' ≡ found id l

  pub Alike-refl : (l : OrderLedger W) → Alike l l
  Alike-refl l = record { heap = refl; audits = refl; ids = refl; finds = λ id. refl }

  or_slot-insert :
      (j id : String) (r : Ref) (l : OrderLedger W)
      → lookup j l.orders_by_order_id ≡ none
      → first_with_id j (slot_objects l) ≡ some r
      → or_slot (lookup id (insert j r l.orders_by_order_id)) id (slot_objects l)
        ≡ or_slot (lookup id l.orders_by_order_id) id (slot_objects l)
  or_slot-insert j id r l missing first = elim (Bool-cases (j == id)) [
    | inl here ↦
        let same = (string_eq.equals_iff j id).0 here in
        rw (lookup-insert, here, ← same, missing) (sym first)
    | inr there ↦ rw (lookup-insert, there)
  ]

  remember-Alike :
      (j : String) (o : Option Ref) (l : OrderLedger W)
      → lookup j l.orders_by_order_id ≡ none
      → first_with_id j (slot_objects l) ≡ o
      → Alike l (remember j o l).1
  unfolding remember slot_objects
  remember-Alike j none l missing first = Alike-refl l
  remember-Alike j (some r) l missing first = record {
    heap = refl;
    audits = refl;
    ids = refl;
    finds = λ id.
        found_value id (remember j (some r) l).1
        ∙ or_slot-insert j id r l missing first
        ∙ sym (found_value id l);
  }

  find_or_scan-Alike :
      (j : String) (o : Option Ref) (l : OrderLedger W)
      → lookup j l.orders_by_order_id ≡ o
      → Alike l (find_or_scan o j l).1
  unfolding find_or_scan
  find_or_scan-Alike j none l e = remember-Alike j (first_with_id j (slot_objects l)) l e refl
  find_or_scan-Alike j (some r) l e = Alike-refl l

  pub find_by_order_id-Alike : (j : String) (l : OrderLedger W) → Alike l (find_by_order_id j l).1
  unfolding find_by_order_id
  find_by_order_id-Alike j l = find_or_scan-Alike j (lookup j l.orders_by_order_id) l refl

  pub Alike-trans : (a b c : OrderLedger W) → Alike a b → Alike b c → Alike a c
  Alike-trans a b c p q = record {
    heap = q.heap ∙ p.heap;
    audits = q.audits ∙ p.audits;
    ids = q.ids ∙ p.ids;
    finds = λ id. q.finds id ∙ p.finds id;
  }

  Alike-sym : (a b : OrderLedger W) → Alike a b → Alike b a
  Alike-sym a b p = record {
    heap = sym p.heap;
    audits = sym p.audits;
    ids = sym p.ids;
    finds = λ id. sym (p.finds id);
  }

  -- The archive has no part in a look-up.
  pub archive-Alike :
      (d : Dict String ℤ) (l : OrderLedger W)
      → Alike l (record l { archived_net_executed_shares_by_symbol = d })
  unfolding slot_objects
  archive-Alike d l = record {
    heap = refl;
    audits = refl;
    ids = refl;
    finds = λ id. found_value id _ ∙ sym (found_value id l);
  }

  -- The step of the loop after a look-up.
  next : OrderAuditRecord W → OrderLedger W → OrderLedger W
  next a l = (find_by_order_id a.order_id l).1

  next-Alike :
      (a : OrderAuditRecord W) (l l' : OrderLedger W) → Alike l l' → Alike (next a l) (next a l')
  unfolding next
  next-Alike a l l' p =
      Alike-trans _ l _ (Alike-sym _ _ (find_by_order_id-Alike a.order_id l))
        (Alike-trans _ l' _ p (find_by_order_id-Alike a.order_id l'))

  order_of_congr :
      (o o' : Option Ref) (l l' : OrderLedger W)
      → o' ≡ o
      → l'.heap ≡ l.heap
      → order_of o' l' ≡ order_of o l
  order_of_congr none o' l l' e h = rw e
  order_of_congr (some r) o' l l' e h = rw (e, h)

  pub net_loop_congr :
      (as' : List (OrderAuditRecord W)) (net : ℤ) (l l' : OrderLedger W)
      → Alike l l'
      → (net_loop net as' l').0 ≡ (net_loop net as' l).0
  unfolding net_loop next
  net_loop_congr [] net l l' p = refl
  net_loop_congr (a ∷ rest) net l l' p =
      let q = next-Alike a l l' p in
      let same = order_of_congr _ _ _ (next a l') (p.finds a.order_id) q.heap in
      ap (λ o. (net_loop (net +ℤ audit_shares a o) rest (next a l')).0) same
      ∙ net_loop_congr rest _ (next a l) (next a l') q

  pub net_loop-Alike :
      (as' : List (OrderAuditRecord W)) (net : ℤ) (l : OrderLedger W)
      → Alike l (net_loop net as' l).1
  unfolding net_loop
  net_loop-Alike [] net l = Alike-refl l
  net_loop-Alike (a ∷ rest) net l =
      Alike-trans l _ _ (find_by_order_id-Alike a.order_id l) (net_loop-Alike rest _ _)

  -- A start that is higher by `m` gives a result that is higher by `m`.
  pub net_loop-add :
      (as' : List (OrderAuditRecord W)) (net m : ℤ) (l : OrderLedger W)
      → (net_loop (net +ℤ m) as' l).0 ≡ (net_loop net as' l).0 +ℤ m
  unfolding net_loop
  net_loop-add [] net m l = refl
  net_loop-add (a ∷ rest) net m l =
      ap (λ n. (net_loop n rest (find_by_order_id a.order_id l).1).0) (swap_last net m _)
      ∙ net_loop-add rest _ m _
