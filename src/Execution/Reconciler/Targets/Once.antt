-- ===== src/Execution/Reconciler/Targets/Once.antt =====
-- A slot gets at most one command.
use stevehft.Prelude.{
  ℕ, ◌≡◌, ◌≢◌, sym, subst, arith, false, Option, none, some, List, [], ◌∷◌, any, nat_eq, ◌==◌, All,
  if_lem,
}
use stevehft.Prelude.Sorting.{AllPairs, AllPairs-sort_by}
use stevehft.Prelude.Float.{Float}
use stevehft.Execution.Intents.{OrderSide}
use stevehft.Execution.Orders.{
  QuoteTarget, QuoteLevelTarget, WorkingOrder, OrderCommand, level_target,
}
use stevehft.Execution.SymbolLedger.{get_order}
use stevehft.Execution.Ledger.{OrderLedger}
use stevehft.Execution.Ledger.Store.{symbol_ledger}
use stevehft.Execution.Router.{object_at}
use stevehft.Execution.Reconciler.{ReconciliationConfig}
use stevehft.Execution.Reconciler.Justified.{IsJustified, reconcile_side-IsJustified}
use stevehft.Execution.Reconciler.Targets.{
  members, level_indexes, with_command, reconcile_slot, reconcile_levels, reconcile_side_levels,
}

abbrev Differs : ℕ → ℕ → Type 0
Differs a b = a ≢ b

none_equal : (n : ℕ) (ns : List ℕ) → any (λ m. m == n) ns ≡ false → All (Differs n) ns
none_equal n [] h = tt
none_equal n (m ∷ ns) h = (λ e. ground arith, none_equal n ns (ground arith))

members-AllPairs : (ns : List ℕ) → AllPairs Differs (members ns)
unfolding members
members-AllPairs [] = tt
members-AllPairs (n ∷ ns) =
    if_lem (AllPairs Differs) (any (λ m. m == n) (members ns)) (members ns) (n ∷ members ns)
      (λ e. members-AllPairs ns) (λ e. (none_equal n (members ns) e, members-AllPairs ns))

module _ {W : Type 0} where
  abbrev pub OtherSlots : OrderCommand W → OrderCommand W → Type 0
  OtherSlots c d = c.level_index ≢ d.level_index

  abbrev pub IsFor : QuoteTarget W → OrderSide → OrderCommand W → Type 0
  IsFor target side c = (c.symbol ≡ target.symbol) × (c.side ≡ side)

  level_indexes-AllPairs :
      (target : QuoteTarget W) (side : OrderSide) (l : OrderLedger W)
      → AllPairs Differs (level_indexes target side l)
  unfolding level_indexes
  level_indexes-AllPairs target side l =
      AllPairs-sort_by Differs (λ a b h e. h (sym e)) (λ n. n) _ (members-AllPairs _)

module _ {W : Type 0} ⦃f : Float W⦄ (c : ReconciliationConfig W) (target : QuoteTarget W)
    (side : OrderSide) (now_ns : ℕ) where
  -- The command for a slot, if there is one, is for that slot.
  abbrev IsAt : ℕ → Option (OrderCommand W) → Type 0
  IsAt n none = Unit
  IsAt n (some d) = IsFor target side d × (d.level_index ≡ n)

  justified_there :
      (n : ℕ) (level : QuoteLevelTarget W) (order : Option (WorkingOrder W))
      (d : Option (OrderCommand W))
      → IsJustified target side n level order d
      → IsAt n d
  justified_there n level order none j = tt
  justified_there n level order (some d) (symbol, own, index, fits) = ((symbol, own), index)

  reconcile_slot-IsAt :
      (n : ℕ) (l : OrderLedger W) → IsAt n (reconcile_slot c target side now_ns n l).0
  unfolding reconcile_slot
  reconcile_slot-IsAt n l =
      let order = object_at (get_order side n (symbol_ledger target.symbol l)) l in
      justified_there n (level_target target side n) order _
        (reconcile_side-IsJustified target side n c order now_ns)

  keeps :
      (P : ℕ → Type 0) (n : ℕ) (d : Option (OrderCommand W)) (ds : List (OrderCommand W))
      → IsAt n d
      → P n
      → All (λ e. P e.level_index) ds
      → All (λ e. P e.level_index) (with_command d ds)
  keeps P n none ds at p h = h
  keeps P n (some d) ds (own, index) p h = (subst P (sym index) p, h)

  -- What holds of all levels holds of the commands' levels.
  levels_kept :
      (P : ℕ → Type 0) (ns : List ℕ) (l : OrderLedger W)
      → All P ns
      → All (λ e. P e.level_index) (reconcile_levels c target side now_ns ns l).0
  unfolding reconcile_levels
  levels_kept P [] l h = tt
  levels_kept P (n ∷ ns) l h =
      let (command, l') = reconcile_slot c target side now_ns n l in
      keeps P n command _ (reconcile_slot-IsAt n l) h.0 (levels_kept P ns l' h.1)

  joins :
      (n : ℕ) (d : Option (OrderCommand W)) (ds : List (OrderCommand W))
      → IsAt n d
      → All (λ e. n ≢ e.level_index) ds
      → AllPairs OtherSlots ds × All (IsFor target side) ds
      → AllPairs OtherSlots (with_command d ds) × All (IsFor target side) (with_command d ds)
  joins n none ds at other rest = rest
  joins n (some d) ds (own, index) other (apart, all) =
      ((subst (λ k. All (λ e. k ≢ e.level_index) ds) (sym index) other, apart), (own, all))

  reconcile_levels-AllPairs :
      (ns : List ℕ) (l : OrderLedger W)
      → AllPairs Differs ns
      → AllPairs OtherSlots (reconcile_levels c target side now_ns ns l).0
        × All (IsFor target side) (reconcile_levels c target side now_ns ns l).0
  unfolding reconcile_levels
  reconcile_levels-AllPairs [] l h = (tt, tt)
  reconcile_levels-AllPairs (n ∷ ns) l h =
      let (command, l') = reconcile_slot c target side now_ns n l in
      joins n command _ (reconcile_slot-IsAt n l) (levels_kept (λ k. n ≢ k) ns l' h.0)
        (reconcile_levels-AllPairs ns l' h.1)

  -- A side of a target gets at most one command for each level, and all of them are for the target's
  -- symbol and that side.
  pub reconcile_side_levels_lem :
      (l : OrderLedger W)
      → AllPairs OtherSlots (reconcile_side_levels c target side now_ns l).0
        × All (IsFor target side) (reconcile_side_levels c target side now_ns l).0
  unfolding reconcile_side_levels
  reconcile_side_levels_lem l =
      reconcile_levels-AllPairs (level_indexes target side l) l
        (level_indexes-AllPairs target side l)
