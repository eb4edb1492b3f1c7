-- ===== src/Execution/Reconciler/Justified.antt =====
-- What the reconciler commands, and when.
use stevehft.Prelude.{
  ℕ, ◌+◌, ◌*◌, ◌≡◌, refl, sym, ◌∙◌, arith, Bool, true, false, not, ◌&&◌, ◌||◌, Option, none, some,
  ltb, leb, ◌==◌, if_lem, nat_eq,
}
use stevehft.Prelude.Float.{Float}
use stevehft.Execution.Intents.{
  OrderSide, OrderIntentAction, keep, submit, cancel, replace, flatten,
}
use stevehft.Execution.Orders.{
  QuoteTarget, QuoteLevelTarget, WorkingOrder, OrderCommand, level_target, is_live,
  has_pending_replace,
}
use stevehft.Execution.Reconciler.{
  command, ReconciliationConfig, ns_per_ms, is_working, Decision, clear_pending_replace,
  cleared_replace, hold_after_inactive,
}
use stevehft.Execution.Reconciler.Live.{decide_live, decide_replace, is_off_target}
use stevehft.Execution.Reconciler.Decisions.{
  decide_flatten, decide_disabled, decide_empty, decide_quote, reconcile_side, cancel_working,
}

-- The command is for the slot's order, which is live and is not being cancelled yet.
abbrev NamesLive : {W : Type 0} → OrderCommand W → Option (WorkingOrder W) → Type 0
NamesLive c none = ⊥
NamesLive c (some o) = (is_live o ≡ true) × (o.pending_cancel ≡ false) × (c.order_id ≡ o.order_id)

-- What an action takes.
abbrev FitsAction :
    {W : Type 0}
    → OrderIntentAction
    → QuoteTarget W
    → QuoteLevelTarget W
    → Option (WorkingOrder W)
    → OrderCommand W
    → Type 0
FitsAction keep target level order c = ⊥
FitsAction submit target level order c = is_working order ≡ false
FitsAction flatten target level order c =
    (is_working order ≡ false) × (target.flatten_mode ≡ true) × (c.size ≡ level.size)
FitsAction cancel target level order c = NamesLive c order
FitsAction replace target level order c =
    NamesLive c order × (c.price ≡ level.price) × (c.size ≡ level.size)

abbrev pub IsJustified :
    {W : Type 0}
    → QuoteTarget W
    → OrderSide
    → ℕ
    → QuoteLevelTarget W
    → Option (WorkingOrder W)
    → Option (OrderCommand W)
    → Type 0
IsJustified target side level_index level order none = Unit
IsJustified target side level_index level order (some c) =
    (c.symbol ≡ target.symbol)
    × (c.side ≡ side)
    × (c.level_index ≡ level_index)
    × FitsAction c.action target level order c

both : (b c : Bool) → b && not c ≡ true → (b ≡ true) × (c ≡ false)
both b c h = ground arith

first : (b c : Bool) → b && c ≡ true → b ≡ true
first b c h = ground arith

-- A pending replacement that is cleared leaves the rest of the order alone.
cleared :
    {W : Type 0} (o : WorkingOrder W)
    → (is_live (cleared_replace o) ≡ is_live o)
      × ((cleared_replace o).pending_cancel ≡ o.pending_cancel)
      × ((cleared_replace o).order_id ≡ o.order_id)
unfolding is_live cleared_replace
cleared o = (refl, refl, refl)

denied : (b : Bool) → not b ≡ true → b ≡ false
denied b h = ground arith

undenied : (b : Bool) → not b ≡ false → b ≡ true
undenied b h = ground arith

module _ {W : Type 0} ⦃f : Float W⦄ (target : QuoteTarget W) (side : OrderSide) (n : ℕ) where
  abbrev Justifies : QuoteLevelTarget W → Option (WorkingOrder W) → Decision W → Type 0
  Justifies level order d = IsJustified target side n level order d.0

  decide_flatten-IsJustified :
      (level : QuoteLevelTarget W) (order : Option (WorkingOrder W))
      → target.flatten_mode ≡ true
      → Justifies level order (decide_flatten target side n level order)
  unfolding decide_flatten command
  decide_flatten-IsJustified level none flat =
      if_lem (Justifies level none) (not (n == 0)) _ _ (λ e. tt)
        (λ e. (refl, refl, refl, (refl, flat, refl)))
  decide_flatten-IsJustified level (some o) flat =
      if_lem (Justifies level (some o)) (not (is_live o)) _ _
        (λ e. (refl, refl, refl, (denied (is_live o) e, flat, refl)))
        (λ e.
          if_lem (Justifies level (some o)) (not o.pending_cancel) _ _
            (λ q. (refl, refl, refl, (undenied (is_live o) e, denied o.pending_cancel q, refl)))
            (λ q. tt))

  cancel_working-IsJustified :
      (level : QuoteLevelTarget W) (o o' : WorkingOrder W)
      → (is_live o' ≡ is_live o)
        × (o'.pending_cancel ≡ o.pending_cancel)
        × (o'.order_id ≡ o.order_id)
      → IsJustified target side n level (some o) (cancel_working target side n level (some o'))
  unfolding command
  cancel_working-IsJustified level o o' (l, p, i) =
      if_lem (IsJustified target side n level (some o)) (is_live o' && not o'.pending_cancel) _ _
        (λ e.
          let (live, unasked) = both (is_live o') o'.pending_cancel e in
          (refl, refl, refl, (sym l ∙ live, sym p ∙ unasked, i)))
        (λ e. tt)

  decide_disabled-IsJustified :
      (level : QuoteLevelTarget W) (order : Option (WorkingOrder W))
      → Justifies level order (decide_disabled target side n level order)
  unfolding decide_disabled clear_pending_replace
  decide_disabled-IsJustified level none = tt
  decide_disabled-IsJustified level (some o) =
      if_lem
        (λ o'.
          IsJustified target side n level (some o) (cancel_working target side n level (some o')))
        (has_pending_replace o) (cleared_replace o) o
        (λ e. cancel_working-IsJustified level o (cleared_replace o) (cleared o))
        (λ e. cancel_working-IsJustified level o o (refl, refl, refl))

  decide_empty-IsJustified :
      (c : ReconciliationConfig W) (level : QuoteLevelTarget W) (order : Option (WorkingOrder W))
      (now_ns : ℕ)
      → is_working order ≡ false
      → Justifies level order (decide_empty c target side n level order now_ns)
  unfolding decide_empty command
  decide_empty-IsJustified c level none now_ns e = (refl, refl, refl, refl)
  decide_empty-IsJustified c level (some o) now_ns e =
      if_lem (Justifies level (some o)) (hold_after_inactive c (some o) now_ns target.flatten_mode)
        _ _ (λ q. tt)
        (λ q.
          if_lem (Justifies level (some o)) (has_pending_replace o) _ _ (λ r. (refl, refl, refl, e))
            (λ r. (refl, refl, refl, e)))

  decide_replace-IsJustified :
      (c : ReconciliationConfig W) (price : W) (level : QuoteLevelTarget W) (o : WorkingOrder W)
      (now_ns : ℕ)
      → level.price ≡ some price
      → is_live o ≡ true
      → o.pending_cancel ≡ false
      → Justifies level (some o) (decide_replace c target side n price level o now_ns)
  unfolding decide_replace command
  decide_replace-IsJustified c price level o now_ns e live p =
      if_lem (Justifies level (some o)) (is_off_target c side price level o now_ns) _ _
        (λ q. (refl, refl, refl, ((live, p, refl), sym e, refl))) (λ q. tt)

  decide_live-IsJustified :
      (c : ReconciliationConfig W) (price : W) (level : QuoteLevelTarget W) (o : WorkingOrder W)
      (now_ns : ℕ)
      → level.price ≡ some price
      → is_live o ≡ true
      → Justifies level (some o) (decide_live c target side n price level o now_ns)
  unfolding decide_live
  decide_live-IsJustified c price level o now_ns e live =
      if_lem (Justifies level (some o)) o.pending_cancel _ _ (λ p. tt)
        (λ p.
          if_lem (Justifies level (some o))
            (ltb 0 o.last_replace_request_ts_ns
              && ltb now_ns (o.last_replace_request_ts_ns + c.min_replace_interval_ms * ns_per_ms))
            (none, some o) (decide_replace c target side n price level o now_ns) (λ r. tt)
            (λ r. decide_replace-IsJustified c price level o now_ns e live p))

  decide_quote-IsJustified :
      (c : ReconciliationConfig W) (price : Option W) (level : QuoteLevelTarget W)
      (order : Option (WorkingOrder W)) (now_ns : ℕ)
      → level.price ≡ price
      → Justifies level order (decide_quote c target side n price level order now_ns)
  decide_quote-IsJustified c none level order now_ns e = decide_disabled-IsJustified level order
  decide_quote-IsJustified c (some price) level none now_ns e =
      if_lem (Justifies level none) (not level.enabled || leb level.size 0) _ _
        (λ q. decide_disabled-IsJustified level none)
        (λ q. decide_empty-IsJustified c level none now_ns refl)
  decide_quote-IsJustified c (some price) level (some o) now_ns e =
      if_lem (Justifies level (some o)) (not level.enabled || leb level.size 0) _ _
        (λ q. decide_disabled-IsJustified level (some o))
        (λ q.
          if_lem (Justifies level (some o)) (is_live o) _ _
            (λ live. decide_live-IsJustified c price level o now_ns e live)
            (λ idle. decide_empty-IsJustified c level (some o) now_ns idle))

  -- Whatever is commanded for a slot is for that symbol, side and level. A submission or a flattening
  -- is commanded only into a slot without a live order, a flattening only for a target in flatten mode
  -- and with its size; a cancellation or a replacement only for the slot's own order, which is live
  -- and not being cancelled yet, and a replacement is at the target's price and size.
  pub reconcile_side-IsJustified :
      (c : ReconciliationConfig W) (order : Option (WorkingOrder W)) (now_ns : ℕ)
      → IsJustified target side n
          (level_target target side n)
          order
          (reconcile_side c target side n order now_ns).0
  unfolding reconcile_side
  reconcile_side-IsJustified c order now_ns =
      let level = level_target target side n in
      if_lem (Justifies level order) (target.flatten_mode && ltb 0 level.size) _ _
        (λ e.
          decide_flatten-IsJustified level order (first target.flatten_mode (ltb 0 level.size) e))
        (λ e. decide_quote-IsJustified c level.price level order now_ns refl)
