-- ===== src/Execution/Router/Resubmit.antt =====
-- A submission that the broker has taken: further ones into its slot do not reach the broker.
use stevehft.Prelude.{
  ℕ, ◌≡◌, refl, ap, ◌∙◌, sym, subst, String, Bool, true, false, some, if◌then◌else◌, string_eq,
}
use stevehft.Prelude.Float.{Float}
use stevehft.Execution.Intents.{OrderLiquidity, limit}
use stevehft.Execution.Orders.{WorkingOrder, OrderCommand, is_live, is_terminal}
use stevehft.Execution.ShiftOrders.{ShiftOrder, built, build_limit_order}
use stevehft.Execution.Router.{Trader, OrderRouter, Outcome, done, slot_order}
use stevehft.Execution.Router.Bookings.{register, new_working_order}
use stevehft.Execution.Router.Actions.{
  place, would_duplicate, submit_at, submit_command, submit_would_duplicate_side_order,
}
use stevehft.Execution.Router.Registered.{register_lem, slot_order-alike}

submit_is_live :
    {W : Type 0} (c : OrderCommand W) (price : W) (id : String) (now : ℕ)
    → is_live (new_working_order c price limit "pending_new" id now) ≡ true
unfolding is_live is_terminal new_working_order
submit_is_live c price id now = refl

module _ {T W : Type 0} ⦃f : Float W⦄ (tr : Trader T W) where
  -- A submission into a slot whose order is live is dropped without a trace.
  submit_command_occupied :
      (c : OrderCommand W) (s : OrderRouter T W) (price : W) (o : WorkingOrder W)
      → c.price ≡ some price
      → slot_order c s.order_ledger ≡ some o
      → is_live o ≡ true
      → submit_command tr c s ≡ (done, s)
  unfolding submit_command submit_would_duplicate_side_order
  submit_command_occupied c s price o ep eo live =
      ap (λ p. submit_at tr p c s) ep ∙ ap (λ d. drop_if d) duplicate
    where
      drop_if : Bool × T → Outcome × OrderRouter T W
      drop_if (d, t) =
          let s = record s { trader = t } in
          if d
          then (done, s)
          else place tr (build_limit_order c.symbol c.side c.size price) c price limit "pending_new"
              s

      duplicate : would_duplicate tr (slot_order c s.order_ledger) s.trader ≡ (true, s.trader)
      duplicate = ap (λ q. would_duplicate tr q s.trader) eo ∙ rw live refl

  place_accepted :
      (x : ShiftOrder W) (c : OrderCommand W) (price : W) (liquidity : OrderLiquidity)
      (status id : String) (s : OrderRouter T W) (t t' : T)
      → tr.new_order x s.trader ≡ (id, t)
      → tr.submit_order x id t ≡ (true, t')
      → place tr (built x) c price liquidity status s ≡ (
        done,
        record s {
          trader = (tr.monotonic_ns t').1;
          order_ledger = register c price liquidity status id (tr.monotonic_ns t').0 s.order_ledger;
        },
      )
  unfolding place
  place_accepted x c price liquidity status id s t t' en ea = rw (en, ea) refl

  submit_command_accepted :
      (c : OrderCommand W) (s : OrderRouter T W) (price : W) (x : ShiftOrder W) (id : String)
      (u t t' : T)
      → c.price ≡ some price
      → submit_would_duplicate_side_order tr c s ≡ (false, u)
      → build_limit_order c.symbol c.side c.size price ≡ built x
      → tr.new_order x u ≡ (id, t)
      → tr.submit_order x id t ≡ (true, t')
      → submit_command tr c s ≡ (
        done,
        record s {
          trader = (tr.monotonic_ns t').1;
          order_ledger =
              register c price limit "pending_new" id (tr.monotonic_ns t').0 s.order_ledger;
        },
      )
  unfolding submit_command
  submit_command_accepted c s price x id u t t' ep ed eb en ea =
      ap (λ p. submit_at tr p c s) ep
      ∙ rw (ed, eb)
          (place_accepted x c price limit "pending_new" id (record s { trader = u }) t t' en ea)

  -- Once the broker has taken a submission, further ones into the same slot are dropped, whatever their
  -- price and size: neither the broker nor the ledger sees them.
  pub submit_command_twice :
      (c d : OrderCommand W) (s : OrderRouter T W) (price price' : W) (x : ShiftOrder W)
      (id : String) (u t t' : T)
      → c.price ≡ some price
      → submit_would_duplicate_side_order tr c s ≡ (false, u)
      → build_limit_order c.symbol c.side c.size price ≡ built x
      → tr.new_order x u ≡ (id, t)
      → tr.submit_order x id t ≡ (true, t')
      → d.symbol ≡ c.symbol
      → d.side ≡ c.side
      → d.level_index ≡ c.level_index
      → d.price ≡ some price'
      → submit_command tr d (submit_command tr c s).1 ≡ (done, (submit_command tr c s).1)
  submit_command_twice c d s price price' x id u t t' ep ed eb en ea es ei el ep' =
      let now = (tr.monotonic_ns t').0 in
      let l = register c price limit "pending_new" id now s.order_ledger in
      let after = record s { trader = (tr.monotonic_ns t').1; order_ledger = l } in
      let o = new_working_order c price limit "pending_new" id now in
      let slot =
        slot_order-alike c d l es ei el
        ∙ (register_lem c price limit "pending_new" id now s.order_ledger).0 in
      subst (λ q. submit_command tr d q ≡ (done, q))
        (sym (ap (λ q. q.1) (submit_command_accepted c s price x id u t t' ep ed eb en ea)))
        (submit_command_occupied d after price' o ep' slot (submit_is_live c price id now))
