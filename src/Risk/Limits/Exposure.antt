-- ===== src/Risk/Limits/Exposure.antt =====
-- What a submission that passes the checks can do to the position.
use stevehft.Prelude.{
  ℕ, ◌+◌, ◌≤◌, ◌<◌, ◌≡◌, ◌≢◌, ◌⊎◌, max, true, none, some, [], ◌∷◌, arith, length,
}
use stevehft.Prelude.Int.{ℤ, pos, ◌+ℤ◌, ◌-ℤ◌, abs, ltb_ℤ}
use stevehft.Prelude.Float.{Float}
use stevehft.Execution.Intents.{bid, ask, side_eq, submit, cancel, flatten, action_eq}
use stevehft.Execution.Orders.{OrderCommand}
use stevehft.Execution.Ledger.Live.{live_orders}
use stevehft.Risk.Limits.{
  RiskLimits, RiskDecision, net_lots, working_order_lots, command_lots, projected_symbol_abs_lots,
  check_flatten_only, check_symbol_position_limit, check_gross_position_limit,
  check_open_order_limit, check_buying_power, all_allowed, is_allowed,
}

-- The two extremes bound every mix of fills between them.
between_extremes :
    (net : ℤ) (bids asks limit b a : ℕ)
    → max (abs (net +ℤ pos bids)) (abs (net -ℤ pos asks)) ≤ limit
    → b ≤ bids
    → a ≤ asks
    → abs (net +ℤ pos b -ℤ pos a) ≤ limit
unfolding ◌+ℤ◌ ◌-ℤ◌
between_extremes net bids asks limit b a h hb ha = ground arith

five_allowed :
    (d e g o b : RiskDecision)
    → all_allowed (d ∷ e ∷ g ∷ o ∷ b ∷ []) ≡ true
    → (d.allowed ≡ true)
      × (e.allowed ≡ true)
      × (g.allowed ≡ true)
      × (o.allowed ≡ true)
      × (b.allowed ≡ true)
unfolding all_allowed
five_allowed d e g o b h = ground arith

module _ {W : Type 0} (c : OrderCommand W) (r : RiskLimits W) where
  position_within :
      c.action ≡ submit
      → (check_symbol_position_limit c r).allowed ≡ true
      → max
          (abs (
            net_lots c.symbol r
            +ℤ pos (working_order_lots c.symbol bid r + command_lots bid (some c))))
          (abs (
            net_lots c.symbol r
            -ℤ pos (working_order_lots c.symbol ask r + command_lots ask (some c))))
        ≤ r.config.max_position_lots_per_symbol
  unfolding check_symbol_position_limit projected_symbol_abs_lots
  position_within e h = ground arith

  slot_free :
      c.action ≡ submit
      → (check_open_order_limit c r).allowed ≡ true
      → length (live_orders (some c.symbol) none r.order_ledger)
        < r.config.max_open_orders_per_symbol
  unfolding check_open_order_limit
  slot_free e h = ground arith

  -- In flatten-only mode the side is the one that closes the position.
  closes_position :
      r.config.flatten_only ≡ true
      → c.action ≢ cancel
      → c.action ≢ flatten
      → (check_flatten_only c r).allowed ≡ true
      → ((ltb_ℤ (pos 0) (net_lots c.symbol r) ≡ true) × (c.side ≡ ask))
        ⊎ ((ltb_ℤ (net_lots c.symbol r) (pos 0) ≡ true) × (c.side ≡ bid))
  unfolding check_flatten_only
  closes_position m nc nf h = ground arith

module _ {W : Type 0} ⦃f : Float W⦄ (c : OrderCommand W) (r : RiskLimits W) where
  decisions :
      is_allowed c r ≡ true
      → ((check_flatten_only c r).allowed ≡ true)
        × ((check_symbol_position_limit c r).allowed ≡ true)
        × ((check_gross_position_limit c r).allowed ≡ true)
        × ((check_open_order_limit c r).allowed ≡ true)
        × ((check_buying_power c r).allowed ≡ true)
  unfolding is_allowed
  decisions h =
      five_allowed (check_flatten_only c r) (check_symbol_position_limit c r)
        (check_gross_position_limit c r) (check_open_order_limit c r) (check_buying_power c r) h

  -- A submission that passes keeps the position within the limit of its symbol whatever part of the
  -- working orders, its own included, is filled on either side; its symbol has a free order slot; and
  -- in flatten-only mode it is on the side that closes the position.
  pub is_allowed-submit :
      c.action ≡ submit
      → is_allowed c r ≡ true
      → ((b a : ℕ)
          → b ≤ working_order_lots c.symbol bid r + command_lots bid (some c)
          → a ≤ working_order_lots c.symbol ask r + command_lots ask (some c)
          → abs (net_lots c.symbol r +ℤ pos b -ℤ pos a) ≤ r.config.max_position_lots_per_symbol)
        × (length (live_orders (some c.symbol) none r.order_ledger)
            < r.config.max_open_orders_per_symbol)
        × (r.config.flatten_only ≡ true
            → ((ltb_ℤ (pos 0) (net_lots c.symbol r) ≡ true) × (c.side ≡ ask))
              ⊎ ((ltb_ℤ (net_lots c.symbol r) (pos 0) ≡ true) × (c.side ≡ bid)))
  is_allowed-submit e h =
      let (flat, position, gross, slots, power) = decisions h in
      (
        λ b a hb ha.
            between_extremes (net_lots c.symbol r) _ _ _ b a (position_within c r e position) hb ha,
        slot_free c r e slots,
        λ m. closes_position c r m (λ k. cc) (λ k. cc) flat,
      )

  -- No limit stops a cancellation.
  pub is_allowed-cancel : c.action ≡ cancel → is_allowed c r ≡ true
  unfolding is_allowed check_flatten_only check_symbol_position_limit check_gross_position_limit
      check_open_order_limit check_buying_power
  is_allowed-cancel e = ground arith
