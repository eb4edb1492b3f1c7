-- ===== src/Execution/Router/Guards.antt =====
-- What the router lets through: the safe mode, the position limit, and repeated commands.
use stevehft.Prelude.{
  ℕ, ◌+◌, ◌≤◌, ◌≡◌, ◌≢◌, ◌⊎◌, inl, inr, refl, ap, ◌∙◌, sym, Bool, true, false, Option, none, some,
  Bool-cases, arith, if◌then◌else◌, string_eq,
}
use stevehft.Prelude.Int.{pos, ◌+ℤ◌, ◌-ℤ◌, abs}
use stevehft.Prelude.Float.{Float}
use stevehft.Execution.Intents.{bid, ask, OrderIntentAction, submit, cancel, flatten, action_eq}
use stevehft.Execution.Orders.{OrderCommand}
use stevehft.Execution.Ledger.{OrderLedger}
use stevehft.Execution.Router.{
  blocked_by, sync_limits, checked, Trader, RouterLimits, OrderRouter, done, limits_of, synced,
  reduces_risk, preflight_allows,
}
use stevehft.Execution.Router.Actions.{apply, route}
use stevehft.Risk.KillSwitch.{kill_switch, KillSwitchController, blocks}
use stevehft.Risk.Limits.{is_allowed, net_lots, working_order_lots, command_lots}
use stevehft.Risk.Limits.Exposure.{is_allowed-submit}

kill_switch_blocks :
    (a : OrderIntentAction) (reduces : Bool)
    → a ≢ cancel
    → a ≢ flatten
    → blocks kill_switch a reduces ≡ true
unfolding blocks
kill_switch_blocks a reduces nc nf = ground arith

module _ {W : Type 0} ⦃f : Float W⦄ (c : OrderCommand W) where
  allowed_of :
      (l : OrderLedger W) (blocked : Bool) (k : Option KillSwitchController)
      (limits : Option (RouterLimits W)) (r : RouterLimits W)
      → limits ≡ some r
      → (if blocked then false else checked c (sync_limits blocked k limits) l) ≡ true
      → is_allowed c (limits_of (synced k r) l) ≡ true
  allowed_of l true k limits r e h = absurd (ground arith)
  allowed_of l false k limits r e h = ap (λ q. checked c (sync_limits false k q) l) (sym e) ∙ h

  within_synced :
      (r : RouterLimits W) (l : OrderLedger W) (k : Option KillSwitchController)
      → c.action ≡ submit
      → is_allowed c (limits_of (synced k r) l) ≡ true
      → (b a : ℕ) → b ≤ working_order_lots c.symbol bid (limits_of r l) + command_lots bid (some c)
      → a ≤ working_order_lots c.symbol ask (limits_of r l) + command_lots ask (some c)
      → abs (net_lots c.symbol (limits_of r l) +ℤ pos b -ℤ pos a)
        ≤ r.config.max_position_lots_per_symbol
  unfolding net_lots working_order_lots
  within_synced r l none h q b a hb ha = (is_allowed-submit c (limits_of r l) h q).0 b a hb ha
  within_synced r l (some k) h q b a hb ha =
      (is_allowed-submit c (limits_of (synced (some k) r) l) h q).0 b a hb ha

module _ {T W : Type 0} ⦃f : Float W⦄ (tr : Trader T W) (c : OrderCommand W)
    (s : OrderRouter T W) where
  apply_blocked :
      blocked_by s.kill_switch c.action (reduces_risk c s) ≡ true → apply tr c s ≡ (done, s)
  unfolding apply preflight_allows
  apply_blocked h = rw h refl

  preflight_allows_state :
      ((preflight_allows c s).1.trader ≡ s.trader)
      × ((preflight_allows c s).1.order_ledger ≡ s.order_ledger)
  unfolding preflight_allows
  preflight_allows_state = (refl, refl)

  apply_refused :
      (preflight_allows c s).0 ≡ false
      → ((apply tr c s).1.trader ≡ s.trader) × ((apply tr c s).1.order_ledger ≡ s.order_ledger)
  unfolding apply
  apply_refused h =
      let (allowed, after) = preflight_allows c s in
      let e = ap (λ b. if b then route tr c.action c after else (done, after)) h in
      (
        ap (λ q. q.1.trader) e ∙ preflight_allows_state.0,
        ap (λ q. q.1.order_ledger) e ∙ preflight_allows_state.1,
      )

  allowed_synced :
      (r : RouterLimits W)
      → s.risk_limits ≡ some r
      → (preflight_allows c s).0 ≡ true
      → is_allowed c (limits_of (synced s.kill_switch r) s.order_ledger) ≡ true
  unfolding preflight_allows
  allowed_synced r e h =
      allowed_of c s.order_ledger (blocked_by s.kill_switch c.action (reduces_risk c s))
        s.kill_switch s.risk_limits r e h

  -- In the mode `kill_switch` a command that neither cancels nor flattens does nothing at all: the
  -- broker is not called, and the ledger and the limits stay as they are.
  pub apply_kill_switch :
      (k : KillSwitchController)
      → s.kill_switch ≡ some k
      → k.mode ≡ kill_switch
      → c.action ≢ cancel
      → c.action ≢ flatten
      → apply tr c s ≡ (done, s)
  apply_kill_switch k e m nc nf = apply_blocked (
      ap (λ q. blocked_by q c.action (reduces_risk c s)) e
      ∙ ap (λ q. blocks q c.action (reduces_risk c s)) m
      ∙ kill_switch_blocks c.action (reduces_risk c s) nc nf)

  -- A submission either leaves the broker and the ledger alone or, where there are risk limits, keeps
  -- its symbol's position within the limit whatever part of the working orders, its own included, is
  -- filled on either side.
  pub apply_submit_within :
      (r : RouterLimits W)
      → s.risk_limits ≡ some r
      → c.action ≡ submit
      → (((apply tr c s).1.trader ≡ s.trader) × ((apply tr c s).1.order_ledger ≡ s.order_ledger))
        ⊎ ((b a : ℕ)
            → b
              ≤ working_order_lots c.symbol bid (limits_of r s.order_ledger)
                + command_lots bid (some c)
            → a
              ≤ working_order_lots c.symbol ask (limits_of r s.order_ledger)
                + command_lots ask (some c)
            → abs (net_lots c.symbol (limits_of r s.order_ledger) +ℤ pos b -ℤ pos a)
              ≤ r.config.max_position_lots_per_symbol)
  apply_submit_within r e h = elim (Bool-cases (preflight_allows c s).0) [
    | inl t ↦ inr (within_synced c r s.order_ledger s.kill_switch h (allowed_synced r e t))
    | inr t ↦ inl (apply_refused t)
  ]
