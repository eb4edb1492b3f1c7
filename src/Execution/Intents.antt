-- ===== src/Execution/Intents.antt =====
-- src/execution/order_state.py: the enumerations of sides, intents and liquidity, with their tests.
use stevehft.Prelude.{◌≡◌, ◌↔◌, Bool, true, false, arith, Eq}

pub data OrderSide : Type 0 where
  bid ask : OrderSide

pub data OrderIntentAction : Type 0 where
  keep submit cancel replace flatten : OrderIntentAction

pub data OrderLiquidity : Type 0 where
  limit market unknown : OrderLiquidity

abbrev side_beq : OrderSide → OrderSide → Bool
side_beq bid bid = true
side_beq ask ask = true
side_beq _ _ = false

pub side_beq_iff : (a b : OrderSide) → (side_beq a b ≡ true) ↔ (a ≡ b)
side_beq_iff a b = ground arith

instance abbrev pub side_eq : Eq OrderSide
side_eq = record { equals = side_beq; equals_iff = side_beq_iff }

abbrev liquidity_beq : OrderLiquidity → OrderLiquidity → Bool
liquidity_beq limit limit = true
liquidity_beq market market = true
liquidity_beq unknown unknown = true
liquidity_beq _ _ = false

pub liquidity_beq_iff : (a b : OrderLiquidity) → (liquidity_beq a b ≡ true) ↔ (a ≡ b)
liquidity_beq_iff a b = ground arith

instance abbrev pub liquidity_eq : Eq OrderLiquidity
liquidity_eq = record { equals = liquidity_beq; equals_iff = liquidity_beq_iff }

abbrev action_beq : OrderIntentAction → OrderIntentAction → Bool
action_beq keep keep = true
action_beq submit submit = true
action_beq cancel cancel = true
action_beq replace replace = true
action_beq flatten flatten = true
action_beq _ _ = false

pub action_beq_iff : (a b : OrderIntentAction) → (action_beq a b ≡ true) ↔ (a ≡ b)
action_beq_iff a b = ground arith

instance abbrev pub action_eq : Eq OrderIntentAction
action_eq = record { equals = action_beq; equals_iff = action_beq_iff }
