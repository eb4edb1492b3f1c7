-- ===== src/Risk/KillSwitch.antt =====
-- src/risk/kill_switch.py: the safe mode, how reconciliation health moves it, and what it blocks.
-- A delay in nanoseconds against a limit in milliseconds is compared as a product, `limit * 10 ^ 6`,
-- which is what the quotient of the code compares while the limit is below 2 ^ 33 ms.
pub mod Modes
use stevehft.Prelude.{
  ℕ, ◌+◌, ◌*◌, Bool, true, false, not, ◌&&◌, ◌||◌, Option, none, some, List, [], ◌∷◌, ltb, ◌==◌,
  nat_eq, if◌then◌else◌,
}
use stevehft.Prelude.Int.{ℤ, abs}
use stevehft.Execution.Intents.{
  OrderIntentAction, keep, submit, cancel, replace, flatten, action_eq,
}

pub data SafeMode : Type 0 where
  normal degraded_reconcile position_mismatch flatten_only kill_switch : SafeMode

pub record SafeModeConfig : Type 0 where
  pub max_waiting_list_staleness_ms : ℕ
  pub max_portfolio_staleness_ms : ℕ
  pub max_position_mismatch_lots : ℕ
  pub max_degraded_duration_ms : ℕ

pub record ReconciliationHealth : Type 0 where
  pub waiting_list_stale_ms : ℤ
  pub portfolio_stale_ms : ℤ
  pub position_mismatch_lots : ℤ
  pub broker_connected : Bool

pub record KillSwitchController : Type 0 where
  pub config : SafeModeConfig
  pub mode : SafeMode
  pub degraded_entered_ts_ns : ℕ

-- `KillSwitchController.__init__`
unfoldable pub init : SafeModeConfig → KillSwitchController
init config = record { config = config; mode = normal; degraded_entered_ts_ns = 0 }

-- `stale_ms > limit` for a limit that is not negative.
abbrev pub is_over : ℤ → ℕ → Bool
is_over (ℤ.pos n) limit = ltb limit n
is_over (ℤ.negsuc n) limit = false

unfoldable pub derive_mode : SafeModeConfig → ReconciliationHealth → SafeMode
derive_mode c h =
    if not h.broker_connected
    then kill_switch
    else if ltb c.max_position_mismatch_lots (abs h.position_mismatch_lots)
    then position_mismatch
    else if is_over h.waiting_list_stale_ms c.max_waiting_list_staleness_ms
        || is_over h.portfolio_stale_ms c.max_portfolio_staleness_ms
    then degraded_reconcile
    else normal

-- `flatten_only` is left by recovery or by something worse, never for `degraded_reconcile`.
abbrev pub held : SafeMode → SafeMode → SafeMode
held flatten_only degraded_reconcile = flatten_only
held previous next = next

-- The mode after the escalation of a long degraded spell, and the time at which the spell began.
unfoldable pub escalate : SafeMode → SafeMode → ℕ → ℕ → ℕ → SafeMode × ℕ
escalate degraded_reconcile degraded_reconcile limit_ms entered ts_ns =
    if ltb 0 entered && ltb (entered + limit_ms * 1_000_000) ts_ns
    then (flatten_only, entered)
    else (degraded_reconcile, entered)
escalate previous degraded_reconcile limit_ms entered ts_ns = (degraded_reconcile, ts_ns)
escalate previous next limit_ms entered ts_ns = (next, 0)

-- `now_ns or time.monotonic_ns()`: 0 counts as missing.
abbrev pub or_clock : Option ℕ → ℕ → ℕ
or_clock none clock = clock
or_clock (some now_ns) clock = if now_ns == 0 then clock else now_ns

unfoldable pub update :
    ReconciliationHealth → Option ℕ → ℕ → KillSwitchController → KillSwitchController
unfolding escalate
update health now_ns clock k =
    let ts_ns = or_clock now_ns clock in
    let next = held k.mode (derive_mode k.config health) in
    let (mode, entered) =
      escalate k.mode next k.config.max_degraded_duration_ms k.degraded_entered_ts_ns ts_ns in
    record k { mode = mode; degraded_entered_ts_ns = entered }

unfoldable pub blocks : SafeMode → OrderIntentAction → Bool → Bool
blocks normal action reduces_risk = false
blocks degraded_reconcile action reduces_risk = action == submit && not reduces_risk
blocks position_mismatch action reduces_risk = if action == cancel then false else not reduces_risk
blocks flatten_only action reduces_risk =
    if action == cancel then false else not reduces_risk && not (action == flatten)
blocks kill_switch action reduces_risk = not (action == cancel || action == flatten)
