-- ===== src/Risk/Tests.antt =====
-- Concrete runs of the safe modes, and the theorems at them.
use stevehft.Prelude.{◌≡◌, refl, inl, true, List, [], ◌∷◌, arith}
use stevehft.Prelude.Int.{pos}
use stevehft.Risk.KillSwitch.{
  SafeModeConfig, ReconciliationHealth, KillSwitchController, normal, degraded_reconcile,
  flatten_only, kill_switch, derive_mode, update,
}
use stevehft.Risk.KillSwitch.Modes.{run, run-flatten_only, degraded_spell, Poll}

abbrev limits : SafeModeConfig
limits = record {
  max_waiting_list_staleness_ms = 2000;
  max_portfolio_staleness_ms = 2000;
  max_position_mismatch_lots = 1;
  max_degraded_duration_ms = 10_000;
}

abbrev stale : ReconciliationHealth
stale = record {
  waiting_list_stale_ms = pos 2500;
  portfolio_stale_ms = pos 0;
  position_mismatch_lots = pos 0;
  broker_connected = true;
}

abbrev start : KillSwitchController
start = record { config = limits; mode = normal; degraded_entered_ts_ns = 0 }

abbrev tired : KillSwitchController
tired = record start { mode = flatten_only }

stale_mode : derive_mode limits stale ≡ degraded_reconcile
unfolding derive_mode
stale_mode = refl

abbrev long_spell : List Poll
long_spell = (stale, 5_000_000_000) ∷ (stale, 12_000_000_000) ∷ []

degraded_spell_example : (run start ((stale, 1_000_000_000) ∷ long_spell)).mode ≡ flatten_only
degraded_spell_example =
    degraded_spell stale 1_000_000_000 long_spell start (omega arith) (inl refl)
      (stale_mode, (stale_mode, (stale_mode, tt)))

run-flatten_only_example : (run tired long_spell).mode ≡ flatten_only
run-flatten_only_example = run-flatten_only long_spell tired refl (stale_mode, (stale_mode, tt))

-- The broker is back, and `kill_switch` is left.
cleared : (run (record start { mode = kill_switch }) ((stale, 5) ∷ [])).mode ≡ degraded_reconcile
unfolding run update derive_mode
cleared = refl
