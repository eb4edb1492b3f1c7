-- ===== src/Risk/KillSwitch/Modes.antt =====
-- How the safe mode moves over a history of polls, and what each mode lets through.
use stevehft.Prelude.{
  ℕ, ◌+◌, ◌*◌, ◌<◌, ◌≡◌, ◌≢◌, refl, ◌↔◌, ◌⊎◌, inl, inr, Bool, true, false, none, List, [], ◌∷◌,
  arith, ltb, if◌then◌else◌, Bool-cases, any,
}
use stevehft.Execution.Intents.{OrderIntentAction, submit, cancel, replace, flatten}
use stevehft.Risk.KillSwitch.{
  SafeMode, normal, degraded_reconcile, position_mismatch, flatten_only, kill_switch,
  SafeModeConfig, ReconciliationHealth, KillSwitchController, derive_mode, update, blocks,
}

-- What the modes block. A command that adds risk passes only in `normal` if it is a submission, and
-- in no mode above `degraded_reconcile` if it is a replacement; one that reduces risk is stopped
-- only by `kill_switch`, and a cancellation by none.
pub blocks_lem :
    (m : SafeMode)
    → ((blocks m submit false ≡ false) ↔ (m ≡ normal))
      × ((blocks m replace false ≡ false) ↔ ((m ≡ normal) ⊎ (m ≡ degraded_reconcile)))
      × ((blocks m flatten false ≡ false) ↔ (m ≢ position_mismatch))
      × ((a : OrderIntentAction)
          → (blocks m a true ≡ true) ↔ ((m ≡ kill_switch) × (a ≢ cancel) × (a ≢ flatten)))
      × ((r : Bool) → blocks m cancel r ≡ false)
unfolding blocks
blocks_lem normal = (ground arith, ground arith, ground arith, λ a. ground arith, λ r. refl)
blocks_lem _ = (ground arith, ground arith, ground arith, λ a. ground arith, λ r. ground arith)

-- A poll's health and the time at which it is read.
abbrev pub Poll : Type 0
Poll = ReconciliationHealth × ℕ

unfoldable pub run : KillSwitchController → List Poll → KillSwitchController
run k [] = k
run k ((health, ts_ns) ∷ polls) = run (update health none ts_ns k) polls

derive_mode-disconnected :
    (c : SafeModeConfig) (h : ReconciliationHealth)
    → h.broker_connected ≡ false
    → derive_mode c h ≡ kill_switch
unfolding derive_mode
derive_mode-disconnected c h e = ground arith

-- One poll, whatever went before: a broker that is gone stops everything, health that is not
-- degraded sets its own mode and ends a degraded spell, and degraded health leads to no mode but
-- `degraded_reconcile` and `flatten_only`.
pub update_lem :
    (h : ReconciliationHealth) (ts : ℕ) (k : KillSwitchController)
    → (h.broker_connected ≡ false → (update h none ts k).mode ≡ kill_switch)
      × (derive_mode k.config h ≢ degraded_reconcile
          → ((update h none ts k).mode ≡ derive_mode k.config h)
            × ((update h none ts k).degraded_entered_ts_ns ≡ 0))
      × (derive_mode k.config h ≡ degraded_reconcile
          → ((update h none ts k).mode ≡ degraded_reconcile)
            ⊎ ((update h none ts k).mode ≡ flatten_only))
unfolding update
update_lem h ts k = (
  λ gone. ground (arith, derive_mode-disconnected k.config h),
  λ other. ground arith,
  λ degraded. ground arith,
)

-- The spell's time is set only while the mode is `degraded_reconcile` or has come from there.
abbrev pub IsConsistent : KillSwitchController → Type 0
IsConsistent k =
    (k.mode ≡ degraded_reconcile) ⊎ (k.mode ≡ flatten_only) ⊎ (k.degraded_entered_ts_ns ≡ 0)

update-IsConsistent :
    (h : ReconciliationHealth) (ts : ℕ) (k : KillSwitchController)
    → IsConsistent (update h none ts k)
unfolding update
update-IsConsistent h ts k = ground arith

-- Every poll has degraded health.
abbrev pub IsDegraded : SafeModeConfig → List Poll → Type 0
IsDegraded c [] = Unit {0}
IsDegraded c ((h, ts) ∷ polls) = (derive_mode c h ≡ degraded_reconcile) × IsDegraded c polls

stays_flatten_only :
    (h : ReconciliationHealth) (ts : ℕ) (k : KillSwitchController)
    → k.mode ≡ flatten_only
    → derive_mode k.config h ≡ degraded_reconcile
    → (update h none ts k).mode ≡ flatten_only
unfolding update
stays_flatten_only h ts k m d = ground arith

-- Once in `flatten_only`, degraded health never leads out of it.
pub run-flatten_only :
    (polls : List Poll) (k : KillSwitchController)
    → k.mode ≡ flatten_only
    → IsDegraded k.config polls
    → (run k polls).mode ≡ flatten_only
unfolding run update
run-flatten_only [] k m d = m
run-flatten_only ((h, ts) ∷ polls) k m d =
    run-flatten_only polls (update h none ts k) (stays_flatten_only h ts k m d.0) d.1

-- The poll comes after the longest spell that the configuration allows.
abbrev pub is_late : ℕ → ℕ → Poll → Bool
is_late entered limit_ms poll = ltb (entered + limit_ms * 1_000_000) poll.1

spell_step :
    (h : ReconciliationHealth) (ts entered : ℕ) (k : KillSwitchController)
    → 0 < entered
    → k.mode ≡ degraded_reconcile
    → k.degraded_entered_ts_ns ≡ entered
    → derive_mode k.config h ≡ degraded_reconcile
    → ((update h none ts k).mode ≡ (
        if is_late entered k.config.max_degraded_duration_ms (h, ts)
        then flatten_only
        else degraded_reconcile))
      × ((update h none ts k).degraded_entered_ts_ns ≡ entered)
unfolding update
spell_step h ts entered k p m e d = ground arith

run-spell :
    (polls : List Poll) (entered : ℕ) (k : KillSwitchController)
    → 0 < entered
    → k.mode ≡ degraded_reconcile
    → k.degraded_entered_ts_ns ≡ entered
    → IsDegraded k.config polls
    → (run k polls).mode ≡ (
        if any (is_late entered k.config.max_degraded_duration_ms) polls
        then flatten_only
        else degraded_reconcile)
unfolding run update
run-spell [] entered k p m e d = m
run-spell ((h, ts) ∷ polls) entered k p m e (d, ds) =
    let (mode, same) = spell_step h ts entered k p m e d in
    elim (Bool-cases (is_late entered k.config.max_degraded_duration_ms (h, ts))) [
      | inl late ↦ rw late (run-flatten_only polls (update h none ts k) (rw late at mode) ds)
      | inr early ↦
          rw early (run-spell polls entered (update h none ts k) p (rw early at mode) same ds)
    ]

spell_start :
    (h : ReconciliationHealth) (ts : ℕ) (k : KillSwitchController)
    → (k.mode ≡ normal) ⊎ (k.mode ≡ position_mismatch)
    → derive_mode k.config h ≡ degraded_reconcile
    → ((update h none ts k).mode ≡ degraded_reconcile)
      × ((update h none ts k).degraded_entered_ts_ns ≡ ts)
unfolding update
spell_start h ts k m d = ground arith

-- A spell of degraded health that begins at `ts` in `normal` or `position_mismatch` ends in
-- `flatten_only` if one of its later polls comes after the allowed duration, and in
-- `degraded_reconcile` if none does.
pub degraded_spell :
    (h : ReconciliationHealth) (ts : ℕ) (polls : List Poll) (k : KillSwitchController)
    → 0 < ts
    → (k.mode ≡ normal) ⊎ (k.mode ≡ position_mismatch)
    → IsDegraded k.config ((h, ts) ∷ polls)
    → (run k ((h, ts) ∷ polls)).mode ≡ (
        if any (is_late ts k.config.max_degraded_duration_ms) polls
        then flatten_only
        else degraded_reconcile)
unfolding run update
degraded_spell h ts polls k p m (d, ds) =
    let (mode, same) = spell_start h ts k m d in
    run-spell polls ts (update h none ts k) p mode same ds
