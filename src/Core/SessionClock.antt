-- ===== src/Core/SessionClock.antt =====
-- src/core/session_clock.py: where the trading day stands. A local time is a count of microseconds on
-- the session's wall clock, as Python subtracts and compares two times of one time zone; the clock and
-- the time zone give it. The opening and the closing are times of the day.
pub mod Phases
mod Tests
use stevehft.Prelude.{ℕ, ◌+◌, ◌-◌, ◌*◌, ◌/◌, Bool, true, false, ◌&&◌, leb, if◌then◌else◌}
use stevehft.Prelude.Float.{Float, nought, div, mul, le, lt, max_f, of_ℕ, decimal}

-- The fields of `StrategyConfig` and `RiskConfig` (src/core/config.py) that the clock reads.
pub record SessionConfig : Type 0 where
  pub session_open_local : ℕ
  pub session_close_local : ℕ
  pub min_trades_per_day : ℕ
  pub flatten_start_minutes_to_close : ℕ
  pub warmup_minutes_at_open : ℕ

pub record SessionProgress (W : Type 0) : Type 0 where
  pub now_local : ℕ
  pub session_open_local : ℕ
  pub session_close_local : ℕ
  pub is_session_open : Bool
  pub elapsed_fraction : W
  pub minutes_to_close : W
  pub session_length_minutes : W
  pub expected_trades_so_far : W
  pub flatten_only_mode : Bool
  pub flatten_window_minutes : ℕ
  pub in_warmup : Bool
  pub minutes_since_open : W
  pub warmup_minutes : ℕ

-- Microseconds of a day.
abbrev pub day : ℕ
day = 86_400_000_000

-- `datetime.combine(now_local.date(), time)`
abbrev pub on_day_of : ℕ → ℕ → ℕ
on_day_of now_local time = now_local / day * day + time

unfoldable pub session_close : SessionConfig → ℕ → ℕ
session_close c now_local =
    if leb (on_day_of now_local c.session_close_local) (on_day_of now_local c.session_open_local)
    then on_day_of now_local c.session_close_local + day
    else on_day_of now_local c.session_close_local

-- Before the opening, after the closing and between the two.
abbrev phase {ℓ} : {A : Type ℓ} → ℕ → ℕ → ℕ → A → A → A → A
phase now opens closes before after during =
    if leb now opens then before else if leb closes now then after else during

module _ {W : Type 0} ⦃f : Float W⦄ where
  -- `total_seconds()`
  abbrev seconds : ℕ → W
  seconds us = div (of_ℕ us) (of_ℕ 1_000_000)

  abbrev minutes : ℕ → W
  minutes us = div (seconds us) (decimal 60 0)

  unfoldable pub snapshot : SessionConfig → ℕ → SessionProgress W
  unfolding session_close
  snapshot c now =
      let opens = on_day_of now c.session_open_local in
      let closes = session_close c now in
      let total_seconds = max_f (seconds (closes - opens)) (decimal 1 0) in
      let is_open = phase now opens closes false false true in
      let elapsed_fraction =
        phase now opens closes nought (decimal 1 0) (div (seconds (now - opens)) total_seconds) in
      let minutes_to_close =
        phase now opens closes (minutes (closes - opens)) nought (minutes (closes - now)) in
      let minutes_since_open = if is_open then minutes (now - opens) else nought in
      record {
        now_local = now;
        session_open_local = opens;
        session_close_local = closes;
        is_session_open = is_open;
        elapsed_fraction = elapsed_fraction;
        minutes_to_close = minutes_to_close;
        session_length_minutes = div total_seconds (decimal 60 0);
        expected_trades_so_far = mul (of_ℕ c.min_trades_per_day) elapsed_fraction;
        flatten_only_mode = is_open && le minutes_to_close (of_ℕ c.flatten_start_minutes_to_close);
        flatten_window_minutes = c.flatten_start_minutes_to_close;
        in_warmup = is_open && lt minutes_since_open (of_ℕ c.warmup_minutes_at_open);
        minutes_since_open = minutes_since_open;
        warmup_minutes = c.warmup_minutes_at_open;
      }
