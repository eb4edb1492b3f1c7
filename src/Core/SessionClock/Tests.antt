-- ===== src/Core/SessionClock/Tests.antt =====
-- A day from 9:30 to 16:00.
use stevehft.Prelude.{ℕ, ◌*◌, ◌<◌, ◌≡◌, ◌↔◌, refl, true}
use stevehft.Execution.Samples.{whole}
use stevehft.Core.SessionClock.{SessionConfig, SessionProgress, session_close, snapshot}
use stevehft.Core.SessionClock.Phases.{snapshot_open}

abbrev hour : ℕ
hour = 3_600_000_000

abbrev config : SessionConfig
config = record {
  session_open_local = 34_200_000_000;
  session_close_local = 16 * hour;
  min_trades_per_day = 200;
  flatten_start_minutes_to_close = 30;
  warmup_minutes_at_open = 15;
}

abbrev at_noon : SessionProgress ℕ
at_noon = snapshot config (12 * hour)

snapshot_open_example :
    (at_noon.is_session_open ≡ true
      ↔ (at_noon.session_open_local < 12 * hour × (12 * hour < at_noon.session_close_local)))
    × (at_noon.in_warmup ≡ true → at_noon.is_session_open ≡ true)
    × (at_noon.flatten_only_mode ≡ true → at_noon.is_session_open ≡ true)
snapshot_open_example = snapshot_open ℕ config (12 * hour)

open_at_noon : at_noon.is_session_open ≡ true
unfolding snapshot session_close
open_at_noon = refl
