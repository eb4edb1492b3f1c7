-- ===== src/Core/SessionClock/Phases.antt =====
-- src/core/session_clock.py: when the session is open.
use stevehft.Prelude.{ℕ, ◌%◌, ◌<◌, ◌≡◌, ◌↔◌, true, arith}
use stevehft.Prelude.Float.{Float}
use stevehft.Core.SessionClock.{SessionConfig, day, session_close, snapshot}

module _ (W : Type 0) ⦃f : Float W⦄ where
  -- The session is open between its opening and its closing, and only then is there a warm-up, or
  -- nothing but flattening.
  pub snapshot_open :
      (c : SessionConfig) (now : ℕ)
      → ((snapshot {W = W} c now).is_session_open ≡ true ↔ (
          (snapshot {W = W} c now).session_open_local < now
          × (now < (snapshot {W = W} c now).session_close_local)))
        × ((snapshot {W = W} c now).in_warmup ≡ true
            → (snapshot {W = W} c now).is_session_open ≡ true)
        × ((snapshot {W = W} c now).flatten_only_mode ≡ true
            → (snapshot {W = W} c now).is_session_open ≡ true)
  unfolding snapshot
  snapshot_open c now = (ground arith, ground arith, ground arith)

  -- A session within a day is open at the times of the day between the two.
  pub classify_day :
      (c : SessionConfig) (now : ℕ)
      → c.session_open_local < c.session_close_local
      → (snapshot {W = W} c now).is_session_open ≡ true
        ↔ (c.session_open_local < now % day × (now % day < c.session_close_local))
  unfolding snapshot session_close
  classify_day c now within = ground arith
