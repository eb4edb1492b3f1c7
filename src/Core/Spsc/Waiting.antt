-- ===== src/Core/Spsc/Waiting.antt =====
-- src/core/concurrency/spsc.py, `wait_pop`: the consumer waits on the condition until there is an item
-- or the time is over. The wait releases the lock, so other calls run before the consumer wakes up,
-- also for no reason; which calls and what the clock shows is an argument.
pub mod Ended
use stevehft.Prelude.{ℕ, Bool, false, Option, none, some, List, [], ◌∷◌, leb, if◌then◌else◌}
use stevehft.Prelude.Float.{Float, nought, not_pos, add, sub, mul, div, max_f, decimal, of_ℕ}
use stevehft.Core.Spsc.{SpscRingBuffer, pop_unlocked, step}
use stevehft.Core.Spsc.Fifo.{Op}

-- A round of the loop: what the clock showed, and the calls that ran during the wait.
pub record Round (T : Type 0) : Type 0 where
  pub now_ns : ℕ
  pub calls : List (Op T)

-- At the end of the rounds the consumer is still waiting, or `wait_pop` has returned.
pub data Outcome (T : Type 0) : Type 0 where
  waiting : Outcome T
  returned : Option T → Outcome T

module _ {T : Type 0} where
  unfoldable pub after : List (Op T) → SpscRingBuffer T → SpscRingBuffer T
  unfolding step
  after [] r = r
  after (op ∷ ops) r = after ops (step op r).1

  abbrev pub got : Option T × SpscRingBuffer T → Outcome T × SpscRingBuffer T
  got (item, r) = (returned item, r)

module _ {W : Type 0} ⦃f : Float W⦄ where
  abbrev pub deadline_ns : Option W → ℕ → Option W
  deadline_ns none now_ns = none
  deadline_ns (some timeout_s) now_ns =
      some (add (of_ℕ now_ns) (mul (max_f timeout_s nought) (decimal 1_000_000_000 0)))

  abbrev pub remaining_s : W → ℕ → W
  remaining_s deadline now_ns =
      max_f (div (sub deadline (of_ℕ now_ns)) (decimal 1_000_000_000 0)) nought

  abbrev pub is_over : Option W → ℕ → Bool
  is_over none now_ns = false
  is_over (some deadline) now_ns = not_pos (remaining_s deadline now_ns)

module _ {T W : Type 0} ⦃f : Float W⦄ where
  unfoldable pub wait_loop :
      Option W → List (Round T) → SpscRingBuffer T → Outcome T × SpscRingBuffer T
  unfolding pop_unlocked after
  wait_loop deadline [] r = if leb r.size 0 then (waiting, r) else got (pop_unlocked r)
  wait_loop deadline (round ∷ rounds) r =
      let rest = wait_loop deadline rounds (after round.calls r) in
      if leb r.size 0
      then (if is_over deadline round.now_ns then (returned none, r) else rest)
      else got (pop_unlocked r)

  unfoldable pub wait_pop :
      Option W → ℕ → List (Round T) → SpscRingBuffer T → Outcome T × SpscRingBuffer T
  unfolding wait_loop
  wait_pop timeout_s now_ns rounds r = wait_loop (deadline_ns timeout_s now_ns) rounds r
