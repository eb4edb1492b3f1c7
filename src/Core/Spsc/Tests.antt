-- ===== src/Core/Spsc/Tests.antt =====
-- A buffer of three slots whose window goes round the end, and the theorems at it.
use stevehft.Prelude.{ℕ, ◌≡◌, refl, true, false, none, some, List, [], ◌∷◌, arith}
use stevehft.Core.Spsc.{SpscRingBuffer, run}
use stevehft.Core.Spsc.Fifo
use stevehft.Core.Spsc.Fifo.{
  Op, Reply, is_produced, pushes, overwrites, pops, drains, accepted, overwrote, popped, drained,
}
use stevehft.Core.Spsc.Invariant.{Represents}
use stevehft.Core.Spsc.Refinement.{run-refines}
use stevehft.Core.Spsc.Waiting.{Round, returned, deadline_ns, wait_pop}
use stevehft.Core.Spsc.Waiting.Ended.{WaitsAs, wait_items, IsEnded, wait_pop-IsEnded}
use stevehft.Prelude.Int.{ℤ, pos, ◌-ℤ◌, ◌+ℤ◌}
use stevehft.Data.Samples.{signed}

-- 8 and then 9, round the end.
abbrev wrapped : SpscRingBuffer ℕ
wrapped = record {
  capacity = 3;
  buffer = some 9 ∷ none ∷ some 8 ∷ [];
  head = 2;
  tail = 1;
  size = 2;
  write_seq = 7;
  read_seq = 5;
}

abbrev script : List (Op ℕ)
script = pushes 1 ∷ pushes 2 ∷ overwrites 3 ∷ pops ∷ drains (some 1) ∷ drains none ∷ pops ∷ []

wrapped-Represents : Represents wrapped (8 ∷ 9 ∷ [])
wrapped-Represents = record {
  room = refl;
  head_in = omega arith;
  len = refl;
  len_in = omega arith;
  tail_at = refl;
  seq = refl;
  holds = (refl, (refl, tt));
}

run-wrapped :
    run script wrapped
    ≡ accepted true
      ∷ accepted false
      ∷ overwrote true
      ∷ popped (some 9)
      ∷ drained (1 ∷ [])
      ∷ drained (3 ∷ [])
      ∷ popped none
      ∷ []
unfolding run
run-wrapped = refl

run-refines_example : run script wrapped ≡ Fifo.run 3 script (8 ∷ 9 ∷ [])
run-refines_example = run-refines script wrapped (8 ∷ 9 ∷ []) wrapped-Represents

abbrev vacant : SpscRingBuffer ℕ
vacant = record {
  capacity = 2;
  buffer = none ∷ none ∷ [];
  head = 1;
  tail = 1;
  size = 0;
  write_seq = 3;
  read_seq = 3;
}

vacant-Represents : Represents vacant []
vacant-Represents = record {
  room = refl;
  head_in = omega arith;
  len = refl;
  len_in = omega arith;
  tail_at = refl;
  seq = refl;
  holds = tt;
}

-- A wait that ends for no reason, and one with a push.
abbrev rounds : List (Round ℕ)
rounds = record { now_ns = 20; calls = [] } ∷ record { now_ns = 30; calls = pushes 4 ∷ [] } ∷ []

wait_pop-IsEnded_example :
    WaitsAs
      (wait_pop {W = ℤ} (some (pos 5)) 10 rounds vacant)
      (wait_items {W = ℤ} 2 (deadline_ns (some (pos 5)) 10) rounds [])
    × IsEnded
        (deadline_ns {W = ℤ} (some (pos 5)) 10)
        (wait_items 2 (deadline_ns (some (pos 5)) 10) rounds [])
unfolding is_produced ◌-ℤ◌ ◌+ℤ◌
wait_pop-IsEnded_example =
    wait_pop-IsEnded {W = ℤ} (some (pos 5)) 10 rounds vacant [] vacant-Represents
      (tt, ((refl, tt), tt)) refl

wait_pop-vacant : (wait_pop {W = ℤ} (some (pos 5)) 10 rounds vacant).0 ≡ returned (some 4)
unfolding wait_pop ◌-ℤ◌ ◌+ℤ◌
wait_pop-vacant = refl
