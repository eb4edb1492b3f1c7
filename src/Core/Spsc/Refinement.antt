-- ===== src/Core/Spsc/Refinement.antt =====
-- Every call of a ring buffer is the call of a bounded FIFO, and so is every run of calls.
use stevehft.Prelude.{◌≡◌, refl, ap, List, [], ◌∷◌, arith}
use stevehft.Core.Spsc.{
  SpscRingBuffer, pop_unlocked, try_push, push_overwrite_oldest, try_pop, drain, step, run,
}
use stevehft.Core.Spsc.Fifo
use stevehft.Core.Spsc.Fifo.{Op, pushes, overwrites, pops, drains}
use stevehft.Core.Spsc.Invariant.{Represents}
use stevehft.Core.Spsc.Methods.{try_push-refines, push_overwrite_oldest-refines, try_pop-refines}
use stevehft.Core.Spsc.Drain.{drain-refines, drain_loop-capacity}

module _ {T : Type 0} where
  -- A call of a buffer that stands for a bounded FIFO gives the FIFO's reply, and leaves a buffer that
  -- stands for the FIFO after the same call.
  pub step-refines :
      (op : Op T) (r : SpscRingBuffer T) (q : List T)
      → Represents r q
      → ((step op r).0 ≡ (Fifo.step r.capacity op q).0)
        × Represents (step op r).1 (Fifo.step r.capacity op q).1
  unfolding step Fifo.step
  step-refines (pushes x) r q v =
      let (same, valid) = try_push-refines x r q v in (ap Fifo.accepted same, valid)
  step-refines (overwrites x) r q v =
      let (same, valid) = push_overwrite_oldest-refines x r q v in (ap Fifo.overwrote same, valid)
  step-refines pops r q v =
      let (same, valid) = try_pop-refines r q v in (ap Fifo.popped same, valid)
  step-refines (drains m) r q v =
      let (same, valid) = drain-refines m r q v in (ap Fifo.drained same, valid)

  pub step-capacity : (op : Op T) (r : SpscRingBuffer T) → (step op r).1.capacity ≡ r.capacity
  unfolding step try_push push_overwrite_oldest try_pop pop_unlocked drain
  step-capacity (pushes x) r = ground arith
  step-capacity (overwrites x) r = ground arith
  step-capacity pops r = ground arith
  step-capacity (drains m) r = drain_loop-capacity r.size m [] r

  -- Whatever is called of a buffer that stands for a FIFO's items, in the order in which the lock is
  -- taken, the replies are those of the FIFO bounded by the capacity that holds the same items.
  pub run-refines :
      (ops : List (Op T)) (r : SpscRingBuffer T) (q : List T)
      → Represents r q
      → run ops r ≡ Fifo.run r.capacity ops q
  unfolding run Fifo.run
  run-refines [] r q v = refl
  run-refines (op ∷ ops) r q v =
      let (same, valid) = step-refines op r q v in
      rw (
        run-refines ops (step op r).1 (Fifo.step r.capacity op q).1 valid,
        step-capacity op r,
        same,
      )
