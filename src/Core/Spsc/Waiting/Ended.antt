-- ===== src/Core/Spsc/Waiting/Ended.antt =====
-- `wait_pop` comes to an end when the time is over or the producer has put an item in.
use stevehft.Prelude.{
  ℕ, ◌<◌, ◌≡◌, ◌≢◌, refl, ap, ◌∙◌, subst, Bool, true, false, ◌||◌, Option, none, some, List, [],
  ◌∷◌, length, length-append, drop, any, All, leb, ltb, arith, Bool-cases, inl, inr, if◌then◌else◌,
}
use stevehft.Prelude.Float.{Float}
use stevehft.Core.Spsc.{SpscRingBuffer, pop_unlocked, step}
use stevehft.Core.Spsc.Fifo
use stevehft.Core.Spsc.Fifo.{Op, pushes, overwrites, pops, drains, is_produced}
use stevehft.Core.Spsc.Invariant.{Represents}
use stevehft.Core.Spsc.Methods.{pop_unlocked-Represents}
use stevehft.Core.Spsc.Refinement.{step-refines, step-capacity}
use stevehft.Core.Spsc.Waiting.{
  Round, Outcome, waiting, returned, after, got, deadline_ns, is_over, wait_loop, wait_pop,
}

module _ {T : Type 0} where
  after-refines :
      (ops : List (Op T)) (r : SpscRingBuffer T) (q : List T)
      → Represents r q
      → Represents (after ops r) (Fifo.after r.capacity ops q)
  unfolding after Fifo.after
  after-refines [] r q v = v
  after-refines (op ∷ ops) r q v =
      let q' = (Fifo.step r.capacity op q).1 in
      subst (λ c. Represents (after ops (step op r).1) (Fifo.after c ops q')) (step-capacity op r)
        (after-refines ops (step op r).1 q' (step-refines op r q v).1)

  -- A producer's call leaves an item in a buffer that has a slot.
  produced_item :
      (capacity : ℕ) (op : Op T) (q : List T)
      → 0 < capacity
      → is_produced op ≡ true
      → 0 < length (Fifo.step capacity op q).1
  unfolding is_produced Fifo.step Fifo.push Fifo.overwrite
  produced_item capacity (pushes x) q room e = ground (arith, length-append q (x ∷ []))
  produced_item capacity (overwrites x) q room e =
      ground (arith, length-append q (x ∷ []), length-append (drop 1 q) (x ∷ []))
  produced_item capacity pops q room e = absurd (ground (arith, e))
  produced_item capacity (drains m) q room e = absurd (ground (arith, e))

  produced_kept :
      (capacity : ℕ) (ops : List (Op T)) (q : List T)
      → 0 < capacity
      → All (λ op. is_produced op ≡ true) ops
      → 0 < length q
      → 0 < length (Fifo.after capacity ops q)
  unfolding Fifo.after
  produced_kept capacity [] q room all p = p
  produced_kept capacity (op ∷ ops) q room all p =
      produced_kept capacity ops _ room all.1 (produced_item capacity op q room all.0)

  some_produced :
      (capacity : ℕ) (ops : List (Op T)) (q : List T)
      → 0 < capacity
      → All (λ op. is_produced op ≡ true) ops
      → 0 < length ops
      → 0 < length (Fifo.after capacity ops q)
  unfolding Fifo.after
  some_produced capacity [] q room all p = absurd (omega (arith, p))
  some_produced capacity (op ∷ ops) q room all p =
      produced_kept capacity ops _ room all.1 (produced_item capacity op q room all.0)

  has_item :
      (r : SpscRingBuffer T) (q : List T) → Represents r q → 0 < length q → leb r.size 0 ≡ false
  has_item r q v p = ground (arith, v.len)

  has_none : (r : SpscRingBuffer T) → Represents r [] → leb r.size 0 ≡ true
  has_none r v = ground (arith, v.len)

  after-capacity : (ops : List (Op T)) (r : SpscRingBuffer T) → (after ops r).capacity ≡ r.capacity
  unfolding after
  after-capacity [] r = refl
  after-capacity (op ∷ ops) r = after-capacity ops (step op r).1 ∙ step-capacity op r

  -- The buffer gives the FIFO's outcome and stands for the items that the FIFO keeps.
  abbrev pub WaitsAs : Outcome T × SpscRingBuffer T → Outcome T × List T → Type 0
  WaitsAs (outcome, r) (outcome', q) = (outcome ≡ outcome') × Represents r q

  got-WaitsAs :
      (r : SpscRingBuffer T) (x : T) (q : List T)
      → Represents r (x ∷ q)
      → WaitsAs (got (pop_unlocked r)) (returned (some x), q)
  got-WaitsAs r x q v =
      let (same, valid) = pop_unlocked-Represents r x q v in (ap returned same, valid)

module _ {W : Type 0} ⦃f : Float W⦄ where
  over-deadline :
      (deadline : Option W) (now_ns : ℕ) → is_over deadline now_ns ≡ true → deadline ≢ none
  over-deadline none now_ns e = absurd (ground (arith, e))
  over-deadline (some deadline) now_ns e = λ e'. ground (arith, e')

module _ {T W : Type 0} ⦃f : Float W⦄ where
  -- The consumer at the FIFO: the oldest item as soon as there is one, nothing when the clock is read
  -- over an empty FIFO after the time is over, and else the rounds' calls change the items.
  unfoldable pub wait_items : ℕ → Option W → List (Round T) → List T → Outcome T × List T
  unfolding Fifo.after
  wait_items capacity deadline [] [] = (waiting, [])
  wait_items capacity deadline [] (x ∷ q) = (returned (some x), q)
  wait_items capacity deadline (round ∷ rounds) [] =
      let rest = wait_items capacity deadline rounds (Fifo.after capacity round.calls []) in
      if is_over deadline round.now_ns then (returned none, []) else rest
  wait_items capacity deadline (round ∷ rounds) (x ∷ q) = (returned (some x), q)

  wait_loop-refines :
      (deadline : Option W) (rounds : List (Round T)) (r : SpscRingBuffer T) (q : List T)
      → Represents r q
      → WaitsAs (wait_loop deadline rounds r) (wait_items r.capacity deadline rounds q)
  unfolding wait_loop wait_items
  wait_loop-refines deadline [] r [] v = rw (has_none r v) (refl, v)
  wait_loop-refines deadline [] r (x ∷ q) v =
      rw (has_item r (x ∷ q) v (omega arith)) (got-WaitsAs r x q v)
  wait_loop-refines deadline (round ∷ rounds) r (x ∷ q) v =
      rw (has_item r (x ∷ q) v (omega arith)) (got-WaitsAs r x q v)
  wait_loop-refines deadline (round ∷ rounds) r [] v =
      rw (has_none r v) (elim (Bool-cases (is_over deadline round.now_ns)) [
        | inl late ↦ rw late (refl, v)
        | inr early ↦ rw early (
            subst
              (λ c.
                WaitsAs (wait_loop deadline rounds (after round.calls r))
                  (wait_items c deadline rounds (Fifo.after r.capacity round.calls [])))
              (after-capacity round.calls r)
              (wait_loop-refines deadline rounds (after round.calls r)
                (Fifo.after r.capacity round.calls []) (after-refines round.calls r [] v)))
      ])

  -- The consumer has its answer: an item, or nothing, then a timeout was given and the FIFO is empty.
  unfoldable pub IsEnded : Option W → Outcome T × List T → Type 0
  IsEnded deadline (waiting, q) = ⊥
  IsEnded deadline (returned none, q) = (deadline ≢ none) × (q ≡ [])
  IsEnded deadline (returned (some x), q) = Unit {0}

  -- The round is the last one: the time is over, or a call of the producer runs.
  abbrev pub is_last : Option W → Round T → Bool
  is_last deadline round = is_over deadline round.now_ns || ltb 0 (length round.calls)

  full-IsEnded :
      (capacity : ℕ) (deadline : Option W) (rounds : List (Round T)) (q : List T)
      → 0 < length q
      → IsEnded deadline (wait_items capacity deadline rounds q)
  unfolding wait_items IsEnded
  full-IsEnded capacity deadline rounds [] p = absurd (omega (arith, p))
  full-IsEnded capacity deadline [] (x ∷ q) p = tt
  full-IsEnded capacity deadline (round ∷ rounds) (x ∷ q) p = tt

  -- The consumer waits at an empty FIFO.
  wait_items-IsEnded :
      (capacity : ℕ) (deadline : Option W) (rounds : List (Round T)) (q : List T)
      → 0 < capacity
      → All (λ (round : Round T). All (λ op. is_produced op ≡ true) round.calls) rounds
      → any (is_last deadline) rounds ≡ true
      → IsEnded deadline (wait_items capacity deadline rounds q)
  unfolding wait_items IsEnded
  wait_items-IsEnded capacity deadline rounds (x ∷ q) room all e =
      full-IsEnded capacity deadline rounds (x ∷ q) (omega arith)
  wait_items-IsEnded capacity deadline [] [] room all e = absurd (ground (arith, e))
  wait_items-IsEnded capacity deadline (round ∷ rounds) [] room all e =
      elim (Bool-cases (is_over deadline round.now_ns)) [
        | inl late ↦ rw late (over-deadline deadline round.now_ns late, refl)
        | inr early ↦ rw early (elim (Bool-cases (ltb 0 (length round.calls))) [
          | inl called ↦
              full-IsEnded capacity deadline rounds (Fifo.after capacity round.calls [])
                (some_produced capacity round.calls [] room all.0 (ground (arith, called)))
          | inr idle ↦
              wait_items-IsEnded capacity deadline rounds (Fifo.after capacity round.calls []) room
                all.1 (ground (arith, e, early, idle))
        ])
      ]

  -- `wait_pop` of a buffer that stands for a FIFO's items answers as the FIFO does to a consumer that
  -- waits there, with the oldest item once there is one, and leaves a buffer that stands for the items
  -- that the FIFO keeps. If the others only push during the waits, and a push runs during one of them
  -- or the clock shows at one of them that the time is over, then it returns: an item, or, where a
  -- timeout was given and no item is left, nothing.
  pub wait_pop-IsEnded :
      (timeout_s : Option W) (now_ns : ℕ) (rounds : List (Round T)) (r : SpscRingBuffer T)
      (q : List T)
      → Represents r q
      → All (λ (round : Round T). All (λ op. is_produced op ≡ true) round.calls) rounds
      → any (is_last (deadline_ns timeout_s now_ns)) rounds ≡ true
      → WaitsAs
          (wait_pop timeout_s now_ns rounds r)
          (wait_items r.capacity (deadline_ns timeout_s now_ns) rounds q)
        × IsEnded
            (deadline_ns timeout_s now_ns)
            (wait_items r.capacity (deadline_ns timeout_s now_ns) rounds q)
  unfolding wait_pop
  wait_pop-IsEnded timeout_s now_ns rounds r q v all e =
      let deadline = deadline_ns timeout_s now_ns in
      (
        wait_loop-refines deadline rounds r q v,
        wait_items-IsEnded r.capacity deadline rounds q (omega (arith, v.head_in)) all e,
      )
