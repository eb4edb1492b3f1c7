-- ===== src/Core/Spsc/Drain.antt =====
-- The loop of `drain`: which items it takes, and that it stops when the buffer is empty or the
-- limit is reached.
use mathlib.Core.List.{append-nil, append_assoc}
use stevehft.Prelude.{
  ℕ, zero, suc, ◌-◌, ◌≤◌, ◌≡◌, refl, ap, ◌∙◌, true, false, Option, none, some, List, [], ◌∷◌, ◌++◌,
  ltb, arith, length, length-append, take, drop, Bool-cases, inl, inr,
}
use stevehft.Core.Spsc.{SpscRingBuffer, pop_unlocked, below_limit, append_item, drain_loop, drain}
use stevehft.Core.Spsc.Fifo
use stevehft.Core.Spsc.Fifo.{Op, pushes, overwrites, pops, drains}
use stevehft.Core.Spsc.Invariant.{Represents}
use stevehft.Core.Spsc.Methods.{pop_unlocked-Represents}

module _ {T : Type 0} where
  take_all : (q : List T) → take (length q) q ≡ q
  take_all [] = refl
  take_all (x ∷ q) = ap (◌∷◌ x) (take_all q)

  drop_all : (q : List T) → drop (length q) q ≡ []
  drop_all [] = refl
  drop_all (x ∷ q) = drop_all q

  -- How many items the loop of `drain` still takes.
  abbrev allowance : Option ℕ → List T → List T → ℕ
  allowance none items q = length q
  allowance (some k) items q = k - length items

  allowance-step :
      (m : Option ℕ) (items : List T) (x : T) (q : List T)
      → below_limit m (length items) ≡ true
      → allowance m items (x ∷ q) ≡ suc (allowance m (items ++ (x ∷ [])) q)
  allowance-step none items x q h = refl
  allowance-step (some k) items x q h = ground (arith, length-append items (x ∷ []))

  allowance-stop :
      (m : Option ℕ) (items q : List T)
      → below_limit m (length items) ≡ false
      → allowance m items q ≡ 0
  allowance-stop none items q h = cc
  allowance-stop (some k) items q h = ground arith

  take-nil : (n : ℕ) → take {A = T} n [] ≡ []
  take-nil zero = refl
  take-nil (suc n) = refl

  drop-nil : (n : ℕ) → drop {A = T} n [] ≡ []
  drop-nil zero = refl
  drop-nil (suc n) = refl

  drain_loop-Represents :
      (fuel : ℕ) (m : Option ℕ) (items : List T) (r : SpscRingBuffer T) (q : List T)
      → Represents r q
      → length q ≤ fuel
      → ((drain_loop fuel m items r).0 ≡ items ++ take (allowance m items q) q)
        × Represents (drain_loop fuel m items r).1 (drop (allowance m items q) q)
  unfolding drain_loop
  drain_loop-Represents zero m items r [] v h =
      rw (take-nil (allowance m items []), drop-nil (allowance m items []), append-nil) (refl, v)
  drain_loop-Represents zero m items r (x ∷ q) v h = absurd (omega arith)
  drain_loop-Represents (suc fuel) m items r [] v h =
      let empty : ltb 0 r.size ≡ false = ground (arith, v.len) in
      rw (empty, take-nil (allowance m items []), drop-nil (allowance m items []), append-nil)
        (refl, v)
  drain_loop-Represents (suc fuel) m items r (x ∷ q) v h =
      let more : ltb 0 r.size ≡ true = ground (arith, v.len) in
      let (taken, rest) = pop_unlocked-Represents r x q v in
      elim (Bool-cases (below_limit m (length items))) [
        | inl below ↦
            let ih =
              drain_loop-Represents fuel m (items ++ (x ∷ [])) (pop_unlocked r).1 q rest
                (omega arith) in
            rw (more, below, taken, allowance-step m items x q below)
              (ih.0 ∙ append_assoc items (x ∷ []) _, ih.1)
        | inr stop ↦ rw (more, stop, allowance-stop m items (x ∷ q) stop, append-nil) (refl, v)
      ]

  pub drain-refines :
      (m : Option ℕ) (r : SpscRingBuffer T) (q : List T)
      → Represents r q
      → ((drain m r).0 ≡ (Fifo.drain m q).0) × Represents (drain m r).1 (Fifo.drain m q).1
  unfolding drain Fifo.drain
  drain-refines none r q v =
      let all = drain_loop-Represents r.size none [] r q v (omega (arith, v.len)) in
      rw (take_all q, drop_all q) at all
  drain-refines (some n) r q v =
      let all = drain_loop-Represents r.size (some n) [] r q v (omega (arith, v.len)) in
      let whole : n - 0 ≡ n = omega arith in rw whole at all

  pub drain_loop-capacity :
      (fuel : ℕ) (m : Option ℕ) (items : List T) (r : SpscRingBuffer T)
      → (drain_loop fuel m items r).1.capacity ≡ r.capacity
  unfolding drain_loop pop_unlocked
  drain_loop-capacity zero m items r = refl
  drain_loop-capacity (suc fuel) m items r =
      ground (
        arith,
        drain_loop-capacity fuel m (append_item items (pop_unlocked r).0) (pop_unlocked r).1,
      )
