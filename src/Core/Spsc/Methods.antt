-- ===== src/Core/Spsc/Methods.antt =====
-- What `push`, `pop` and the overwrite of the ring buffer do to the FIFO that it stands for.
use native.Mathlib.Nat.{mod-add-mod, mod-eq_of_lt, mod-eq-sub-mod}
use stevehft.Prelude.{
  ℕ, ◌+◌, ◌-◌, ◌%◌, ◌≤◌, ◌<◌, ◌≡◌, refl, ap, sym, ◌∙◌, Option, none, some, List, [], ◌∷◌, ◌++◌, leb,
  arith, set, length-set, length-append, length-replicate, get_elem?-set_self, drop, Bool-cases,
  inl, inr,
}
use stevehft.Core.Spsc.{
  SpscRingBuffer, init, push_unlocked, pop_unlocked, slot, try_push, drop_oldest,
  push_overwrite_oldest, try_pop,
}
use stevehft.Core.Spsc.Fifo
use stevehft.Core.Spsc.Fifo.{Op, pushes, overwrites, pops, drains}
use stevehft.Core.Spsc.Window.{Holds-set, Holds-snoc}
use stevehft.Core.Spsc.Invariant.{Represents}

zero-mod : (m : ℕ) → (0 + 0) % m ≡ 0
zero-mod m = omega arith

step-sum : (cap h n : ℕ) → ((h + n) % cap + 1) % cap ≡ (h + (n + 1)) % cap
step-sum cap h n = mod-add-mod (h + n) cap 1 ∙ ap (λ k. k % cap) (omega arith)

step-back : (cap h n : ℕ) → 0 < n → (h + n) % cap ≡ ((h + 1) % cap + (n - 1)) % cap
step-back cap h n p = ap (λ k. k % cap) (omega arith) ∙ sym (mod-add-mod (h + 1) cap (n - 1))

full-round : (cap h : ℕ) → h < cap → h ≡ ((h + 1) % cap + (cap - 1)) % cap
full-round cap h p = omega (
  arith,
  step-back cap h cap (omega arith),
  mod-eq-sub-mod {n = h + cap} {m = cap} (omega arith),
  mod-eq_of_lt {n = h + cap - cap} {m = cap} (omega arith),
)

module _ {T : Type 0} where
  pub init-Represents :
      (capacity : ℕ) {r : SpscRingBuffer T} → init capacity ≡ some r → Represents r []
  unfolding init
  init-Represents capacity e =
      ground (arith, length-replicate {A = Option T} capacity none, zero-mod capacity)

  -- With a free slot the item goes behind the others.
  pub push_unlocked-Represents :
      (item : T) (r : SpscRingBuffer T) (q : List T)
      → Represents r q
      → r.size < r.capacity
      → Represents (push_unlocked item r) (q ++ (item ∷ []))
  unfolding push_unlocked
  push_unlocked-Represents item r q v free = record {
    room = length-set r.buffer r.tail (some item) ∙ v.room;
    head_in = v.head_in;
    len = omega (arith, length-append q (item ∷ []), v.len);
    len_in = omega arith;
    tail_at = ap (λ n. (n + 1) % r.capacity) v.tail_at ∙ step-sum r.capacity r.head r.size;
    seq = omega (arith, v.seq);
    holds =
        Holds-snoc r.capacity (set r.buffer r.tail (some item)) r.head r.tail item q v.head_in
          (v.tail_at ∙ ap (λ n. (r.head + n) % r.capacity) (omega (arith, v.len)))
          (get_elem?-set_self r.buffer r.tail (some item) (omega (arith, v.tail_at, v.room)))
          (Holds-set r.capacity r.buffer r.head r.size r.tail (some item) q v.head_in v.tail_at
            (omega (arith, v.len)) free v.holds);
  }

  -- With an item there, the oldest one comes out.
  pub pop_unlocked-Represents :
      (r : SpscRingBuffer T) (x : T) (q : List T)
      → Represents r (x ∷ q)
      → ((pop_unlocked r).0 ≡ some x) × Represents (pop_unlocked r).1 q
  unfolding pop_unlocked
  pop_unlocked-Represents r x q v = (
    ap slot v.holds.0,
    record {
      room = length-set r.buffer r.head none ∙ v.room;
      head_in = omega (arith, v.head_in);
      len = omega (arith, v.len);
      len_in = omega (arith, v.len_in);
      tail_at = v.tail_at ∙ step-back r.capacity r.head r.size (omega (arith, v.len));
      seq = omega (arith, v.seq, v.len);
      holds =
          Holds-set r.capacity r.buffer ((r.head + 1) % r.capacity) (r.capacity - 1) r.head none q
            (omega (arith, v.head_in)) (full-round r.capacity r.head v.head_in)
            (omega (arith, v.len, v.len_in)) (omega (arith, v.head_in)) v.holds.1;
    },
  )

  pub try_push-refines :
      (x : T) (r : SpscRingBuffer T) (q : List T)
      → Represents r q
      → ((try_push x r).0 ≡ (Fifo.push r.capacity x q).0)
        × Represents (try_push x r).1 (Fifo.push r.capacity x q).1
  unfolding try_push Fifo.push
  try_push-refines x r q v = elim (Bool-cases (leb r.capacity r.size)) [
    | inl full ↦ rw (v.len, full) (refl, v)
    | inr free ↦ rw (v.len, free) (refl, push_unlocked-Represents x r q v (ground arith))
  ]

  drop_oldest-Represents :
      (r : SpscRingBuffer T) (x : T) (q : List T)
      → Represents r (x ∷ q)
      → Represents (drop_oldest r) q × ((drop_oldest r).size < r.capacity)
  unfolding drop_oldest pop_unlocked
  drop_oldest-Represents r x q v =
      ((pop_unlocked-Represents r x q v).1, omega (arith, v.len, v.len_in, v.head_in))

  overwrite_full :
      (x : T) (r : SpscRingBuffer T) (q : List T)
      → Represents r q
      → r.capacity ≤ r.size
      → Represents (push_unlocked x (drop_oldest r)) (drop 1 q ++ (x ∷ []))
  unfolding drop_oldest
  overwrite_full x r [] v full = absurd (omega (arith, v.len, v.head_in))
  overwrite_full x r (y ∷ q) v full =
      let (valid, room) = drop_oldest-Represents r y q v in
      push_unlocked-Represents x (drop_oldest r) q valid room

  pub push_overwrite_oldest-refines :
      (x : T) (r : SpscRingBuffer T) (q : List T)
      → Represents r q
      → ((push_overwrite_oldest x r).0 ≡ (Fifo.overwrite r.capacity x q).0)
        × Represents (push_overwrite_oldest x r).1 (Fifo.overwrite r.capacity x q).1
  unfolding push_overwrite_oldest Fifo.overwrite
  push_overwrite_oldest-refines x r q v = elim (Bool-cases (leb r.capacity r.size)) [
    | inl full ↦ rw (v.len, full) (refl, overwrite_full x r q v (ground arith))
    | inr free ↦ rw (v.len, free) (refl, push_unlocked-Represents x r q v (ground arith))
  ]

  pub try_pop-refines :
      (r : SpscRingBuffer T) (q : List T)
      → Represents r q
      → ((try_pop r).0 ≡ (Fifo.pop q).0) × Represents (try_pop r).1 (Fifo.pop q).1
  unfolding try_pop Fifo.pop
  try_pop-refines r [] v = elim (Bool-cases (leb r.size 0)) [
    | inl e ↦ rw e (refl, v)
    | inr e ↦ absurd (ground (arith, v.len))
  ]
  try_pop-refines r (x ∷ q) v = elim (Bool-cases (leb r.size 0)) [
    | inl e ↦ absurd (ground (arith, v.len))
    | inr e ↦ rw e (pop_unlocked-Represents r x q v)
  ]
