-- ===== src/Core/Spsc/Fifo.antt =====
-- What the ring buffer promises: a FIFO of at most `capacity` items, oldest first.
use stevehft.Prelude.{
  ℕ, Bool, true, false, Option, none, some, List, [], ◌∷◌, ◌++◌, leb, if◌then◌else◌, length, take,
  drop,
}

-- What a client calls, and what it sees of the call.
pub data Op (T : Type 0) : Type 0 where
  pushes overwrites : T → Op T
  pops : Op T
  drains : Option ℕ → Op T

pub data Reply (T : Type 0) : Type 0 where
  accepted overwrote : Bool → Reply T
  popped : Option T → Reply T
  drained : List T → Reply T

module _ {T : Type 0} where
  unfoldable pub pop : List T → Option T × List T
  pop [] = (none, [])
  pop (x ∷ q) = (some x, q)

  unfoldable pub push : ℕ → T → List T → Bool × List T
  push capacity x q = if leb capacity (length q) then (false, q) else (true, q ++ (x ∷ []))

  unfoldable pub overwrite : ℕ → T → List T → Bool × List T
  overwrite capacity x q =
      if leb capacity (length q) then (true, drop 1 q ++ (x ∷ [])) else (false, q ++ (x ∷ []))

  unfoldable pub drain : Option ℕ → List T → List T × List T
  drain none q = (q, [])
  drain (some n) q = (take n q, drop n q)

  unfoldable pub step : ℕ → Op T → List T → Reply T × List T
  step capacity (pushes x) q = let (b, q') = push capacity x q in (accepted b, q')
  step capacity (overwrites x) q = let (b, q') = overwrite capacity x q in (overwrote b, q')
  step capacity pops q = let (o, q') = pop q in (popped o, q')
  step capacity (drains m) q = let (xs, q') = drain m q in (drained xs, q')

  unfoldable pub run : ℕ → List (Op T) → List T → List (Reply T)
  run capacity [] q = []
  run capacity (op ∷ ops) q = let (reply, q') = step capacity op q in reply ∷ run capacity ops q'

  -- What the calls leave of the items.
  unfoldable pub after : ℕ → List (Op T) → List T → List T
  unfolding step
  after capacity [] q = q
  after capacity (op ∷ ops) q = after capacity ops (step capacity op q).1

  -- The producer's calls
  unfoldable pub is_produced : Op T → Bool
  is_produced (pushes x) = true
  is_produced (overwrites x) = true
  is_produced pops = false
  is_produced (drains m) = false
