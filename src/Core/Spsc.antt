-- ===== src/Core/Spsc.antt =====
-- src/core/concurrency/spsc.py: the ring buffer between the market-data thread and the main one.
-- A method runs under the buffer's lock, so it is one step; each returns the new buffer.
pub mod Fifo
mod Window
pub mod Invariant
pub mod Methods
pub mod Drain
pub mod Refinement
pub mod Waiting
mod Tests
use stevehft.Prelude.{
  ℕ, zero, suc, ◌+◌, ◌-◌, ◌%◌, Bool, true, false, Option, none, some, List, [], ◌∷◌, ◌++◌, ltb, leb,
  if◌then◌else◌, set, get_elem?, replicate, length,
}
use Fifo.{Op, Reply, pushes, overwrites, pops, drains, accepted, overwrote, popped, drained}

pub record SpscRingBuffer (T : Type 0) : Type 0 where
  pub capacity : ℕ
  pub buffer : List (Option T)
  pub head : ℕ
  pub tail : ℕ
  pub size : ℕ
  pub write_seq : ℕ
  pub read_seq : ℕ

-- `max_items is None or len(items) < max_items`
abbrev pub below_limit : Option ℕ → ℕ → Bool
below_limit none n = true
below_limit (some m) n = ltb n m

module _ {T : Type 0} where
  -- `__post_init__`; `none` is the ValueError.
  unfoldable pub init : ℕ → Option (SpscRingBuffer T)
  init capacity =
      if leb capacity 0
      then none
      else some (record {
        capacity = capacity;
        buffer = replicate capacity none;
        head = 0;
        tail = 0;
        size = 0;
        write_seq = 0;
        read_seq = 0;
      })

  unfoldable pub push_unlocked : T → SpscRingBuffer T → SpscRingBuffer T
  push_unlocked item r = record r {
    buffer = set r.buffer r.tail (some item);
    tail = (r.tail + 1) % r.capacity;
    size = r.size + 1;
    write_seq = r.write_seq + 1;
  }

  -- What a slot holds; an index out of range is an IndexError, which `Invariant` rules out.
  abbrev pub slot : Option (Option T) → Option T
  slot none = none
  slot (some item) = item

  unfoldable pub pop_unlocked : SpscRingBuffer T → Option T × SpscRingBuffer T
  pop_unlocked r = (
    slot (get_elem? r.buffer r.head),
    record r {
      buffer = set r.buffer r.head none;
      head = (r.head + 1) % r.capacity;
      size = r.size - 1;
      read_seq = r.read_seq + 1;
    },
  )

  unfoldable pub try_push : T → SpscRingBuffer T → Bool × SpscRingBuffer T
  unfolding push_unlocked
  try_push item r = if leb r.capacity r.size then (false, r) else (true, push_unlocked item r)

  -- The first half of `push_overwrite_oldest`: the oldest item is dropped.
  unfoldable pub drop_oldest : SpscRingBuffer T → SpscRingBuffer T
  drop_oldest r = record r {
    buffer = set r.buffer r.head none;
    head = (r.head + 1) % r.capacity;
    size = r.size - 1;
    read_seq = r.read_seq + 1;
  }

  unfoldable pub push_overwrite_oldest : T → SpscRingBuffer T → Bool × SpscRingBuffer T
  unfolding push_unlocked drop_oldest
  push_overwrite_oldest item r =
      let overwritten = leb r.capacity r.size in
      let room = if overwritten then drop_oldest r else r in (overwritten, push_unlocked item room)

  unfoldable pub try_pop : SpscRingBuffer T → Option T × SpscRingBuffer T
  unfolding pop_unlocked
  try_pop r = if leb r.size 0 then (none, r) else pop_unlocked r

  abbrev pub append_item : List T → Option T → List T
  append_item items none = items
  append_item items (some item) = items ++ (item ∷ [])

  -- The loop of `drain`. It takes one item a round, so `size` rounds are enough.
  unfoldable pub drain_loop : ℕ → Option ℕ → List T → SpscRingBuffer T → List T × SpscRingBuffer T
  unfolding pop_unlocked
  drain_loop zero max_items items r = (items, r)
  drain_loop (suc fuel) max_items items r =
      let popped = pop_unlocked r in
      let rest = drain_loop fuel max_items (append_item items popped.0) popped.1 in
      if ltb 0 r.size
      then (if below_limit max_items (length items) then rest else (items, r))
      else (items, r)

  unfoldable pub drain : Option ℕ → SpscRingBuffer T → List T × SpscRingBuffer T
  unfolding drain_loop
  drain max_items r = drain_loop r.size max_items [] r

  -- A client's call, and the calls of both threads in the order in which they take the lock.
  unfoldable pub step : Op T → SpscRingBuffer T → Reply T × SpscRingBuffer T
  unfolding try_push push_overwrite_oldest try_pop drain
  step (pushes item) r = let (done, r') = try_push item r in (accepted done, r')
  step (overwrites item) r = let (lost, r') = push_overwrite_oldest item r in (overwrote lost, r')
  step pops r = let (item, r') = try_pop r in (popped item, r')
  step (drains max_items) r = let (items, r') = drain max_items r in (drained items, r')

  unfoldable pub run : List (Op T) → SpscRingBuffer T → List (Reply T)
  unfolding step
  run [] r = []
  run (op ∷ ops) r = let (reply, r') = step op r in reply ∷ run ops r'
