-- ===== src/Core/Spsc/Invariant.antt =====
-- The representation invariant of the ring buffer, and the FIFO that a buffer stands for.
use stevehft.Prelude.{◌+◌, ◌%◌, ◌≤◌, ◌<◌, ◌≡◌, List, length}
use stevehft.Core.Spsc.{SpscRingBuffer}
use stevehft.Core.Spsc.Window.{Holds}

-- The buffer is well formed and its window of slots holds the items of `q`, oldest first. Every
-- write is counted as one that was read or one that is still there.
pub record Represents {T : Type 0} (r : SpscRingBuffer T) (q : List T) : Type 0 where
  pub room : length r.buffer ≡ r.capacity
  pub head_in : r.head < r.capacity
  pub len : length q ≡ r.size
  pub len_in : r.size ≤ r.capacity
  pub tail_at : r.tail ≡ (r.head + r.size) % r.capacity
  pub seq : r.write_seq ≡ r.read_seq + r.size
  pub holds : Holds r.capacity r.buffer r.head q
