-- ===== src/CBuffer/Inv.antt =====
-- The representation invariant of the circular buffer: the indices stay in the array, and the
-- write index is `count` places after the read index.
use soa_ze_os.Prelude.{ℕ, ◌+◌, ◌%◌, ◌≤◌, ◌<◌, ◌≡◌, arith, length, length-set}
use soa_ze_os.CBuffer.{CircularBuffer, buffer_size, init_buffer, enqueue, dequeue}

pub record IsValid (cb : CircularBuffer) : Type 0 where
  pub storage : length cb.buffer ≡ buffer_size
  pub read_in : cb.read_index < buffer_size
  pub write_in : cb.write_index < buffer_size
  pub count_in : cb.count ≤ buffer_size
  pub apart : cb.write_index ≡ (cb.read_index + cb.count) % buffer_size

pub init_buffer-IsValid :
    (cb : CircularBuffer) → length cb.buffer ≡ buffer_size → IsValid (init_buffer cb)
unfolding init_buffer
init_buffer-IsValid cb h = ground arith

pub enqueue-IsValid : {cb : CircularBuffer} (c : ℕ) → IsValid cb → IsValid (enqueue cb c)
unfolding enqueue
enqueue-IsValid {cb} c v = ground (arith, length-set cb.buffer cb.write_index c)

pub dequeue-IsValid : (junk : ℕ) {cb : CircularBuffer} → IsValid cb → IsValid (dequeue junk cb).1
unfolding dequeue
dequeue-IsValid junk v = ground arith
