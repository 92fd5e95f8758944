-- ===== src/CBuffer.antt =====
-- The keyboard's circular buffer, practica/zeos/c_buffer.c and include/c_buffer.h. The array is a
-- list of character codes; a function that updates `*cb` returns the new buffer.
pub mod Inv
pub mod Refine
mod Tests
use soa_ze_os.Prelude.{ℕ, ◌+◌, ◌-◌, ◌%◌, Bool, List, ◌==◌, if◌then◌else◌, set, get_or}

abbrev pub buffer_size : ℕ
buffer_size = 2048

pub record CircularBuffer : Type 0 where
  pub buffer : List ℕ
  pub read_index : ℕ
  pub write_index : ℕ
  pub count : ℕ

-- The array keeps its old characters.
unfoldable pub init_buffer : CircularBuffer → CircularBuffer
init_buffer cb = record cb { read_index = 0; write_index = 0; count = 0 }

unfoldable pub is_full : CircularBuffer → Bool
is_full cb = cb.count == buffer_size

unfoldable pub is_empty : CircularBuffer → Bool
is_empty cb = cb.count == 0

-- A character that does not fit is dropped.
unfoldable pub enqueue : CircularBuffer → ℕ → CircularBuffer
unfolding is_full
enqueue cb element = if is_full cb then cb else record cb {
  buffer = set cb.buffer cb.write_index element;
  write_index = (cb.write_index + 1) % buffer_size;
  count = cb.count + 1;
}

-- `char data = ""` truncates the address of a literal: `junk` is the character that comes of it.
unfoldable pub dequeue : (junk : ℕ) → CircularBuffer → ℕ × CircularBuffer
unfolding is_empty
dequeue junk cb = if is_empty cb then (junk, cb) else (
  get_or cb.buffer cb.read_index 0,
  record cb { read_index = (cb.read_index + 1) % buffer_size; count = cb.count - 1 },
)
