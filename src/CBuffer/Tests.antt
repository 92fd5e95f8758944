-- ===== src/CBuffer/Tests.antt =====
-- Runs of the circular buffer, and the theorems at a buffer that goes round the end of its array.
use soa_ze_os.Prelude.{ℕ, ◌≡◌, refl, List, [], ◌∷◌, arith, replicate, length-replicate}
use soa_ze_os.CBuffer.{CircularBuffer, buffer_size, enqueue, dequeue}
use soa_ze_os.CBuffer.Inv.{IsValid}
use soa_ze_os.CBuffer.Refine.{contents, Op, put, take_out, run, run_queue, run_refines}

abbrev storage : List ℕ
storage = replicate buffer_size 0

-- The next character goes to the last place of the array.
abbrev near_end : CircularBuffer
near_end = record { buffer = storage; read_index = 2047; write_index = 2047; count = 0 }

abbrev script : List Op
script = put 65 ∷ put 66 ∷ take_out ∷ take_out ∷ take_out ∷ []

near_end-IsValid : IsValid near_end
near_end-IsValid = record {
  storage = length-replicate {A = ℕ} buffer_size 0;
  read_in = omega arith;
  write_in = omega arith;
  count_in = omega arith;
  apart = refl;
}

-- The third character comes from an empty buffer.
script_output : (run 9 near_end script).1 ≡ 65 ∷ 66 ∷ 9 ∷ []
unfolding run enqueue dequeue
script_output = refl

run_refines_example :
    IsValid (run 9 near_end script).0
    × ((contents (run 9 near_end script).0, (run 9 near_end script).1) ≡ run_queue 9 [] script)
run_refines_example = run_refines 9 script near_end-IsValid
