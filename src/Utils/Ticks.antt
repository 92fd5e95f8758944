-- ===== src/Utils/Ticks.antt =====
-- `do_div` and `get_ticks`: the division in two steps is the 64-bit division.
use soa_ze_os.Prelude.{ℕ, ◌+◌, ◌*◌, ◌/◌, ◌%◌, ◌^◌, ◌<◌, ◌≡◌, arith}
use soa_ze_os.Utils.{do_div, get_ticks, cycles_per_tick}

-- The two divisions of `do_div` by `CYCLESPERTICK` give the quotient of the 64-bit number, and the
-- second quotient fits the 32-bit register of `divl`.
pub do_div_lem :
    (low high : ℕ)
    → low < 2 ^ 32
    → (do_div low high cycles_per_tick ≡ (high * 2 ^ 32 + low) / cycles_per_tick)
      × ((high % cycles_per_tick * 2 ^ 32 + low) / cycles_per_tick < 2 ^ 32)
unfolding do_div
do_div_lem low high h = (ground arith, omega arith)

-- `get_ticks` is the time stamp counter over `CYCLESPERTICK`, cut to 32 bits.
pub get_ticks_lem :
    (eax edx : ℕ)
    → eax < 2 ^ 32
    → get_ticks eax edx ≡ (edx * 2 ^ 32 + eax) / cycles_per_tick % 2 ^ 32
unfolding get_ticks do_div
get_ticks_lem eax edx h = ground arith
