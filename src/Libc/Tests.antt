-- ===== src/Libc/Tests.antt =====
-- Runs of `itoa`, and its theorem at a number of three digits.
use soa_ze_os.Prelude.{ℕ, ◌<◌, ◌≡◌, refl, some, rounds}
use soa_ze_os.Prelude.Int.{pos}
use soa_ze_os.Libc.{Chars, itoa, put_digits, swap, store, strlen}
use soa_ze_os.Libc.Itoa.{Decimal, itoa_lem}

abbrev blank : Chars
blank i = 0

first_digit : itoa (pos 907) blank 0 ≡ b'9'
unfolding itoa put_digits store swap rounds
first_digit = refl

itoa_lem_example :
    (n : ℕ) × Decimal 907 n (itoa (pos 907) blank)
    × ((fuel : ℕ) → n < fuel → strlen fuel (itoa (pos 907) blank) ≡ some n)
itoa_lem_example = itoa_lem 907 blank
