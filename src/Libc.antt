-- ===== src/Libc.antt =====
-- The user library, practica/zeos/libc.c: `itoa`, `strlen` and `perror`. A `char *` is a map from indices to
-- characters; a function that writes through it returns the new map.
pub mod Digits
pub mod Itoa
mod Tests
use soa_ze_os.Prelude.{
  ℕ, zero, suc, ◌+◌, ◌-◌, ◌*◌, ◌/◌, ◌%◌, Option, none, some, List, [], ◌∷◌, ltb, ◌==◌,
  if◌then◌else◌, rounds,
}
use soa_ze_os.Prelude.Int.{ℤ, pos, negsuc}

abbrev pub Chars : Type 0
Chars = ℕ → ℕ

unfoldable pub store : ℕ → ℕ → Chars → Chars
store i c b j = if j == i then c else b j

-- `while (a > 0) { b[i] = a % 10 + '0'; a = a / 10; i++; }`, with the index after it. Each round
-- takes a digit off `a`, so `a` rounds are enough.
unfoldable pub put_digits : ℕ → (a i : ℕ) → Chars → ℕ × Chars
put_digits zero a i b = (i, b)
put_digits (suc fuel) a i b =
    let rest = put_digits fuel (a / 10) (i + 1) (store i (a % 10 + b'0') b) in
    if ltb 0 a then rest else (i, b)

-- Exchanges the characters `i1` and `i - i1 - 1`.
unfoldable pub swap : (i i1 : ℕ) → Chars → Chars
swap i i1 b = store (i - i1 - 1) (b i1) (store i1 (b (i - i1 - 1)) b)

unfoldable pub itoa : ℤ → Chars → Chars
itoa (negsuc n) b = store 0 0 b
itoa (pos a) b =
    if a == 0
    then store 1 0 (store 0 b'0' b)
    else let (i, digits) = put_digits a a 0 b in store i 0 (rounds (i / 2) 0 (swap i) digits)

-- The index of the first 0 from `i` on; `none` if it is not among the next `fuel` characters.
unfoldable pub strlen_from : ℕ → Chars → ℕ → Option ℕ
strlen_from zero a i = none
strlen_from (suc fuel) a i =
    let rest = strlen_from fuel a (i + 1) in if a i == 0 then some i else rest

unfoldable pub strlen : ℕ → Chars → Option ℕ
strlen fuel a = strlen_from fuel a 0

abbrev pub take_chars : ℕ → (i : ℕ) → Chars → List ℕ
take_chars zero i b = []
take_chars (suc n) i b = b i ∷ take_chars n (i + 1) b

-- The first `strlen(buffer)` characters after `itoa(a, buffer)`; an `int` has at most 10 digits.
unfoldable pub digits_of : ℤ → List ℕ
digits_of a =
    let b = itoa a (λ _. 0) in elim (strlen 11 b) [ none ↦ [] | some n ↦ take_chars n 0 b ]

-- What `perror` writes to file 1.
unfoldable pub perror : (errno : ℤ) → List ℕ
perror errno = digits_of errno
