-- ===== src/Libc/Digits.antt =====
-- The decimal digits of a number.
use soa_ze_os.Prelude.{
  ℕ, zero, suc, ◌+◌, ◌-◌, ◌*◌, ◌/◌, ◌%◌, ◌≤◌, ◌<◌, ◌≡◌, refl, sym, inl, inr, Bool-cases, arith, ltb,
  if◌then◌else◌,
}

-- Digit `j` of `a`, the last one being digit 0.
unfoldable pub digit : ℕ → ℕ → ℕ
digit zero a = a % 10
digit (suc j) a = digit j (a / 10)

-- The number whose `n` digits, first to last, are `f 0` to `f (n - 1)`.
unfoldable pub value : ℕ → (ℕ → ℕ) → ℕ
value zero f = 0
value (suc n) f = value n f * 10 + f n

-- How many digits `a` has, 0 for 0; each round takes one off.
unfoldable pub count_digits : ℕ → ℕ → ℕ
count_digits zero a = 0
count_digits (suc fuel) a = let rest = count_digits fuel (a / 10) in if ltb 0 a then suc rest else 0

-- `n` digits are all that `a` has.
abbrev pub FitsIn : ℕ → ℕ → Type 0
FitsIn zero a = a ≡ 0
FitsIn (suc n) a = FitsIn n (a / 10)

pub value-ext : (n : ℕ) (f g : ℕ → ℕ) → ((k : ℕ) → k < n → f k ≡ g k) → value n f ≡ value n g
unfolding value
value-ext zero f g h = refl
value-ext (suc n) f g h =
    omega (arith, value-ext n f g (λ k lt. h k (omega arith)), h n (omega arith))

digit-shift : (n k a : ℕ) → k < n → digit (suc n - k - 1) a ≡ digit (n - k - 1) (a / 10)
unfolding digit
digit-shift n k a lt = let e : suc n - k - 1 ≡ suc (n - k - 1) = omega arith in rw e

digit-last : (n a : ℕ) → digit (suc n - n - 1) a ≡ a % 10
unfolding digit
digit-last n a = let e : suc n - n - 1 ≡ 0 = omega arith in rw e

-- The digits of a number, read as a number, give it back.
pub value-digit : (n a : ℕ) → FitsIn n a → value n (λ k. digit (n - k - 1) a) ≡ a
unfolding value
value-digit zero a h = sym h
value-digit (suc n) a h = omega (
  arith,
  value-ext n (λ k. digit (suc n - k - 1) a) (λ k. digit (n - k - 1) (a / 10))
      (λ k lt. digit-shift n k a lt),
  value-digit n (a / 10) h,
  digit-last n a,
)

pub FitsIn-count_digits : (fuel a : ℕ) → a ≤ fuel → FitsIn (count_digits fuel a) a
unfolding count_digits
FitsIn-count_digits zero a h = omega arith
FitsIn-count_digits (suc fuel) a h = elim (Bool-cases (ltb 0 a)) [
  | inl more ↦ rw more (FitsIn-count_digits fuel (a / 10) (ground arith))
  | inr done ↦ rw done (ground arith)
]

pub digit-lt : (j a : ℕ) → digit j a < 10
unfolding digit
digit-lt zero a = omega arith
digit-lt (suc j) a = digit-lt j (a / 10)
