-- ===== src/Libc/Itoa.antt =====
-- `itoa` writes the decimal digits of its argument, first digit first, and ends the string.
use soa_ze_os.Prelude.{
  ℕ, zero, suc, ◌+◌, ◌-◌, ◌/◌, ◌%◌, ◌≤◌, ◌<◌, ◌≡◌, ◌≢◌, refl, ◌∙◌, inl, inr, Bool-cases, arith,
  some, ltb, leb, ◌==◌, ◌||◌, true, false, if◌then◌else◌, rounds, rounds_inv,
}
use soa_ze_os.Prelude.Int.{pos, negsuc}
use soa_ze_os.Libc.{Chars, store, put_digits, swap, itoa, strlen_from, strlen}
use soa_ze_os.Libc.Digits.{
  digit, digit-lt, value, count_digits, FitsIn-count_digits, value-digit, value-ext,
}

-- The last digit at `i` and the others behind it are all the digits.
digits_step :
    (r : Chars) (a i n : ℕ)
    → r i ≡ a % 10 + 48
    → ((j : ℕ) → j < n → r (i + 1 + j) ≡ digit j (a / 10) + 48)
    → (j : ℕ) → j < suc n
    → r (i + j) ≡ digit j a + 48
unfolding digit
digits_step r a i n last others zero lt = let e : i + 0 ≡ i = omega arith in rw e last
digits_step r a i n last others (suc j) lt =
    let e : i + suc j ≡ i + 1 + j = omega arith in rw e (others j (omega arith))

-- The loop writes the digits from the last on, and leaves what is below.
put_digits_lem :
    (fuel a i : ℕ) (b : Chars)
    → a ≤ fuel
    → ((put_digits fuel a i b).0 ≡ i + count_digits fuel a)
      × ((j : ℕ) → j < count_digits fuel a → (put_digits fuel a i b).1 (i + j) ≡ digit j a + 48)
      × ((j : ℕ) → j < i → (put_digits fuel a i b).1 j ≡ b j)
unfolding put_digits count_digits store
put_digits_lem zero a i b h = (omega arith, (λ j lt. elim lt [ ]), λ j lt. refl)
put_digits_lem (suc fuel) a i b h = elim (Bool-cases (ltb 0 a)) [
  | inr done ↦ rw done (omega arith, (λ j lt. elim lt [ ]), λ j lt. refl)
  | inl more ↦
      let rest = put_digits_lem fuel (a / 10) (i + 1) (store i (a % 10 + 48) b) (ground arith) in
      rw more (
        omega (arith, rest.0),
        digits_step (put_digits fuel (a / 10) (i + 1) (store i (a % 10 + 48) b)).1 a i
            (count_digits fuel (a / 10)) (rest.2 i (omega arith) ∙ ground arith) rest.1,
        λ j lt. rest.2 j (omega arith) ∙ ground arith,
      )
]

-- After `k` exchanges the outer `k` characters on both sides are reversed.
Swapped : (i k : ℕ) (b b' : Chars) → Type 0
Swapped i k b b' =
    (j : ℕ)
    → (j < i → b' j ≡ (if ltb j k || leb (i - k) j then b (i - j - 1) else b j))
      × (i ≤ j → b' j ≡ b j)

swap-Swapped :
    (i k : ℕ) (b b' : Chars) → k < i / 2 → Swapped i k b b' → Swapped i (k + 1) b (swap i k b')
unfolding Swapped swap store
swap-Swapped i k b b' h s j =
    let front : b' k ≡ b k = ground (arith, (s k).0) in
    let back : b' (i - k - 1) ≡ b (i - k - 1) = ground (arith, (s (i - k - 1)).0) in
    ((λ lt. ground (arith, front, back, (s j).0)), λ ge. ground (arith, (s j).1))

-- The loop that exchanges characters reverses the first `i` of them.
reverse_lem : (i : ℕ) (b : Chars) (j : ℕ) → j < i → rounds (i / 2) 0 (swap i) b j ≡ b (i - j - 1)
unfolding Swapped
reverse_lem i b j lt =
    let all =
      rounds_inv (λ k. Swapped i k b) (swap i) (i / 2) (λ k s hk p. swap-Swapped i k b s hk p)
        (i / 2) 0 b (omega arith) (λ j. ((λ lt'. ground arith), λ ge. refl)) in
    ground (arith, (all j).0)

strlen_from_lem :
    (fuel n i k : ℕ) (a : Chars)
    → k ≡ i + n
    → n < fuel
    → ((j : ℕ) → i ≤ j → j < k → a j ≢ 0)
    → a k ≡ 0
    → strlen_from fuel a i ≡ some k
unfolding strlen_from
strlen_from_lem zero n i k a e lt ne z = elim lt [ ]
strlen_from_lem (suc fuel) zero i k a e lt ne z =
    let at_end : k ≡ i = omega arith in
    let stop : (a i == 0) ≡ true = ground arith in rw (at_end, stop)
strlen_from_lem (suc fuel) (suc n) i k a e lt ne z =
    let go : (a i == 0) ≡ false = ground (arith, ne i) in
    rw go (
      strlen_from_lem fuel n (i + 1) k a (omega arith) (omega arith) (λ j ge. ne j (omega arith)) z)

-- The characters below `n` are digits that read as `a`, and the string ends behind them.
pub record Decimal (a n : ℕ) (s : Chars) : Type 0 where
  pub some_digit : 0 < n
  pub digits : (k : ℕ) → k < n → (48 ≤ s k) × (s k < 58)
  pub reads : value n (λ k. s k - 48) ≡ a
  pub ends : s n ≡ 0

store_same : (i c : ℕ) (b : Chars) → store i c b i ≡ c
unfolding store
store_same i c b = ground arith

-- Character `k` of the reversed digits.
char_at :
    (a n k : ℕ) (d : Chars)
    → k < n
    → ((j : ℕ) → j < n → d (0 + j) ≡ digit j a + 48)
    → store n 0 (rounds (n / 2) 0 (swap n) d) k ≡ digit (n - k - 1) a + 48
unfolding store
char_at a n k d lt written =
    let e : 0 + (n - k - 1) ≡ n - k - 1 = omega arith in
    let w : d (n - k - 1) ≡ digit (n - k - 1) a + 48 =
      rw e at (written (n - k - 1) (omega arith)) in
    ground (arith, reverse_lem n d k lt, w)

count_digits_pos : (fuel a : ℕ) → 0 < fuel → 0 < a → 0 < count_digits fuel a
unfolding count_digits
count_digits_pos zero a h k = h
count_digits_pos (suc fuel) a h k = ground arith

itoa-pos : (a : ℕ) (b : Chars) → 0 < a → Decimal a (count_digits a a) (itoa (pos a) b)
unfolding itoa
itoa-pos a b h =
    let nz : (a == 0) ≡ false = ground arith in
    let n = count_digits a a in
    let written = put_digits_lem a a 0 b (omega arith) in
    let at_n : (put_digits a a 0 b).0 ≡ n = omega (arith, written.0) in
    let s : Chars = store n 0 (rounds (n / 2) 0 (swap n) (put_digits a a 0 b).1) in
    let char = λ (k : ℕ) (lt : k < n). char_at a n k (put_digits a a 0 b).1 lt written.1 in
    rw (nz, at_n)
      (record {
        some_digit = count_digits_pos a a h h;
        digits = λ k lt. omega (arith, char k lt, digit-lt (n - k - 1) a);
        reads =
            value-ext n (λ k. s k - 48) (λ k. digit (n - k - 1) a)
              (λ k lt. omega (arith, char k lt))
            ∙ value-digit n a (FitsIn-count_digits a a (omega arith));
        ends = store_same n 0 (rounds (n / 2) 0 (swap n) (put_digits a a 0 b).1);
      })

itoa-zero : (b : Chars) → Decimal 0 1 (itoa (pos 0) b)
unfolding itoa store value
itoa-zero b = record {
  some_digit = omega arith;
  digits = λ k lt. (ground arith, ground arith);
  reads = refl;
  ends = refl;
}

-- `itoa` of a number that is not negative leaves a string whose length `strlen` finds, whose
-- characters are all digits, and which reads as the number.
pub itoa_lem :
    (a : ℕ) (b : Chars)
    → (n : ℕ) × Decimal a n (itoa (pos a) b)
      × ((fuel : ℕ) → n < fuel → strlen fuel (itoa (pos a) b) ≡ some n)
unfolding strlen
itoa_lem zero b =
    let d = itoa-zero b in
    (
      1,
      d,
      λ fuel lt.
          strlen_from_lem fuel 1 0 1 (itoa (pos 0) b) refl lt
            (λ j ge h. omega (arith, d.digits j h)) d.ends,
    )
itoa_lem (suc a) b =
    let n = count_digits (suc a) (suc a) in
    let d = itoa-pos (suc a) b (omega arith) in
    (
      n,
      d,
      λ fuel lt.
          strlen_from_lem fuel n 0 n (itoa (pos (suc a)) b) (omega arith) lt
            (λ j ge h. omega (arith, d.digits j h)) d.ends,
    )

-- A negative number prints as the empty string.
pub itoa_negative : (n : ℕ) (b : Chars) → strlen 1 (itoa (negsuc n) b) ≡ some 0
unfolding itoa strlen strlen_from store
itoa_negative n b = refl
