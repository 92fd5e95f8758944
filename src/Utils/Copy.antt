-- ===== src/Utils/Copy.antt =====
-- The copying loops against a byte-by-byte specification.
use soa_ze_os.Prelude.{
  ℕ, zero, suc, ◌+◌, ◌-◌, ◌≤◌, ◌<◌, ◌≡◌, refl, ◌⊎◌, inl, inr, Bool-cases, arith, ltb, ap, ◌∙◌,
}
use soa_ze_os.Prelude.Int.{pos}
use soa_ze_os.Utils.{
  Bytes, put_byte, copy_word, copy_bytes, copy_words, copy_data, copy_from_user, copy_to_user,
}

-- `m'` is `m` with the `n` bytes at `q` taken from `p`.
pub record Copied (p q n : ℕ) (m m' : Bytes) : Type 0 where
  pub inside : (a : ℕ) → q ≤ a → a < q + n → m' a ≡ m (p + (a - q))
  pub outside : (a : ℕ) → (a < q) ⊎ (q + n ≤ a) → m' a ≡ m a

-- The two ranges have no byte in common.
abbrev pub Apart : (p q n : ℕ) → Type 0
Apart p q n = (p + n ≤ q) ⊎ (q + n ≤ p)

-- A copy of `k` bytes and then one of `n` bytes behind them.
pub Copied-append :
    (p q k n l : ℕ) (m m₁ m₂ : Bytes)
    → l ≡ k + n
    → Apart p q l
    → Copied p q k m m₁
    → Copied (p + k) (q + k) n m₁ m₂
    → Copied p q l m m₂
Copied-append p q k n l m m₁ m₂ e apart c d = record {
  inside = λ a ge lt. elim (Bool-cases (ltb a (q + k))) [
    | inl near ↦ d.outside a (inl (ground arith)) ∙ c.inside a ge (ground arith)
    | inr far ↦
        let x : ℕ = p + k + (a - (q + k)) in
        let here : x ≡ p + (a - q) = ground arith in
        d.inside a (ground arith) (omega arith)
        ∙ (c.outside x (elim apart [ inl low ↦ inl (ground arith) | inr high ↦ inr (ground arith) ])
            ∙ ap m here)
  ];
  outside = λ a out. d.outside a (grind arith) ∙ c.outside a (grind arith);
}

copy_word-Copied : (p q : ℕ) (m : Bytes) → Copied p q 4 m (copy_word p q m)
unfolding copy_word
copy_word-Copied p q m = record {
  inside = λ a ge lt. ground arith;
  outside = λ a out. ground arith;
}

put_byte-Copied : (p q : ℕ) (m : Bytes) → Copied p q 1 m (put_byte q (m p) m)
unfolding put_byte
put_byte-Copied p q m = record {
  inside = λ a ge lt.
      let here : a ≡ q = omega arith in
      let there : p + (a - q) ≡ p = omega arith in rw there (ground arith);
  outside = λ a out. ground arith;
}

copy_bytes-Copied : (n p q : ℕ) (m : Bytes) → Apart p q n → Copied p q n m (copy_bytes n p q m)
unfolding copy_bytes
copy_bytes-Copied zero p q m apart = record {
  inside = λ a ge lt. absurd (omega arith);
  outside = λ a out. refl;
}
copy_bytes-Copied (suc n) p q m apart =
    Copied-append p q 1 n (suc n) m _ _ (omega arith) apart (put_byte-Copied p q m) (
      copy_bytes-Copied n (p + 1) (q + 1) (put_byte q (m p) m)
        (elim apart [ inl low ↦ inl (omega arith) | inr high ↦ inr (omega arith) ]))

copy_words-Copied :
    (fuel n p q : ℕ) (m : Bytes) → Apart p q n → Copied p q n m (copy_words fuel n p q m)
unfolding copy_words
copy_words-Copied zero n p q m apart = copy_bytes-Copied n p q m apart
copy_words-Copied (suc fuel) n p q m apart = elim (Bool-cases (ltb 4 n)) [
  | inr few ↦ rw few (copy_bytes-Copied n p q m apart)
  | inl more ↦ rw more (
      Copied-append p q 4 (n - 4) n m _ _ (ground arith) apart (copy_word-Copied p q m) (
        copy_words-Copied fuel (n - 4) (p + 4) (q + 4) (copy_word p q m)
          (elim apart [ inl low ↦ inl (ground arith) | inr high ↦ inr (ground arith) ])))
]

-- Between ranges that do not overlap `copy_data` copies every byte and changes no other; so do
-- `copy_from_user` and `copy_to_user`, which return 0.
pub copy_data_lem :
    (start dest n : ℕ) (m : Bytes)
    → Apart start dest n
    → Copied start dest n m (copy_data start dest (pos n) m)
      × ((copy_from_user start dest (pos n) m).0 ≡ 0)
      × Copied start dest n m (copy_from_user start dest (pos n) m).1
      × ((copy_to_user start dest (pos n) m).0 ≡ 0)
      × Copied start dest n m (copy_to_user start dest (pos n) m).1
unfolding copy_data copy_from_user copy_to_user
copy_data_lem start dest n m apart =
    let c = copy_words-Copied n n start dest m apart in (c, refl, c, refl, c)
