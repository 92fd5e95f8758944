-- ===== src/Sys/Stats/Words.antt =====
-- Words in memory, written and read back.
use soa_ze_os.Prelude.{
  ℕ, ◌+◌, ◌-◌, ◌*◌, ◌/◌, ◌%◌, ◌^◌, ◌≤◌, ◌<◌, ◌≡◌, ◌⊎◌, ◌∙◌, ap, refl, inl, inr, ◌&&◌, true, false,
  arith, leb, ltb,
}
use soa_ze_os.Utils.{Bytes}
use soa_ze_os.Sched.Boot.{put_dword}
use soa_ze_os.Sys.Fork.{get_dword}

put_dword-byte : (a v j : ℕ) (m : Bytes) → j < 4 → put_dword a v m (a + j) ≡ v / 2 ^ (8 * j) % 2 ^ 8
unfolding put_dword
put_dword-byte a v j m lt =
    let here : a + j - a ≡ j = omega arith in
    let inside : (leb a (a + j) && ltb (a + j) (a + 4)) ≡ true = ground arith in
    rw (inside) (ap (λ n. v / 2 ^ (8 * n) % 2 ^ 8) here)

pub get_dword-put_dword : (a v : ℕ) (m : Bytes) → v < 2 ^ 32 → get_dword a (put_dword a v m) ≡ v
get_dword-put_dword a v m lt =
    let start : a ≡ a + 0 = omega arith in
    let b₀ = ap (put_dword a v m) start ∙ put_dword-byte a v 0 m (omega arith) in
    let b₁ = put_dword-byte a v 1 m (omega arith) in
    let b₂ = put_dword-byte a v 2 m (omega arith) in
    let b₃ = put_dword-byte a v 3 m (omega arith) in rw (b₀, b₁, b₂, b₃) (omega (arith, lt))

pub get_dword-put_dword_ne :
    (a b v : ℕ) (m : Bytes)
    → (a + 4 ≤ b) ⊎ (b + 4 ≤ a)
    → get_dword a (put_dword b v m) ≡ get_dword a m
unfolding put_dword
get_dword-put_dword_ne a b v m apart =
    let out : (x : ℕ) → a ≤ x → x < a + 4 → (leb b x && ltb x (b + 4)) ≡ false =
      λ x ge lt. elim apart [ inl below ↦ ground arith | inr above ↦ ground arith ] in
    let o₀ = out a (omega arith) (omega arith) in
    let o₁ = out (a + 1) (omega arith) (omega arith) in
    let o₂ = out (a + 2) (omega arith) (omega arith) in
    let o₃ = out (a + 3) (omega arith) (omega arith) in rw (o₀, o₁, o₂, o₃) refl
