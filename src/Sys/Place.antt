-- ===== src/Sys/Place.antt =====
-- The screen calls of practica/zeos/sys.c.
use soa_ze_os.Prelude.{
  ℕ, ◌+◌, ◌*◌, ◌≤◌, ◌<◌, ◌≡◌, refl, ◌⊎◌, inl, inr, Bool-cases, true, false, arith, ltb,
}
use soa_ze_os.Prelude.Int.{ℤ, pos, negsuc, pos_part, neg_part, ltb_ℤ}
use soa_ze_os.Io.{num_columns, num_rows, set_xy}
use soa_ze_os.Io.Cursor.{OnScreen, place}
use soa_ze_os.Kernel.{Kernel}
use soa_ze_os.Sys.{sys_gotoxy, err, einval}

-- `x` and `y` are a place on the screen, and `sys_gotoxy` has put the cursor there and returned 1.
pub record Placed (x y : ℤ) (r : ℤ × Kernel) : Type 0 where
  pub column : (neg_part x ≡ 0) × (pos_part x < num_columns)
  pub row : (neg_part y ≡ 0) × (pos_part y < num_rows)
  pub result : r.0 ≡ pos 1
  pub on_screen : OnScreen r.1.screen
  pub at_place : place r.1.screen ≡ pos_part y * num_columns + pos_part x

-- `x` and `y` are no place on the screen.
abbrev pub IsOff : (x y : ℤ) → Type 0
IsOff x y =
    (0 < neg_part x) ⊎ (num_columns ≤ pos_part x) ⊎ (0 < neg_part y) ⊎ (num_rows ≤ pos_part y)

gotoxy_inside :
    (x y : ℕ) (k : Kernel) → x < 80 → y < 25 → Placed (pos x) (pos y) (sys_gotoxy (pos x) (pos y) k)
unfolding sys_gotoxy set_xy
gotoxy_inside x y k hx hy =
    let a : ltb_ℤ (pos x) (pos 80) ≡ true = ground arith in
    let b : ltb_ℤ (pos x) (pos 0) ≡ false = ground arith in
    let c : ltb_ℤ (pos y) (pos 25) ≡ true = ground arith in
    let d : ltb_ℤ (pos y) (pos 0) ≡ false = ground arith in
    rw (a, b, c, d)
      record {
        column = (refl, hx);
        row = (refl, hy);
        result = refl;
        on_screen = ground arith;
        at_place = ground arith;
      }

-- For any two integers `sys_gotoxy` either takes a place on the screen, returns 1 and puts the cursor
-- there, or refuses what is no such place with -EINVAL and changes nothing.
pub sys_gotoxy_lem :
    (x y : ℤ) (k : Kernel)
    → Placed x y (sys_gotoxy x y k) ⊎ (IsOff x y × (sys_gotoxy x y k ≡ (err einval, k)))
unfolding sys_gotoxy
sys_gotoxy_lem (negsuc x) y k = inr (inl (omega arith), ground arith)
sys_gotoxy_lem (pos x) (negsuc y) k = inr (inr (inr (inl (omega arith))), ground arith)
sys_gotoxy_lem (pos x) (pos y) k = elim (Bool-cases (ltb x 80)) [
  | inr far ↦ inr (inr (inl (ground arith)), ground arith)
  | inl near ↦ elim (Bool-cases (ltb y 25)) [
    | inr low ↦ inr (inr (inr (inr (ground arith))), ground arith)
    | inl high ↦ inl (gotoxy_inside x y k (ground arith) (ground arith))
  ]
]
