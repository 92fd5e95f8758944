-- ===== src/Sys/Console.antt =====
-- The calls of practica/zeos/sys.c that reach the screen, in any order.
use soa_ze_os.Prelude.{
  ℕ, zero, suc, ◌+◌, ◌-◌, ◌%◌, ◌≤◌, ◌≡◌, refl, ◌∙◌, inl, inr, Bool-cases, arith, List, [], ◌∷◌, not,
  ◌||◌, ltb, rounds,
}
use soa_ze_os.Prelude.Int.{ℤ, pos, pos_part, ltb_ℤ, eqb_ℤ}
use soa_ze_os.Utils.{verify_read}
use soa_ze_os.Io.{Screen, printc, set_xy, set_text_color, sys_write_console}
use soa_ze_os.Io.Cursor.{OnScreen, cells, printc-OnScreen}
use soa_ze_os.Kernel.{Kernel}
use soa_ze_os.Sys.{
  tam_buffer, escriptura, check_fd, accepts, write_chunk, write_loop, write_all, sys_write,
  sys_gotoxy, sys_set_color,
}

-- The colour keeps out of the byte of the character.
abbrev pub IsColor : ℕ → Type 0
IsColor color = color % 256 ≡ 0

-- `s'` has drawn on the screen of `s`, and nowhere else.
pub record Confined (s s' : Screen) : Type 0 where
  pub on_screen : OnScreen s'
  pub colored : IsColor s.color → IsColor s'.color
  pub kept : (i : ℕ) → cells ≤ i → s'.vga i ≡ s.vga i

Confined-same : (s : Screen) → OnScreen s → Confined s s
Confined-same s o = record { on_screen = o; colored = λ h. h; kept = λ i le. refl }

Confined-trans : (s t u : Screen) → Confined s t → Confined t u → Confined s u
Confined-trans s t u a b = record {
  on_screen = b.on_screen;
  colored = λ h. b.colored (a.colored h);
  kept = λ i le. b.kept i le ∙ a.kept i le;
}

printc-Confined : (c : ℕ) (s : Screen) → OnScreen s → Confined s (printc c s)
unfolding printc
printc-Confined c s o = record {
  on_screen = printc-OnScreen c o;
  colored = λ h. ground arith;
  kept = λ i le. ground (arith, o);
}

rounds-Confined :
    (b : ℕ → ℕ) (n i : ℕ) (s : Screen) → OnScreen s → Confined s (rounds n i (λ k. printc (b k)) s)
unfolding rounds
rounds-Confined b zero i s o = Confined-same s o
rounds-Confined b (suc n) i s o =
    let first = printc-Confined (b i) s o in
    Confined-trans s (printc (b i) s) _ first
      (rounds-Confined b n (i + 1) (printc (b i) s) first.on_screen)

write_chunk-Confined :
    (localbuffer buffer size : ℕ) (k : Kernel)
    → OnScreen k.screen
    → Confined k.screen (write_chunk localbuffer buffer size k).1.screen
unfolding write_chunk sys_write_console
write_chunk-Confined localbuffer buffer size k o = rounds-Confined _ size 0 k.screen o

write_loop-Confined :
    (fuel localbuffer left buffer : ℕ) (k : Kernel)
    → OnScreen k.screen
    → Confined k.screen (write_loop fuel localbuffer left buffer k).2.screen
unfolding write_loop
write_loop-Confined zero localbuffer left buffer k o = Confined-same k.screen o
write_loop-Confined (suc fuel) localbuffer left buffer k o =
    elim (Bool-cases (ltb tam_buffer left)) [
      | inr few ↦ rw few (Confined-same k.screen o)
      | inl more ↦
          let chunk = write_chunk localbuffer buffer tam_buffer k in
          let first = write_chunk-Confined localbuffer buffer tam_buffer k o in
          rw more (
            Confined-trans k.screen chunk.1.screen _ first (
              write_loop-Confined fuel localbuffer (left - chunk.0) (buffer + chunk.0) chunk.1
                first.on_screen))
    ]

write_all-Confined :
    (localbuffer buffer n : ℕ) (k : Kernel)
    → OnScreen k.screen
    → Confined k.screen (write_all localbuffer buffer n k).1.screen
unfolding write_all
write_all-Confined localbuffer buffer n k o =
    let r = write_loop n localbuffer n buffer k in
    let loop = write_loop-Confined n localbuffer n buffer k o in
    elim (Bool-cases (ltb 0 r.0)) [
      | inr all ↦ rw all loop
      | inl some_left ↦ rw some_left (
          Confined-trans k.screen r.2.screen _ loop
            (write_chunk-Confined localbuffer r.1 r.0 r.2 loop.on_screen))
    ]

sys_write-Confined :
    (localbuffer : ℕ) (fd : ℤ) (buffer : ℕ) (nbytes : ℤ) (k : Kernel)
    → OnScreen k.screen
    → Confined k.screen (sys_write localbuffer fd buffer nbytes k).1.screen
unfolding sys_write
sys_write-Confined localbuffer fd buffer nbytes k o =
    elim (Bool-cases (not (eqb_ℤ (check_fd fd escriptura) (pos 0)))) [
      | inl other ↦ rw other (Confined-same k.screen o)
      | inr console ↦ elim (Bool-cases (ltb_ℤ nbytes (pos 0))) [
        | inl negative ↦ rw (console, negative) (Confined-same k.screen o)
        | inr natural ↦ elim (Bool-cases (not (accepts verify_read buffer nbytes k))) [
          | inl refused ↦ rw (console, natural, refused) (Confined-same k.screen o)
          | inr ok ↦
              rw (console, natural, ok)
                (write_all-Confined localbuffer buffer (pos_part nbytes) k o)
        ]
      ]
    ]

sys_gotoxy-Confined :
    (x y : ℤ) (k : Kernel) → OnScreen k.screen → Confined k.screen (sys_gotoxy x y k).1.screen
unfolding sys_gotoxy set_xy
sys_gotoxy-Confined x y k o = elim (Bool-cases (not (ltb_ℤ x (pos 80)) || ltb_ℤ x (pos 0))) [
  | inl far ↦ rw far (Confined-same k.screen o)
  | inr near ↦ elim (Bool-cases (not (ltb_ℤ y (pos 25)) || ltb_ℤ y (pos 0))) [
    | inl low ↦ rw (near, low) (Confined-same k.screen o)
    | inr high ↦
        rw (near, high) record { on_screen = ground arith; colored = λ h. h; kept = λ i le. refl }
  ]
]

sys_set_color-Confined :
    (fg bg : ℤ) (k : Kernel)
    → OnScreen k.screen
    → Confined k.screen (sys_set_color fg bg k).1.screen
unfolding sys_set_color set_text_color
sys_set_color-Confined fg bg k o = elim (Bool-cases (ltb_ℤ fg (pos 0) || ltb_ℤ (pos 15) fg)) [
  | inl off ↦ rw off (Confined-same k.screen o)
  | inr on ↦ elim (Bool-cases (ltb_ℤ bg (pos 0) || ltb_ℤ (pos 15) bg)) [
    | inl off ↦ rw (on, off) (Confined-same k.screen o)
    | inr on' ↦
        rw (on, on')
          record {
            on_screen = record { column = o.column; row = o.row };
            colored = λ h. omega arith;
            kept = λ i le. refl;
          }
  ]
]

-- A program's call, with whatever arguments.
pub data Call : Type 0 where
  write : (localbuffer : ℕ) (fd : ℤ) (buffer : ℕ) (nbytes : ℤ) → Call
  gotoxy : (x y : ℤ) → Call
  set_color : (fg bg : ℤ) → Call

unfoldable pub call : Call → Kernel → ℤ × Kernel
call (write localbuffer fd buffer nbytes) k = sys_write localbuffer fd buffer nbytes k
call (gotoxy x y) k = sys_gotoxy x y k
call (set_color fg bg) k = sys_set_color fg bg k

unfoldable pub calls : List Call → Kernel → Kernel
calls [] k = k
calls (c ∷ cs) k = calls cs (call c k).1

call-Confined : (c : Call) (k : Kernel) → OnScreen k.screen → Confined k.screen (call c k).1.screen
unfolding call
call-Confined (write localbuffer fd buffer nbytes) k o =
    sys_write-Confined localbuffer fd buffer nbytes k o
call-Confined (gotoxy x y) k o = sys_gotoxy-Confined x y k o
call-Confined (set_color fg bg) k o = sys_set_color-Confined fg bg k o

-- Whatever calls of `sys_write`, `sys_gotoxy` and `sys_set_color` a program makes, in any order and with
-- any arguments, a cursor on the screen stays on it, nothing outside the screen's 2000 cells of the video
-- memory changes, and a colour that leaves the low byte of a cell to the character stays such a colour.
pub calls-Confined :
    (cs : List Call) (k : Kernel) → OnScreen k.screen → Confined k.screen (calls cs k).screen
unfolding calls
calls-Confined [] k o = Confined-same k.screen o
calls-Confined (c ∷ cs) k o =
    let first = call-Confined c k o in
    Confined-trans k.screen (call c k).1.screen _ first
      (calls-Confined cs (call c k).1 first.on_screen)
