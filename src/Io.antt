-- ===== src/Io.antt =====
-- The text screen, practica/zeos/io.c and devices.c. The cursor and the colour are the globals of
-- io.c, `vga` is the memory at 0xb8000 by cell, and `log` holds the bytes sent to the debug port.
pub mod Cursor
pub mod Text
mod Tests
use Prim.Native.Nat.{bit_or}
use soa_ze_os.Prelude.{
  ℕ, zero, suc, ◌+◌, ◌*◌, ◌%◌, ◌^◌, List, [], ◌∷◌, ◌++◌, leb, ◌==◌, if◌then◌else◌, rounds,
}

abbrev pub num_columns : ℕ
num_columns = 80

abbrev pub num_rows : ℕ
num_rows = 25

abbrev pub newline : ℕ
newline = 10

pub record Screen : Type 0 where
  pub x : ℕ
  pub y : ℕ
  pub color : ℕ
  pub vga : ℕ → ℕ
  pub log : List ℕ

abbrev pub put_cell : (ℕ → ℕ) → ℕ → ℕ → ℕ → ℕ
put_cell vga i ch j = if j == i then ch else vga j

-- The `Word` of a character in the current colour.
unfoldable pub cell_of : (color c : ℕ) → ℕ
cell_of color c = bit_or (c % 2 ^ 8) color % 2 ^ 16

-- Moves the cursor to the start of the next row, round to the first.
abbrev pub next_row : Screen → Screen
next_row s = record s { x = 0; y = (s.y + 1) % num_rows }

unfoldable pub printc : ℕ → Screen → Screen
printc c s =
    let logged : Screen = record s { log = s.log ++ (c ∷ []) } in
    if c == newline
    then next_row logged
    else let drawn : Screen = record logged {
      vga = put_cell s.vga (s.y * num_columns + s.x) (cell_of s.color c);
      x = (s.x + 1) % 2 ^ 8;
    } in
      if leb num_columns drawn.x then next_row drawn else drawn

unfoldable pub printc_xy : (mx my c : ℕ) → Screen → Screen
printc_xy mx my c s =
    let moved : Screen = printc c (record s { x = mx % 2 ^ 8; y = my % 2 ^ 8 }) in
    record moved { x = s.x; y = s.y }

-- A string is the list of its characters; it ends at the first 0, or with the list.
unfoldable pub printk : List ℕ → Screen → Screen
printk [] s = s
printk (c ∷ string) s = if c == 0 then s else printk string (printc c s)

unfoldable pub set_xy : (mx my : ℕ) → Screen → Screen
set_xy mx my s = record s { x = mx % 2 ^ 8; y = my % 2 ^ 8 }

-- The colours as `Byte`s, foreground low and background in the high nibble, moved to the high byte.
unfoldable pub set_text_color : (fg bg : ℕ) → Screen → Screen
set_text_color fg bg s = record s {
  color = bit_or (fg % 2 ^ 8) (bg % 2 ^ 8 * 2 ^ 4) * 2 ^ 8 % 2 ^ 16;
}

-- `sys_write_console` of devices.c: the characters `buffer[0]` to `buffer[size - 1]`, and `size`.
-- A buffer is a map from indices to characters.
unfoldable pub sys_write_console : (buffer : ℕ → ℕ) (size : ℕ) → Screen → ℕ × Screen
sys_write_console buffer size s = (size, rounds size 0 (λ i. printc (buffer i)) s)
