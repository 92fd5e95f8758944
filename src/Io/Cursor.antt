-- ===== src/Io/Cursor.antt =====
-- The cursor stays on the screen, and what is drawn stays in the screen's memory.
use soa_ze_os.Prelude.{
  ℕ, ◌+◌, ◌*◌, ◌%◌, ◌<◌, ◌≡◌, ◌≢◌, refl, [], ◌∷◌, ◌++◌, ◌==◌, if◌then◌else◌, arith,
}
use soa_ze_os.Io.{Screen, num_columns, num_rows, newline, cell_of, printc, printc_xy}

-- The cursor is on the screen.
pub record OnScreen (s : Screen) : Type 0 where
  pub column : s.x < num_columns
  pub row : s.y < num_rows

-- The cell under the cursor, counted row by row.
abbrev pub place : Screen → ℕ
place s = s.y * num_columns + s.x

abbrev pub cells : ℕ
cells = 2000

pub printc-OnScreen : {s : Screen} (c : ℕ) → OnScreen s → OnScreen (printc c s)
unfolding printc
printc-OnScreen c o = ground arith

-- Every character goes to the debug port, and none changes the colour.
pub log-printc :
    (c : ℕ) (s : Screen) → ((printc c s).log ≡ s.log ++ (c ∷ [])) × ((printc c s).color ≡ s.color)
unfolding printc
log-printc c s = (ground arith, ground arith)

-- A character other than a newline moves the cursor one cell on, round the screen, and changes only
-- the cell under the cursor.
pub printc_lem :
    {s : Screen} (c : ℕ)
    → OnScreen s
    → c ≢ newline
    → (place (printc c s) ≡ (place s + 1) % cells)
      × (place s < cells)
      × ((printc c s).color ≡ s.color)
      × ((i : ℕ) → (printc c s).vga i ≡ (if i == place s then cell_of s.color c else s.vga i))
unfolding printc
printc_lem c o ne = (ground arith, omega (arith, o), ground arith, λ i. ground arith)

-- `printc_xy` draws at the given place and leaves the cursor where it was.
pub printc_xy_lem :
    (mx my c : ℕ) (s : Screen)
    → mx < num_columns
    → my < num_rows
    → c ≢ newline
    → let s' = printc_xy mx my c s in
      (s'.x ≡ s.x)
      × (s'.y ≡ s.y)
      × ((i : ℕ) → s'.vga i ≡ (if i == my * num_columns + mx then cell_of s.color c else s.vga i))
unfolding printc_xy printc
printc_xy_lem mx my c s hx hy ne = (refl, refl, λ i. ground arith)
