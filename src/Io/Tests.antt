-- ===== src/Io/Tests.antt =====
-- The screen theorems near the end of the last row.
use soa_ze_os.Prelude.{ℕ, ◌+◌, ◌<◌, ◌≡◌, refl, [], ◌∷◌, ◌==◌, if◌then◌else◌, ltb, arith, get_or}
use soa_ze_os.Io.{Screen, cell_of, printc, printc_xy, printk, sys_write_console}
use soa_ze_os.Io.Cursor.{OnScreen, place, cells, printc_lem, printc_xy_lem}
use soa_ze_os.Io.Text.{offset, text, printk_lem, sys_write_console_lem}

-- The cursor is on the last but one cell.
abbrev screen : Screen
screen = record { x = 78; y = 24; color = 0x200; vga = λ i. 0; log = [] }

-- `A` in green, and the cursor after two characters.
green : (printc 65 screen).vga 1998 ≡ 0x241
unfolding printc cell_of
green = refl

wraps : (printk (65 ∷ 66 ∷ []) screen).x ≡ 0
unfolding printk printc
wraps = refl

screen-OnScreen : OnScreen screen
screen-OnScreen = omega arith

printc_lem_example :
    (place (printc 65 screen) ≡ 1999)
    × (place screen < cells)
    × ((printc 65 screen).color ≡ 0x200)
    × ((i : ℕ) → (printc 65 screen).vga i ≡ (if i == 1998 then cell_of 0x200 65 else 0))
printc_lem_example = printc_lem 65 screen-OnScreen (omega arith)

printc_xy_lem_example :
    ((printc_xy 3 2 65 screen).x ≡ 78)
    × ((printc_xy 3 2 65 screen).y ≡ 24)
    × ((i : ℕ) → (printc_xy 3 2 65 screen).vga i ≡ (if i == 163 then cell_of 0x200 65 else 0))
printc_xy_lem_example = printc_xy_lem 3 2 65 screen (omega arith) (omega arith) (omega arith)

printk_lem_example :
    OnScreen (printk (65 ∷ 66 ∷ 67 ∷ []) screen)
    × (place (printk (65 ∷ 66 ∷ 67 ∷ []) screen) ≡ 1)
    × ((i : ℕ)
        → i < cells
        → (printk (65 ∷ 66 ∷ 67 ∷ []) screen).vga i ≡ (
            if ltb (offset i screen) 3
            then cell_of 0x200 (get_or (65 ∷ 66 ∷ 67 ∷ []) (offset i screen) 0)
            else 0))
printk_lem_example =
    printk_lem (65 ∷ 66 ∷ 67 ∷ []) screen screen-OnScreen (omega arith) (omega arith)

sys_write_console_lem_example :
    let (n, s') = sys_write_console (λ i. 65 + i) 3 screen in
    (n ≡ 3) × (s'.log ≡ text (λ i. 65 + i) 0 3) × OnScreen s'
sys_write_console_lem_example = sys_write_console_lem (λ i. 65 + i) 3 screen screen-OnScreen
