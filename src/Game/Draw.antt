-- ===== src/Game/Draw.antt =====
-- The drawing of practica/zeos/game.c.
use soa_ze_os.Prelude.{ℕ, ◌+◌, ◌*◌, ◌/◌, Bool, true, false, ltb, if◌then◌else◌, rounds}
use soa_ze_os.Prelude.Int.{ℤ, pos, negsuc, ◌+ℤ◌, ◌-ℤ◌, ltb_ℤ, sub_ℕ}
use soa_ze_os.Game.{
  num_rows, num_columns, num_phantoms, TCell, ct_wall, ct_null, ct_food, ct_empty, TDir, dt_null,
  dt_up, dt_down, dt_left, dt_right,
}
use soa_ze_os.Game.Play.{Play, ◌⟫◌, gotoxy, set_color, write, write_number, gettime, codes}

-- The colours of game.h, foreground and background.
abbrev pub wall_color : Play → Play
wall_color = set_color 0 2

abbrev pub food_color : Play → Play
food_color = set_color 0 4

abbrev pub empty_color : Play → Play
empty_color = set_color 0 4

abbrev pub pacman_color : Play → Play
pacman_color = set_color 0 5

-- `PHANTOM1_FOREGROUND` is 10, and so on to 13 for the fourth.
abbrev pub phantom_color : ℕ → Play → Play
phantom_color i = set_color (10 + i) 0

abbrev pub surround_color : Play → Play
surround_color = set_color 0 0

unfoldable pub print_cell : TCell → Play → Play
print_cell ct_wall = wall_color ⟫ write (codes "#")
print_cell ct_food = food_color ⟫ write (codes "*")
print_cell ct_empty = empty_color ⟫ write (codes " ")
print_cell ct_null = λ p. p

abbrev pub is_vertical : TDir → Bool
is_vertical dt_up = true
is_vertical dt_down = true
is_vertical dt_null = false
is_vertical dt_left = false
is_vertical dt_right = false

-- A column or a row of the maze.
unfoldable pub print_column : (y : ℤ) → Play → Play
print_column y =
    rounds num_rows 0
      λ i. gotoxy (pos 10 +ℤ y) (pos (2 + i)) ⟫ λ p. print_cell (p.game.matrix (pos i) y) p

unfoldable pub print_row : (x : ℤ) → Play → Play
print_row x =
    rounds num_columns 0
      λ i. gotoxy (pos (10 + i)) (pos 2 +ℤ x) ⟫ λ p. print_cell (p.game.matrix x (pos i)) p

unfoldable pub print_piece_map_pacman : Play → Play
print_piece_map_pacman p =
    let u = p.game.pacman in if is_vertical u.dir then print_column u.y p else print_row u.x p

-- The loop's body ends in a `return`, so only the first phantom has its turn.
unfoldable pub print_piece_map_phantom : Play → Play
print_piece_map_phantom p =
    let u = p.game.phantom 0 in if is_vertical u.dir then print_column u.x p else print_row u.y p

unfoldable pub print_map : Play → Play
print_map = rounds num_rows 0 λ i.
    gotoxy (pos 10) (pos (2 + i))
    ⟫ rounds num_columns 0 λ j p. print_cell (p.game.matrix (pos i) (pos j)) p

unfoldable pub print_phantom : (i : ℕ) → Play → Play
print_phantom i p =
    let u = p.game.phantom i in
    (gotoxy (u.x +ℤ pos 10) (u.y +ℤ pos 2) ⟫ phantom_color i ⟫ write (codes "A")) p

unfoldable pub print_units : Play → Play
print_units p =
    let u = p.game.pacman in
    (gotoxy (u.y +ℤ pos 10) (u.x +ℤ pos 2)
        ⟫ pacman_color
        ⟫ write (codes "C")
        ⟫ rounds num_phantoms 0 print_phantom)
      p

unfoldable pub clear_screen : Play → Play
clear_screen = surround_color ⟫ gotoxy (pos 0) (pos 0) ⟫ rounds (25 * 80) 0 λ _. write (codes " ")

-- Division of an `int` by a positive one, toward 0.
abbrev pub div_trunc : ℤ → ℕ → ℤ
div_trunc (pos n) d = pos (n / d)
div_trunc (negsuc n) d = sub_ℕ 0 ((n + 1) / d)

-- `frames / segundos` if that is positive, else 0.
unfoldable pub frame_rate : (frames : ℕ) (segundos : ℤ) → ℕ
frame_rate frames (pos n) = if ltb 0 n then frames / n else 0
frame_rate frames (negsuc n) = 0

-- `write(1, c, strlen(c))` through the uninitialised `c`.
unfoldable pub print_stray : Play → Play
print_stray p = write p.stray p

unfoldable pub print_padding : (fps : ℕ) → Play → Play
print_padding fps p =
    if ltb fps 100 then (surround_color ⟫ gotoxy (pos 3) (pos 1) ⟫ write (codes " ")) p else p

-- The frame rate, and the points.
unfoldable pub print_rate : (fps : ℕ) → Play → Play
print_rate fps = gotoxy (pos 1) (pos 1) ⟫ print_stray ⟫ print_padding fps

unfoldable pub print_points : Play → Play
print_points p = (phantom_color 3 ⟫ gotoxy (pos 72) (pos 5) ⟫ write_number (pos p.game.points)) p

unfoldable pub print_frame : Play → Play
print_frame p =
    let drawn = (print_map ⟫ print_units) p in
    let (time, q) = gettime (record drawn { frames = drawn.frames + 1 }) in
    let temps = pos time -ℤ q.offset_actual in
    (print_rate (frame_rate q.frames (div_trunc temps (18 * 60))) ⟫ print_points) q

-- The places of the units, and the lives, at the left of the screen.
unfoldable pub print_number_at : (y : ℕ) → ℤ → Play → Play
print_number_at y a = gotoxy (pos 0) (pos y) ⟫ write_number a

unfoldable pub imprimir_coordenadas : Play → Play
imprimir_coordenadas p =
    let g = p.game in
    (print_number_at 2 g.pacman.x
        ⟫ print_number_at 3 g.pacman.y
        ⟫ print_number_at 5 (g.phantom 0).x
        ⟫ print_number_at 6 (g.phantom 0).y
        ⟫ print_number_at 8 (g.phantom 1).x
        ⟫ print_number_at 9 (g.phantom 1).y
        ⟫ print_number_at 11 (g.phantom 2).x
        ⟫ print_number_at 12 (g.phantom 2).y
        ⟫ print_number_at 14 (g.phantom 3).x
        ⟫ print_number_at 15 (g.phantom 3).y
        ⟫ print_number_at 17 p.lives)
      p

unfoldable pub end_game : Play → Play
end_game p =
    let ready = (pacman_color ⟫ gotoxy (pos 16) (pos 12)) p in
    if ltb_ℤ (pos 0) p.lives
    then write (codes "CONGRATULATIONS, YOU'VE COMPLETED SOA :P SIUUU") ready
    else (gotoxy (pos 20) (pos 12) ⟫ write (codes "HAHAHA GAME OVER LOSER XD")) ready
