-- ===== src/Game.antt =====
-- The game of practica/zeos, game.c and include/game.h: a user's program on top of the kernel. Here are
-- its types, the places of the maze and the globals.
pub mod Search
pub mod Play
pub mod Draw
pub mod Moves
pub mod Maze
pub mod Turn
pub mod Drawn
pub mod Food
pub mod Inv
pub mod Pacman
pub mod Phantoms
pub mod Rounds
pub mod Lives
pub mod Loop
pub mod Start
pub mod NewGame
pub mod Reach
pub mod Keys
mod Tests
use soa_ze_os.Prelude.{ℕ, ◌*◌, Bool, true, false, not, ◌&&◌, List}
use soa_ze_os.Prelude.Int.{ℤ, pos, ◌+ℤ◌, ◌-ℤ◌, ltb_ℤ, eqb_ℤ}
use soa_ze_os.Links.{Links}

abbrev pub num_rows : ℕ
num_rows = 20

abbrev pub num_columns : ℕ
num_columns = 50

abbrev pub num_phantoms : ℕ
num_phantoms = 4

abbrev pub delay : ℕ
delay = 20

abbrev pub max_queue_size : ℕ
max_queue_size = num_rows * num_columns

-- `enum t_cell`, `CT_WALL` and so on
pub data TCell : Type 0 where
  ct_wall ct_null ct_food ct_empty : TCell

-- `enum t_dir`
pub data TDir : Type 0 where
  dt_null dt_up dt_down dt_left dt_right : TDir

-- `enum t_utype`
pub data TUtype : Type 0 where
  pacman_type phantom_type : TUtype

-- `struct t_unit`. The pacman's `x` is a row and its `y` a column; a phantom's are the other way round.
pub record TUnit : Type 0 where
  pub x : ℤ
  pub y : ℤ
  pub dir : TDir
  pub type : TUtype

-- `Matrix[i][j]`. At indices outside of the array stands what memory holds there.
abbrev pub Matrix : Type 0
Matrix = ℤ → ℤ → TCell

-- `struct t_game`; no code uses its `lives`. `phantom` is the array, by index.
pub record TGame : Type 0 where
  pub lives : ℤ
  pub points : ℕ
  pub matrix : Matrix
  pub pacman : TUnit
  pub phantom : ℕ → TUnit

abbrev pub is_wall : TCell → Bool
is_wall ct_wall = true
is_wall _ = false

abbrev pub is_food : TCell → Bool
is_food ct_food = true
is_food _ = false

abbrev pub is_null : TDir → Bool
is_null dt_null = true
is_null _ = false

-- `x >= 0 && x < ROWS && y >= 0 && y < COLUMNS`
abbrev pub in_maze : ℤ → ℤ → Bool
in_maze x y =
    not (ltb_ℤ x (pos 0))
    && ltb_ℤ x (pos num_rows)
    && not (ltb_ℤ y (pos 0))
    && ltb_ℤ y (pos num_columns)

-- The row and the column one step on.
unfoldable pub row_to : TDir → ℤ → ℤ
row_to dt_up x = x -ℤ pos 1
row_to dt_down x = x +ℤ pos 1
row_to dt_null x = x
row_to dt_left x = x
row_to dt_right x = x

unfoldable pub column_to : TDir → ℤ → ℤ
column_to dt_left y = y -ℤ pos 1
column_to dt_right y = y +ℤ pos 1
column_to dt_null y = y
column_to dt_up y = y
column_to dt_down y = y
