-- ===== src/Game/Inv.antt =====
-- When a game of practica/zeos/game.c is in order.
use soa_ze_os.Prelude.{ℕ, ◌+◌, ◌<◌, ◌≡◌, refl, ◌⊎◌, true, false, arith}
use soa_ze_os.Prelude.Int.{ℤ, pos, pos_part, ◌+ℤ◌, ◌-ℤ◌}
use soa_ze_os.Game.{
  num_rows, num_columns, num_phantoms, TDir, dt_null, dt_up, dt_down, dt_left, dt_right,
  pacman_type, phantom_type, TGame, Matrix, is_wall, in_maze, row_to, column_to,
}
use soa_ze_os.Game.Search.Marks.{is_open, InMaze, is_open-InMaze}

-- The places at the rim of the maze.
abbrev pub OnEdge : ℤ → ℤ → Type 0
OnEdge x y =
    (pos_part x ≡ 0)
    ⊎ (pos_part x + 1 ≡ num_rows)
    ⊎ (pos_part y ≡ 0)
    ⊎ (pos_part y + 1 ≡ num_columns)

-- Walls stand all round.
abbrev pub HasEdge : Matrix → Type 0
HasEdge m = (x y : ℤ) → InMaze x y → OnEdge x y → is_wall (m x y) ≡ true

-- What the units rely on of the maze: walls all round, and none at the places where they start.
pub record IsMaze (m : Matrix) : Type 0 where
  pub edge : HasEdge m
  pub home : is_open m (pos 1) (pos 1) ≡ true
  pub homes : (i j : ℕ) → i < 2 → j < 2 → is_open m (pos (17 + j)) (pos (47 + i)) ≡ true

-- The units are of their kinds and stand in the maze, on no wall; a phantom's `x` is its column.
pub record IsGame (g : TGame) : Type 0 where
  pub maze : IsMaze g.matrix
  pub pacman_type : g.pacman.type ≡ pacman_type
  pub pacman_open : is_open g.matrix g.pacman.x g.pacman.y ≡ true
  pub phantom_type : (i : ℕ) → i < num_phantoms → (g.phantom i).type ≡ phantom_type
  pub phantom_open :
      (i : ℕ) → i < num_phantoms → is_open g.matrix (g.phantom i).y (g.phantom i).x ≡ true

-- From a place off the rim every step stays in the maze.
InMaze-step :
    (x y : ℤ) (d : TDir) → InMaze x y → ¬ OnEdge x y → in_maze (row_to d x) (column_to d y) ≡ true
unfolding row_to column_to ◌+ℤ◌ ◌-ℤ◌
InMaze-step x y dt_null h off = ground (arith, h.row, h.column)
InMaze-step x y dt_up h off = ground (arith, h.row, h.column)
InMaze-step x y dt_down h off = ground (arith, h.row, h.column)
InMaze-step x y dt_left h off = ground (arith, h.row, h.column)
InMaze-step x y dt_right h off = ground (arith, h.row, h.column)

-- A step onto no wall is a step onto an open place.
pub step-is_open :
    (m : Matrix) (x y : ℤ) (d : TDir)
    → HasEdge m
    → is_open m x y ≡ true
    → is_wall (m (row_to d x) (column_to d y)) ≡ false
    → is_open m (row_to d x) (column_to d y) ≡ true
step-is_open m x y d edge opens free =
    let inside = is_open-InMaze m x y opens in
    let off : ¬ OnEdge x y = λ at. absurd (ground (arith, edge x y inside at)) in
    rw (InMaze-step x y d inside off, free) refl
