-- ===== src/Game/Tests.antt =====
-- The game's theorems at a new game and at a small list of moves.
use soa_ze_os.Prelude.{ℕ, ◌≡◌, refl, ◌==◌, if◌then◌else◌, some, [], ◌∷◌}
use soa_ze_os.Prelude.Int.{pos, pos_part, ◌+ℤ◌, ◌-ℤ◌}
use soa_ze_os.Links.{Links}
use soa_ze_os.Game.{TDir, dt_null, dt_right, pacman_type, TUnit, Matrix, ct_null, row_to, column_to}
use soa_ze_os.Game.Maze.{initial_cell}
use soa_ze_os.Game.Search.{bfs, search, expand, try_direction, start, put_node}
use soa_ze_os.Game.Search.Correct.{Answer, bfs_lem}
use soa_ze_os.Game.Play.{Play, gettime}
use soa_ze_os.Game.NewGame.{init_game_lem}

abbrev maze : Matrix
maze x y = initial_cell (pos_part x) (pos_part y)

-- The fourth phantom's start and the pacman's.
bfs_lem_example :
    (d : TDir) × (bfs maze (pos 18) (pos 48) (pos 1) (pos 1) ≡ some d)
    × Answer maze (pos 18) (pos 48) (pos 1) (pos 1) d
unfolding initial_cell
bfs_lem_example = bfs_lem maze (pos 18) (pos 48) (pos 1) (pos 1) refl

-- Two steps to the right in the first row.
bfs_right : bfs maze (pos 1) (pos 1) (pos 1) (pos 3) ≡ some dt_right
unfolding bfs search expand try_direction start put_node row_to column_to initial_cell ◌+ℤ◌ ◌-ℤ◌
bfs_right = refl

abbrev nobody : TUnit
nobody = record { x = pos 0; y = pos 0; dir = dt_null; type = pacman_type }

abbrev no_links : Links
no_links = record { next = λ _. 0; prev = λ _. 0 }

-- Memory before the game, with a clock that moves on by one at each reading.
abbrev before : Play
before = record {
  game = record {
    lives = pos 0;
    points = 0;
    matrix = λ _ _. ct_null;
    pacman = nobody;
    phantom = λ _. nobody;
  };
  frames = 0;
  offset_actual = pos 0;
  lives = pos 0;
  random = 0;
  total = 0;
  links = no_links;
  moviment = dt_null;
  calls = [];
  clock = λ n. n;
  clock_reads = 0;
  stray = b'7' ∷ [];
}

abbrev new_game : Play
new_game = (init_game_lem (pos 0) before refl).0

abbrev first_state : Play
first_state = (gettime new_game).1

abbrev first_time : ℕ
first_time = (gettime new_game).0

-- The move's node hangs on the list.
abbrev one_move : Play
one_move = record before {
  links = record {
    next = λ a. if a == 4 then 8 else if a == 8 then 4 else 0;
    prev = λ a. if a == 4 then 8 else if a == 8 then 4 else 0;
  };
}
