-- ===== src/Game/Search.antt =====
-- `bfs` of practica/zeos/game.c. The slots of `queue` hold their own indices (`queue[rear++] = rear - 1`,
-- the sum taken after the increment), so the slots from `front` to `rear` are the list of their nodes.
pub mod Marks
pub mod Loop
pub mod Levels
pub mod Round
pub mod Order
pub mod Correct
use mathlib.Core.List.{foldl}
use soa_ze_os.Prelude.{
  ℕ, zero, suc, ◌+◌, ◌*◌, Bool, true, false, not, ◌&&◌, Option, none, some, List, [], ◌∷◌, ◌++◌,
  ltb, if◌then◌else◌, get_or, set, replicate,
}
use soa_ze_os.Prelude.Int.{ℤ, pos_part, eqb_ℤ}
use soa_ze_os.Game.{
  num_columns, max_queue_size, TDir, dt_null, dt_up, dt_down, dt_left, dt_right, Matrix, is_wall,
  is_null, in_maze, row_to, column_to,
}

-- `struct node`
pub record Node : Type 0 where
  pub x : ℤ
  pub y : ℤ
  pub direction : TDir

-- The locals of `bfs`. `visited` is row after row.
pub record Search : Type 0 where
  pub visited : List Bool
  pub pending : List Node
  pub rear : ℕ

abbrev pub index : ℤ → ℤ → ℕ
index x y = pos_part x * num_columns + pos_part y

-- `visited[x][y]`, at a place of the maze.
abbrev pub is_visited : Search → ℤ → ℤ → Bool
is_visited s x y = get_or s.visited (index x y) false

-- `nodes[rear] = node; queue[rear++] = rear - 1; visited[node.x][node.y] = 1;`
unfoldable pub put_node : Node → Search → Search
put_node n s = record {
  visited = set s.visited (index n.x n.y) true;
  pending = s.pending ++ n ∷ [];
  rear = s.rear + 1;
}

-- The direction of the first step on the way to the node's neighbour.
abbrev pub inherit_direction : (direction new_direction : TDir) → TDir
inherit_direction direction new_direction = if is_null direction then new_direction else direction

-- One round of the `for` loop, for the neighbour of `current` in a direction.
unfoldable pub try_direction : Matrix → (current : Node) → Search → TDir → Search
try_direction m current s d =
    let nx = row_to d current.x in
    let ny = column_to d current.y in
    if in_maze nx ny && not (is_wall (m nx ny)) && not (is_visited s nx ny)
    then (if ltb s.rear max_queue_size
        then put_node (record { x = nx; y = ny; direction = inherit_direction current.direction d })
            s
        else s)
    else s

abbrev pub directions : List TDir
directions = dt_up ∷ dt_down ∷ dt_left ∷ dt_right ∷ []

-- The `for` loop, after `current` has left the queue.
unfoldable pub expand : Matrix → (current : Node) → (rest : List Node) → Search → Search
expand m current rest s = foldl (try_direction m current) (record s { pending = rest }) directions

abbrev pub is_at : Node → ℤ → ℤ → Bool
is_at n x y = eqb_ℤ n.x x && eqb_ℤ n.y y

-- The `while` loop; `none` when the fuel does not do.
unfoldable pub search : Matrix → (target_x target_y : ℤ) → ℕ → Search → Option TDir
search m tx ty zero s = none
search m tx ty (suc fuel) s = elim s.pending [
  | [] ↦ some dt_null
  | n ∷ rest ↦
      let further = search m tx ty fuel (expand m n rest s) in
      if is_at n tx ty then some n.direction else further
]

unfoldable pub start : (start_x start_y : ℤ) → Search
start sx sy =
    put_node (record { x = sx; y = sy; direction = dt_null })
      (record { visited = replicate max_queue_size false; pending = []; rear = 0 })

-- The queue takes each place once, so it is empty after as many rounds as there are places.
unfoldable pub bfs : Matrix → (start_x start_y target_x target_y : ℤ) → Option TDir
bfs m sx sy tx ty = search m tx ty (max_queue_size + 1) (start sx sy)
