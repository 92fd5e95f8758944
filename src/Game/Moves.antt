-- ===== src/Game/Moves.antt =====
-- The moves of the pacman and of the phantoms in practica/zeos/game.c.
use soa_ze_os.Prelude.{
  ℕ, zero, suc, ◌+◌, ◌%◌, Bool, true, false, not, ◌&&◌, Option, none, some, List, [], ◌∷◌, ltb,
  ◌==◌, if◌then◌else◌, get_or,
}
use soa_ze_os.Prelude.Int.{ℤ, pos, ◌+ℤ◌, ◌-ℤ◌, ltb_ℤ}
use soa_ze_os.Links.{Addr, list_del}
use soa_ze_os.Game.{
  num_rows, num_columns, num_phantoms, TCell, ct_wall, ct_null, ct_food, ct_empty, TDir, dt_null,
  dt_left, pacman_type, phantom_type, TUnit, Matrix, is_wall, is_null, row_to, column_to,
}
use soa_ze_os.Game.Search.{bfs}
use soa_ze_os.Game.Play.{Play, put_phantom}

-- The pacman stays where a wall is ahead. With `DT_NULL` the place ahead is his own.
unfoldable pub move_pacman : Matrix → TUnit → (current_x current_y : ℤ) → TUnit
move_pacman m u x y =
    if is_wall (m (row_to u.dir x) (column_to u.dir y))
    then record u { x = x; y = y }
    else record u { x = row_to u.dir x; y = column_to u.dir y }

-- A phantom goes where its direction says; its `x` is a column.
unfoldable pub move_phantom : TUnit → (current_x current_y : ℤ) → TUnit
move_phantom u x y = record u { x = column_to u.dir x; y = row_to u.dir y }

-- The unit as `move` leaves it; nothing else changes.
unfoldable pub move : Matrix → TUnit → (current_x current_y : ℤ) → TUnit
move m u x y = elim u.type [ pacman_type ↦ move_pacman m u x y | phantom_type ↦ move_phantom u x y ]

abbrev pub is_walkable : TCell → Bool
is_walkable ct_empty = true
is_walkable ct_food = true
is_walkable ct_wall = false
is_walkable ct_null = false

-- No code calls it. Its `x` is moved like a row and tested like a column.
unfoldable pub is_possible_move : Matrix → (x y : ℤ) → TDir → Bool
is_possible_move m x y d =
    let nx = row_to d x in
    let ny = column_to d y in
    not (ltb_ℤ nx (pos 0))
    && ltb_ℤ nx (pos num_columns)
    && not (ltb_ℤ ny (pos 0))
    && ltb_ℤ ny (pos num_rows)
    && is_walkable (m ny nx)

-- The list operation of `is_viable`, on the links of the state.
abbrev pub unlink : Addr → Play → Option Play
unlink a p = elim (list_del a p.links) [ none ↦ none | some (_, h) ↦ some (record p { links = h }) ]

-- Whether the pacman can go in the direction; then the move is taken off the list.
unfoldable pub is_viable : (curr_lhpos : Addr) → (direction : TDir) → Play → Option (Bool × Play)
is_viable a d p =
    let u = p.game.pacman in
    if not (is_null d) && not (is_wall (p.game.matrix (row_to d u.x) (column_to d u.y)))
    then elim (unlink a p) [ none ↦ none | some q ↦ some (true, q) ]
    else some (false, p)

-- The distance of a phantom at `px`, `py` from the pacman, by columns and rows.
unfoldable pub distance : (px py pmx pmy : ℤ) → ℤ
distance px py pmx pmy =
    if ltb_ℤ pmx px
    then (if ltb_ℤ pmy py then (px -ℤ pmx) +ℤ (py -ℤ pmy) else (px -ℤ pmx) +ℤ (pmy -ℤ py))
    else (if ltb_ℤ pmy py then (pmx -ℤ px) +ℤ (py -ℤ pmy) else (pmx -ℤ px) +ℤ (pmy -ℤ py))

-- `phantom1` to `phantom4`
abbrev pub turns : ℕ → List ℕ
turns zero = 2 ∷ 2 ∷ 1 ∷ 1 ∷ 1 ∷ 2 ∷ 1 ∷ 1 ∷ 2 ∷ 2 ∷ []
turns (suc zero) = 2 ∷ 2 ∷ 1 ∷ 1 ∷ 1 ∷ 2 ∷ 1 ∷ 1 ∷ 2 ∷ 2 ∷ []
turns _ = 1 ∷ 1 ∷ 2 ∷ 2 ∷ 1 ∷ 1 ∷ 2 ∷ 2 ∷ 1 ∷ 1 ∷ []

abbrev pub turn_of : (i indice : ℕ) → ℕ
turn_of i indice = get_or (turns i) indice 0

unfoldable pub set_dir : (i : ℕ) → TDir → Play → Play
set_dir i d p = record p { game = put_phantom i (record (p.game.phantom i) { dir = d }) p.game }

-- The phantom takes a step in the direction that `bfs` finds to the pacman.
unfoldable pub chase : (i : ℕ) → Play → Option Play
chase i p =
    let g = p.game in
    let u = g.phantom i in
    elim (bfs g.matrix u.y u.x g.pacman.x g.pacman.y) [
      | none ↦ none
      | some d ↦
          let turned : TUnit = record u { dir = d } in
          some (record p { game = put_phantom i (move g.matrix turned u.x u.y) g })
    ]

-- Until `random` reaches `first` the phantom only looks to the left.
unfoldable pub chase_from : (first i : ℕ) → Play → Option Play
chase_from first i p =
    let chased = chase i p in if ltb p.random first then some (set_dir i dt_left p) else chased

-- The tests on `i` and on the phantom's turn. Phantom 0 goes on odd numbers, and the test that would
-- stop it is the same once more; the others go on even numbers and stop on odd ones.
unfoldable pub take_turn : (i indice : ℕ) → Play → Option Play
take_turn zero indice p =
    let chased = chase_from 2 0 p in if turn_of 0 indice % 2 == 0 then some p else chased
take_turn (suc zero) indice p =
    let chased = chase_from 4 1 p in
    if turn_of 1 indice % 2 == 0 then chased else some (set_dir 1 dt_null p)
take_turn (suc (suc zero)) indice p =
    let chased = chase_from 1 2 p in
    if turn_of 2 indice % 2 == 0 then chased else some (set_dir 2 dt_null p)
take_turn (suc (suc (suc zero))) indice p =
    let chased = chase 3 p in
    if turn_of 3 indice % 2 == 0 then chased else some (set_dir 3 dt_null p)
take_turn _ indice p = some p

abbrev pub count_turn : Option Play → Option Play
count_turn none = none
count_turn (some p) = some (record p { random = p.random + 1 })

-- One round of `move_phantoms`.
unfoldable pub turn_phantom : (i : ℕ) → Play → Option Play
turn_phantom i p =
    let u = p.game.phantom i in
    let far = distance u.x u.y p.game.pacman.y p.game.pacman.x -ℤ pos 10 in
    let moved = count_turn (take_turn i (p.random % 10) p) in
    if ltb_ℤ (pos 17) far then some p else moved

abbrev pub turns_from : (n i : ℕ) → Play → Option Play
turns_from zero i p = some p
turns_from (suc n) i p = elim (turn_phantom i p) [ none ↦ none | some q ↦ turns_from n (i + 1) q ]

unfoldable pub move_phantoms : Play → Option Play
move_phantoms = turns_from num_phantoms 0
