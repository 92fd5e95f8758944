-- ===== src/Game/Turn.antt =====
-- The loop of `start_game` and the keyboard's process, practica/zeos/game.c.
use soa_ze_os.Prelude.{
  ℕ, zero, suc, ◌+◌, ◌*◌, Bool, ◌&&◌, Option, none, some, ltb, leb, ◌==◌, if◌then◌else◌,
}
use soa_ze_os.Prelude.Int.{ℤ, pos, ◌-ℤ◌, ltb_ℤ, eqb_ℤ}
use soa_ze_os.Links.{Links, null, update, list_add_tail, list_empty, list_first}
use soa_ze_os.Game.{
  num_phantoms, delay, TDir, dt_null, dt_up, dt_down, dt_left, dt_right, ct_empty, TGame, is_null,
  is_food,
}
use soa_ze_os.Game.Play.{Play, movements, moviments_list, gettime}
use soa_ze_os.Game.Draw.{print_frame, imprimir_coordenadas, clear_screen, end_game}
use soa_ze_os.Game.Moves.{move, is_viable, move_phantoms}
use soa_ze_os.Game.Maze.{put_cell, restart}

-- The direction of a key.
abbrev pub key_direction : ℕ → TDir
key_direction c =
    if c == b'w'
    then dt_up
    else if c == b's'
    then dt_down
    else if c == b'a'
    then dt_left
    else if c == b'd'
    then dt_right
    else dt_null

-- One round of `read_keyboard` on the shared word, which holds a direction: with `DT_NULL` in it the
-- process reads the character `c`, otherwise it yields.
unfoldable pub read_keyboard : (c : ℕ) → TDir → TDir
read_keyboard c shared = if is_null shared then key_direction c else shared

-- `moviments = (struct t_mov) {.direction = direction};`, which clears the node's pointers too.
unfoldable pub write_move : TDir → Play → Play
write_move d p = record p {
  moviment = d;
  links = record {
    next = update p.links.next moviments_list null;
    prev = update p.links.prev moviments_list null;
  };
}

abbrev pub with_links : {A : Type 0} → Play → Option (A × Links) → Option (A × Play)
with_links p none = none
with_links p (some (a, h)) = some (a, record p { links = h })

-- The move that waits in shared memory goes to the end of the list.
unfoldable pub take_move : TDir → Play → Option Play
take_move d p =
    let q = write_move d p in
    let added = with_links q (list_add_tail moviments_list movements q.links) in
    if is_null d then some p else elim added [ none ↦ none | some (_, r) ↦ some r ]

-- Food at a place is eaten, for 10 points.
unfoldable pub eat : (x y : ℤ) → TGame → TGame
eat x y g =
    if is_food (g.matrix x y)
    then record g { points = g.points + 10; matrix = put_cell x y ct_empty g.matrix }
    else g

-- The pacman's move in his direction, and then the food at the place that he has left.
unfoldable pub step_pacman : TGame → TGame
step_pacman g = let u = g.pacman in eat u.x u.y (record g { pacman = move g.matrix u u.x u.y })

unfoldable pub turn_pacman : TDir → TGame → TGame
turn_pacman d g = record g { pacman = record g.pacman { dir = d } }

abbrev pub step_viable : Option (Bool × Play) → Option Play
step_viable none = none
step_viable (some (b, p)) =
    let turned = if b then turn_pacman p.moviment p.game else p.game in
    some (record p { game = step_pacman turned })

-- With moves on the list the first is tried and the pacman goes one step. The node is always the one in
-- `moviments`.
unfoldable pub turn_of_pacman : Play → Option Play
turn_of_pacman p = elim (list_empty movements p.links) [
  | none ↦ none
  | some (empty, _) ↦
      let moved : Option Play = elim (list_first movements p.links) [
        | none ↦ none
        | some (curr_lhpos, _) ↦ step_viable (is_viable curr_lhpos p.moviment p)
      ] in
      if empty then some p else moved
]

abbrev pub meets : (i : ℕ) → TGame → Bool
meets i g = eqb_ℤ g.pacman.y (g.phantom i).x && eqb_ℤ g.pacman.x (g.phantom i).y

-- The first phantom at the pacman's place takes a life, and everything starts again.
unfoldable pub check_phantoms : (n i : ℕ) → Play → Play
check_phantoms zero i p = p
check_phantoms (suc n) i p =
    let rest = check_phantoms n (i + 1) p in
    if meets i p.game then restart (record p { lives = p.lives -ℤ pos 1 }) else rest

-- `while (gettime() <= deadline) {}`; `none` when the fuel does not do.
unfoldable pub wait : ℕ → (deadline : ℕ) → Play → Option Play
wait zero deadline p = none
wait (suc fuel) deadline p =
    let (time, q) = gettime p in
    let later = wait fuel deadline q in if leb time deadline then later else some q

-- What the phantoms do, and the screen, after the pacman's move.
unfoldable pub turn_of_phantoms : Play → Option Play
turn_of_phantoms p = elim (move_phantoms p) [
  | none ↦ none
  | some q ↦ some (print_frame (check_phantoms num_phantoms 0 (imprimir_coordenadas q)))
]

-- One round of the loop, with the move in shared memory; with the new `curr_time`.
unfoldable pub play_round : (fuel : ℕ) → TDir → (curr_time : ℕ) → Play → Option (ℕ × Play)
play_round fuel key curr_time p = elim (take_move key p) [
  | none ↦ none
  | some a ↦ elim (turn_of_pacman a) [
    | none ↦ none
    | some b ↦ elim (turn_of_phantoms b) [
      | none ↦ none
      | some c ↦ elim (wait fuel (curr_time + delay) c) [ none ↦ none | some d ↦ some (gettime d) ]
    ]
  ]
]

-- `lives > 0 && game->points < total*10`
abbrev pub goes_on : Play → Bool
goes_on p = ltb_ℤ (pos 0) p.lives && ltb p.game.points (p.total * 10)

-- The loop, for at most `n` rounds: `none` for a fault or a wait without end, and the state in which the
-- loop stands otherwise.
unfoldable pub play_rounds : (fuel n : ℕ) → (keys : ℕ → TDir) → (curr_time : ℕ) → Play → Option Play
play_rounds fuel zero keys curr_time p = some p
play_rounds fuel (suc n) keys curr_time p =
    let further : Option Play = elim (play_round fuel (keys 0) curr_time p) [
      | none ↦ none
      | some (time, q) ↦ play_rounds fuel n (λ k. keys (k + 1)) time q
    ] in
    if goes_on p then further else some p

-- `start_game`, when the loop ends within `n` rounds.
unfoldable pub start_game : (fuel n : ℕ) → (keys : ℕ → TDir) → Play → Option Play
start_game fuel n keys p =
    let (time, q) = gettime p in
    elim (play_rounds fuel n keys time q) [
      | none ↦ none
      | some r ↦ if goes_on r then none else some (end_game (clear_screen r))
    ]
