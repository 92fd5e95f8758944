-- ===== src/Game/Pacman.antt =====
-- The pacman's moves and meals keep a game of practica/zeos/game.c in order.
use soa_ze_os.Prelude.{
  ℕ, ◌+◌, ◌*◌, ◌≡◌, refl, ap, ◌∙◌, sym, subst, inl, inr, Bool-cases, true, false, ◌&&◌, arith,
}
use soa_ze_os.Prelude.Int.{ℤ, pos, eqb_ℤ, eq_of_parts}
use soa_ze_os.Game.{
  TCell, ct_wall, ct_null, ct_food, ct_empty, TDir, pacman_type, phantom_type, TUnit, TGame, Matrix,
  is_wall, is_food, row_to, column_to,
}
use soa_ze_os.Game.Moves.{move, move_pacman, move_phantom}
use soa_ze_os.Game.Maze.{put_cell}
use soa_ze_os.Game.Turn.{eat, step_pacman, turn_pacman}
use soa_ze_os.Game.Food.{food, food-put_cell, put_cell_here, put_cell_other}
use soa_ze_os.Game.Search.Marks.{is_open, InMaze, is_open-InMaze}
use soa_ze_os.Game.Inv.{IsGame, step-is_open}

food_no_wall : (c : TCell) → is_food c ≡ true → false ≡ is_wall c
food_no_wall ct_wall h = cc
food_no_wall ct_null h = refl
food_no_wall ct_food h = refl
food_no_wall ct_empty h = refl

-- Eating opens and closes nothing.
put_cell-is_wall :
    (x y : ℤ) (m : Matrix) (a b : ℤ)
    → is_food (m x y) ≡ true
    → is_wall (put_cell x y ct_empty m a b) ≡ is_wall (m a b)
put_cell-is_wall x y m a b full = elim (Bool-cases (eqb_ℤ a x && eqb_ℤ b y)) [
  | inr off ↦ ap is_wall (put_cell_other x y ct_empty m a b off)
  | inl at ↦
      let ex : a ≡ x = eq_of_parts a x (ground arith) in
      let ey : b ≡ y = eq_of_parts b y (ground arith) in
      rw (ex, ey, put_cell_here x y ct_empty m) (food_no_wall (m x y) full)
]

-- What `eat` makes of a game: the same units, the same walls, and the points of the food that is gone.
pub record Eaten (g r : TGame) : Type 0 where
  pub pacman : r.pacman ≡ g.pacman
  pub phantom : r.phantom ≡ g.phantom
  pub walls : (x y : ℤ) → is_wall (r.matrix x y) ≡ is_wall (g.matrix x y)
  pub account : r.points + food r.matrix * 10 ≡ g.points + food g.matrix * 10

balance : (points f f' : ℕ) → f' + 1 ≡ f → points + 10 + f' * 10 ≡ points + f * 10
balance points f f' less = omega arith

pub eat-Eaten : (x y : ℤ) (g : TGame) → InMaze x y → Eaten g (eat x y g)
unfolding eat
eat-Eaten x y g inside = elim (Bool-cases (is_food (g.matrix x y))) [
  | inr bare ↦
      rw (bare) record { pacman = refl; phantom = refl; walls = λ a b. refl; account = refl }
  | inl full ↦
      let less = food-put_cell x y g.matrix inside full in
      let run : eat x y g
          ≡ record g { points = g.points + 10; matrix = put_cell x y ct_empty g.matrix } =
        rw (full) refl in
      subst (Eaten g) (sym run) record {
        pacman = refl;
        phantom = refl;
        walls = λ a b. put_cell-is_wall x y g.matrix a b full;
        account = balance g.points (food g.matrix) (food (put_cell x y ct_empty g.matrix)) less;
      }
]

Eaten-is_open :
    (g r : TGame)
    → Eaten g r
    → (x y : ℤ) → is_open g.matrix x y ≡ true
    → is_open r.matrix x y ≡ true
Eaten-is_open g r h x y opens = rw (h.walls x y) opens

pub Eaten-IsGame : (g r : TGame) → Eaten g r → IsGame g → IsGame r
Eaten-IsGame g r e h = record {
  maze = record {
    edge = λ x y inside at. e.walls x y ∙ h.maze.edge x y inside at;
    home = Eaten-is_open g r e (pos 1) (pos 1) h.maze.home;
    homes = λ i j li lj. Eaten-is_open g r e (pos (17 + j)) (pos (47 + i)) (h.maze.homes i j li lj);
  };
  pacman_type = ap (λ u. u.type) e.pacman ∙ h.pacman_type;
  pacman_open =
      subst (λ u. is_open r.matrix u.x u.y ≡ true) (sym e.pacman)
        (Eaten-is_open g r e g.pacman.x g.pacman.y h.pacman_open);
  phantom_type = λ i lt. ap (λ f. (f i).type) e.phantom ∙ h.phantom_type i lt;
  phantom_open = λ i lt.
      subst (λ f. is_open r.matrix (f i).y (f i).x ≡ true) (sym e.phantom)
        (Eaten-is_open g r e (g.phantom i).y (g.phantom i).x (h.phantom_open i lt));
}

pub move_is_pacman :
    (m : Matrix) (u : TUnit) (x y : ℤ) → u.type ≡ pacman_type → move m u x y ≡ move_pacman m u x y
unfolding move
move_is_pacman m u x y h =
    subst
      (λ k.
        (elim k as (λ _. TUnit) [
          | pacman_type ↦ move_pacman m u x y
          | phantom_type ↦ move_phantom u x y
        ])
        ≡ move_pacman m u x y)
      (sym h) refl

pub move_is_phantom :
    (m : Matrix) (u : TUnit) (x y : ℤ) → u.type ≡ phantom_type → move m u x y ≡ move_phantom u x y
unfolding move
move_is_phantom m u x y h =
    subst
      (λ k.
        (elim k as (λ _. TUnit) [
          | pacman_type ↦ move_pacman m u x y
          | phantom_type ↦ move_phantom u x y
        ])
        ≡ move_phantom u x y)
      (sym h) refl

-- The pacman may be any unit of his kind on an open place.
pub put-pacman-IsGame :
    (g : TGame) (u : TUnit)
    → IsGame g
    → u.type ≡ pacman_type
    → is_open g.matrix u.x u.y ≡ true
    → IsGame (record g { pacman = u })
put-pacman-IsGame g u h kind opens = record {
  maze = h.maze;
  pacman_type = kind;
  pacman_open = opens;
  phantom_type = h.phantom_type;
  phantom_open = h.phantom_open;
}

-- He moves within the maze and through no wall.
move-pacman-IsGame :
    (g : TGame)
    → IsGame g
    → IsGame (record g { pacman = move g.matrix g.pacman g.pacman.x g.pacman.y })
unfolding move_pacman
move-pacman-IsGame g h =
    let u = g.pacman in
    let run = move_is_pacman g.matrix u u.x u.y h.pacman_type in
    subst (λ v. IsGame (record g { pacman = v })) (sym run)
      (elim (Bool-cases (is_wall (g.matrix (row_to u.dir u.x) (column_to u.dir u.y)))) [
        | inl wall ↦ rw (wall) (put-pacman-IsGame g u h h.pacman_type h.pacman_open)
        | inr free ↦ rw (free) (
            put-pacman-IsGame g (record u { x = row_to u.dir u.x; y = column_to u.dir u.y }) h
              h.pacman_type (step-is_open g.matrix u.x u.y u.dir h.maze.edge h.pacman_open free))
      ])

pub turn_pacman-IsGame : (d : TDir) (g : TGame) → IsGame g → IsGame (turn_pacman d g)
unfolding turn_pacman
turn_pacman-IsGame d g h =
    put-pacman-IsGame g (record g.pacman { dir = d }) h h.pacman_type h.pacman_open

-- A step of the pacman keeps the game in order, and points and food in balance.
pub step_pacman_lem :
    (g : TGame)
    → IsGame g
    → IsGame (step_pacman g)
      × ((step_pacman g).points + food (step_pacman g).matrix * 10 ≡ g.points + food g.matrix * 10)
unfolding step_pacman
step_pacman_lem g h =
    let moved : TGame = record g { pacman = move g.matrix g.pacman g.pacman.x g.pacman.y } in
    let inside = is_open-InMaze g.matrix g.pacman.x g.pacman.y h.pacman_open in
    let eaten = eat-Eaten g.pacman.x g.pacman.y moved inside in
    (Eaten-IsGame moved _ eaten (move-pacman-IsGame g h), eaten.account)
