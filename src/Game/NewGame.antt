-- ===== src/Game/NewGame.antt =====
-- What `init_game` of practica/zeos/game.c returns.
use soa_ze_os.Prelude.{
  ℕ, zero, suc, ◌+◌, ◌*◌, ◌<◌, ◌≡◌, refl, ap, ◌∙◌, true, false, arith, some, rounds,
}
use soa_ze_os.Prelude.Int.{ℤ, pos}
use soa_ze_os.Links.Walk.{init_list_head_lem}
use soa_ze_os.Game.{num_phantoms, TGame, phantom_type}
use soa_ze_os.Game.Play.{Play, movements, put_phantom}
use soa_ze_os.Game.Drawn.{
  Draws, then-Draws, emit-Draws, clear_screen-Draws, print_map-Draws, print_units-Draws,
}
use soa_ze_os.Game.Maze.{init_matrix, put_phantoms, init_units, start_state, draw_start, init_game}
use soa_ze_os.Game.Food.{food}
use soa_ze_os.Game.Search.Marks.{is_open}
use soa_ze_os.Game.Inv.{IsMaze, IsGame}
use soa_ze_os.Game.Rounds.{IsPlay}
use soa_ze_os.Game.Lives.{Drawn-IsPlay}
use soa_ze_os.Game.Start.{init_matrix-Filled, filled_food, filled-IsMaze}

-- The units of a new game.
init_units-IsGame : (g : TGame) → IsMaze g.matrix → IsGame (init_units g)
unfolding init_units put_phantoms put_phantom rounds
init_units-IsGame g h = record {
  maze = h;
  pacman_type = refl;
  pacman_open = h.home;
  phantom_type = kind;
  phantom_open = place;
}
  where
    kind : (i : ℕ) → i < num_phantoms → ((init_units g).phantom i).type ≡ phantom_type
    kind zero lt = refl
    kind (suc zero) lt = refl
    kind (suc (suc zero)) lt = refl
    kind (suc (suc (suc zero))) lt = refl
    kind (suc (suc (suc (suc i)))) lt = absurd (omega arith)

    place :
        (i : ℕ)
        → i < num_phantoms
        → is_open (init_units g).matrix ((init_units g).phantom i).y ((init_units g).phantom i).x
          ≡ true
    place zero lt = h.homes 0 0 (omega arith) (omega arith)
    place (suc zero) lt = h.homes 0 1 (omega arith) (omega arith)
    place (suc (suc zero)) lt = h.homes 1 0 (omega arith) (omega arith)
    place (suc (suc (suc zero))) lt = h.homes 1 1 (omega arith) (omega arith)
    place (suc (suc (suc (suc i)))) lt = absurd (omega arith)

draw_start-Draws : Draws draw_start
unfolding draw_start
draw_start-Draws p =
    then-Draws clear_screen-Draws
      (then-Draws print_map-Draws (
        then-Draws print_units-Draws (
          then-Draws (emit-Draws _) (
            then-Draws (emit-Draws _) (
              then-Draws (emit-Draws _) (
                then-Draws (emit-Draws _) (
                  then-Draws (emit-Draws _)
                    (then-Draws (emit-Draws _) (then-Draws (emit-Draws _) (emit-Draws _))))))))))
      p

zero_add : (n : ℕ) → 0 + n ≡ n
zero_add n = omega arith

all_counted : (total before f : ℕ) → before ≡ 0 → total ≡ before + f → f ≡ total
all_counted total before f nothing e = omega arith

init_account :
    (g : TGame) → (init_units g).points + food (init_units g).matrix * 10 ≡ food g.matrix * 10
unfolding init_units put_phantoms put_phantom rounds
init_account g = zero_add (food g.matrix * 10)

-- A new game.
pub record Started (p q : Play) : Type 0 where
  pub in_order : IsPlay q false
  pub lives : q.lives ≡ pos 3
  pub same_clock : q.clock ≡ p.clock

-- With no food counted before, `init_game` returns a new game in order.
pub init_game_lem :
    (offset : ℤ) (p : Play) → p.total ≡ 0 → (q : Play) × (init_game offset p ≡ some q) × Started p q
unfolding init_game
init_game_lem offset p none_yet =
    let filled = init_matrix p in
    let (h, run, queue, _) = init_list_head_lem filled.links movements (omega arith) in
    let s = start_state offset h filled in
    let drawn = draw_start-Draws s in
    let counted = filled_food p in
    (
      draw_start s,
      rw (run, init_game) refl,
      record {
        in_order = Drawn-IsPlay s (draw_start s) false drawn record {
          game = init_units-IsGame filled.game (filled-IsMaze p);
          account =
              init_account filled.game
              ∙ ap (λ n. n * 10)
                  (all_counted filled.total p.total (food filled.game.matrix) none_yet counted);
          queue = queue;
        };
        lives = drawn.lives;
        same_clock = drawn.clock ∙ (init_matrix-Filled p).clock;
      },
    )
