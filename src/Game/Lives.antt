-- ===== src/Game/Lives.antt =====
-- The phantoms' turn in a round of `start_game`, and the lives it costs, in practica/zeos/game.c.
use soa_ze_os.Prelude.{
  ℕ, zero, suc, ◌+◌, ◌*◌, ◌<◌, ◌≡◌, refl, ap, ap₂, ◌∙◌, sym, subst, inl, inr, Bool, Bool-cases,
  true, arith, rounds,
}
use soa_ze_os.Prelude.Int.{ℤ, pos, ◌-ℤ◌}
use soa_ze_os.Links.Queue.{IsQueue}
use soa_ze_os.Game.{num_phantoms, phantom_type, TGame}
use soa_ze_os.Game.Play.{Play, movements, put_phantom}
use soa_ze_os.Game.Drawn.{
  Drawn, print_frame-Draws, imprimir_coordenadas-Draws, emit-Draws, then-Draws,
}
use soa_ze_os.Game.Draw.{print_frame, imprimir_coordenadas}
use soa_ze_os.Game.Maze.{put_phantoms, restart_units, restart}
use soa_ze_os.Game.Turn.{meets, check_phantoms, turn_of_phantoms}
use soa_ze_os.Game.Food.{food}
use soa_ze_os.Game.Inv.{IsGame}
use soa_ze_os.Game.Search.Marks.{is_open}
use soa_ze_os.Game.Phantoms.{move_phantoms_lem}
use soa_ze_os.Game.Rounds.{waiting, IsPlay, SameClock, clock_of, Returns}

-- An order that depends on a state's game, total and links alone goes over to a state with the same.
pub IsPlay-same :
    (p q : Play) (waits : Bool)
    → q.game ≡ p.game
    → q.total ≡ p.total
    → q.links ≡ p.links
    → IsPlay p waits
    → IsPlay q waits
IsPlay-same p q waits same total links h = record {
  game = subst IsGame (sym same) h.game;
  account = ap (λ g. g.points + food g.matrix * 10) same ∙ h.account ∙ sym (ap (λ n. n * 10) total);
  queue = subst (λ l. IsQueue l movements (waiting waits)) (sym links) h.queue;
}

pub Drawn-IsPlay : (p q : Play) (waits : Bool) → Drawn p q → IsPlay p waits → IsPlay q waits
Drawn-IsPlay p q waits d = IsPlay-same p q waits d.game d.total d.links

Drawn-SameClock : (p q : Play) → Drawn p q → SameClock p q
Drawn-SameClock p q d = record { clock = d.clock; reads = d.reads }

pub SameClock-trans : (p q r : Play) → SameClock p q → SameClock q r → SameClock p r
SameClock-trans p q r a b = record {
  clock = b.clock ∙ a.clock;
  reads = omega (arith, a.reads, b.reads);
}

-- The units at their first places.
restart_units-IsGame : (g : TGame) → IsGame g → IsGame (restart_units g)
unfolding restart_units put_phantoms put_phantom rounds
restart_units-IsGame g h = record {
  maze = h.maze;
  pacman_type = h.pacman_type;
  pacman_open = h.maze.home;
  phantom_type = kind;
  phantom_open = place;
}
  where
    kind : (i : ℕ) → i < num_phantoms → ((restart_units g).phantom i).type ≡ phantom_type
    kind zero lt = h.phantom_type 0 lt
    kind (suc zero) lt = h.phantom_type 1 lt
    kind (suc (suc zero)) lt = h.phantom_type 2 lt
    kind (suc (suc (suc zero))) lt = h.phantom_type 3 lt
    kind (suc (suc (suc (suc i)))) lt = absurd (omega arith)

    place :
        (i : ℕ)
        → i < num_phantoms
        → is_open
            (restart_units g).matrix
            ((restart_units g).phantom i).y
            ((restart_units g).phantom i).x
          ≡ true
    place zero lt = h.maze.homes 0 0 (omega arith) (omega arith)
    place (suc zero) lt = h.maze.homes 0 1 (omega arith) (omega arith)
    place (suc (suc zero)) lt = h.maze.homes 1 0 (omega arith) (omega arith)
    place (suc (suc (suc zero))) lt = h.maze.homes 1 1 (omega arith) (omega arith)
    place (suc (suc (suc (suc i)))) lt = absurd (omega arith)

restart_units_account :
    (g : TGame)
    → (restart_units g).points + food (restart_units g).matrix * 10 ≡ g.points + food g.matrix * 10
unfolding restart_units put_phantoms put_phantom rounds
restart_units_account g = refl

restart-Drawn : (p : Play) → Drawn (record p { game = restart_units p.game }) (restart p)
unfolding restart
restart-Drawn p =
    then-Draws print_frame-Draws (then-Draws (emit-Draws _) (emit-Draws _))
      (record p { game = restart_units p.game })

-- A state in order stays so after a life is lost.
lose_life-IsPlay :
    (p : Play) (lives : ℤ) (waits : Bool)
    → IsPlay p waits
    → IsPlay (restart (record p { lives = lives })) waits
      × SameClock p (restart (record p { lives = lives }))
lose_life-IsPlay p lives waits h =
    let at_home : Play = record p { lives = lives; game = restart_units p.game } in
    let drawn = restart-Drawn (record p { lives = lives }) in
    (
      Drawn-IsPlay at_home (restart (record p { lives = lives })) waits drawn record {
        game = restart_units-IsGame p.game h.game;
        account = restart_units_account p.game ∙ h.account;
        queue = h.queue;
      },
      SameClock-trans p at_home (restart (record p { lives = lives }))
          (clock_of p at_home refl refl)
          (Drawn-SameClock at_home (restart (record p { lives = lives })) drawn),
    )

check_phantoms-IsPlay :
    (n i : ℕ) (p : Play) (waits : Bool)
    → IsPlay p waits
    → IsPlay (check_phantoms n i p) waits × SameClock p (check_phantoms n i p)
unfolding check_phantoms
check_phantoms-IsPlay zero i p waits h = (h, clock_of p p refl refl)
check_phantoms-IsPlay (suc n) i p waits h = elim (Bool-cases (meets i p.game)) [
  | inl met ↦ rw (met) (lose_life-IsPlay p (p.lives -ℤ pos 1) waits h)
  | inr apart ↦ rw (apart) (check_phantoms-IsPlay n (i + 1) p waits h)
]

pub turn_of_phantoms-Returns :
    (p : Play) (waits : Bool) → IsPlay p waits → Returns p (turn_of_phantoms p)
unfolding turn_of_phantoms
turn_of_phantoms-Returns p waits h =
    let (q, run, order, kept) = move_phantoms_lem p h.game in
    let moved : IsPlay q waits = record {
      game = order;
      account =
          ap₂ (λ a m. a + food m * 10) kept.points kept.matrix
          ∙ h.account
          ∙ sym (ap (λ n. n * 10) kept.total);
      queue = subst (λ l. IsQueue l movements (waiting waits)) (sym kept.links) h.queue;
    } in
    let shown = imprimir_coordenadas q in
    let drawn = imprimir_coordenadas-Draws q in
    let (checked, clock) =
      check_phantoms-IsPlay num_phantoms 0 shown waits (Drawn-IsPlay q shown waits drawn moved) in
    let last = check_phantoms num_phantoms 0 shown in
    let framed = print_frame-Draws last in
    (
      print_frame last,
      rw (run, turn_of_phantoms) refl,
      waits,
      Drawn-IsPlay last (print_frame last) waits framed checked,
      SameClock-trans p q (print_frame last) (clock_of p q kept.clock kept.reads) (
          SameClock-trans q shown (print_frame last) (Drawn-SameClock q shown drawn) (
            SameClock-trans shown last (print_frame last) clock
              (Drawn-SameClock last (print_frame last) framed))),
    )
