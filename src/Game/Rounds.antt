-- ===== src/Game/Rounds.antt =====
-- A round of `start_game` in practica/zeos/game.c returns and keeps the game in order.
use soa_ze_os.Prelude.{
  ◌+◌, ◌*◌, ◌≤◌, ◌≡◌, refl, ◌∙◌, sym, subst, ◌⊎◌, inl, inr, Bool, Bool-cases, true, false, not,
  ◌&&◌, arith, if◌then◌else◌, Option, some, List, [], ◌∷◌,
}
use soa_ze_os.Links.{Addr, Links, null, update, list_del}
use soa_ze_os.Links.Queue.{IsQueue, IsQueue-frame}
use soa_ze_os.Links.Insert.{list_add_tail_lem}
use soa_ze_os.Links.Remove.{list_del_lem}
use soa_ze_os.Links.Walk.{list_empty_lem, list_first_lem}
use soa_ze_os.Game.{TDir, TGame, is_wall, is_null, row_to, column_to}
use soa_ze_os.Game.Play.{Play, movements, moviments_list}
use soa_ze_os.Game.Moves.{unlink, is_viable}
use soa_ze_os.Game.Turn.{
  write_move, take_move, turn_pacman, step_pacman, step_viable, turn_of_pacman,
}
use soa_ze_os.Game.Food.{food}
use soa_ze_os.Game.Inv.{IsGame}
use soa_ze_os.Game.Pacman.{turn_pacman-IsGame, step_pacman_lem}

-- The list of moves, with one move on it or none.
abbrev pub waiting : Bool → List Addr
waiting true = moviments_list ∷ []
waiting false = []

-- The game is in order, every food that is gone has given its points, and the list of moves holds one
-- move or none.
pub record IsPlay (p : Play) (waits : Bool) : Type 0 where
  pub game : IsGame p.game
  pub account : p.game.points + food p.game.matrix * 10 ≡ p.total * 10
  pub queue : IsQueue p.links movements (waiting waits)

-- The clock and its readings.
pub record SameClock (p q : Play) : Type 0 where
  pub clock : q.clock ≡ p.clock
  pub reads : p.clock_reads ≤ q.clock_reads

pub clock_of : (p q : Play) → q.clock ≡ p.clock → q.clock_reads ≡ p.clock_reads → SameClock p q
clock_of p q e f = record { clock = e; reads = omega arith }

-- Adding a move to an empty list.
write_move-IsQueue :
    (d : TDir) (p : Play)
    → IsQueue p.links movements []
    → IsQueue (write_move d p).links movements []
unfolding write_move update
write_move-IsQueue d p q =
    IsQueue-frame p.links (write_move d p).links movements [] (moviments_list ∷ [])
      (λ a out. (ground arith, ground arith)) (λ a on. ground arith) q

take_move_new :
    (d : TDir) (p : Play)
    → is_null d ≡ false
    → IsPlay p false
    → (q : Play) × (take_move d p ≡ some q) × IsPlay q true × SameClock p q
unfolding take_move write_move
take_move_new d p real h =
    let w = write_move d p in
    let (g, run, queue, _) =
      list_add_tail_lem {h = w.links} {head = movements} {xs = []} moviments_list
        (write_move-IsQueue d p h.queue) (omega arith) refl in
    (
      record w { links = g },
      rw (real, run) refl,
      record { game = h.game; account = h.account; queue = queue },
      clock_of _ _ refl refl,
    )

-- What takes a game that is in order, and the clock, on.
abbrev pub Returns : Play → Option Play → Type 0
Returns p o = (q : Play) × (o ≡ some q) × (waits : Bool) × IsPlay q waits × SameClock p q

-- With no key, or no move on the list, the list takes the key's move.
pub take_move-Returns :
    (d : TDir) (p : Play) (waits : Bool)
    → (is_null d ≡ true) ⊎ (waits ≡ false)
    → IsPlay p waits
    → Returns p (take_move d p)
unfolding take_move
take_move-Returns d p waits room h = elim (Bool-cases (is_null d)) [
  | inl none_new ↦ (p, rw (none_new) refl, waits, h, clock_of _ _ refl refl)
  | inr real ↦ elim room [
    | inl null ↦ absurd (cc)
    | inr free ↦
        let (q, run, good, clock) = take_move_new d p real (subst (IsPlay p) free h) in
        (q, run, true, good, clock)
  ]
]

abbrev turned : Bool → TDir → TGame → TGame
turned b d g = if b then turn_pacman d g else g

turned_lem :
    (b : Bool) (d : TDir) (g : TGame)
    → IsGame g
    → IsGame (turned b d g)
      × ((turned b d g).points + food (turned b d g).matrix * 10 ≡ g.points + food g.matrix * 10)
unfolding turn_pacman
turned_lem true d g h = (turn_pacman-IsGame d g h, refl)
turned_lem false d g h = (h, refl)

-- The pacman's step on a state whose list holds a move or none.
step_viable-Returns :
    (p : Play) (links : Links) (b waits : Bool)
    → IsPlay p true
    → IsQueue links movements (waiting waits)
    → Returns p (step_viable (some (b, record p { links = links })))
step_viable-Returns p links b waits h queue =
    let (order, account) = turned_lem b p.moviment p.game h.game in
    let (order', account') = step_pacman_lem (turned b p.moviment p.game) order in
    (
      record p { links = links; game = step_pacman (turned b p.moviment p.game) },
      refl,
      waits,
      record { game = order'; account = account' ∙ account ∙ h.account; queue = queue },
      clock_of _ _ refl refl,
    )

if-Returns :
    (p : Play) (b : Bool) (o r : Option (Bool × Play))
    → Returns p (step_viable o)
    → Returns p (step_viable r)
    → Returns p (step_viable (if b then o else r))
if-Returns p true o r x y = x
if-Returns p false o r x y = y

unlink_run :
    (a : Addr) (p : Play) (g : Links)
    → list_del a p.links ≡ some (tt, g)
    → unlink a p ≡ some (record p { links = g })
unlink_run a p g e = rw (e, unlink) refl

is_viable-Returns :
    (d : TDir) (p : Play) → IsPlay p true → Returns p (step_viable (is_viable moviments_list d p))
unfolding is_viable
is_viable-Returns d p h =
    let u = p.game.pacman in
    let (g, run, queue, _, _, _) = list_del_lem {h = p.links} {head = movements} [] [] h.queue in
    if-Returns p (not (is_null d) && not (is_wall (p.game.matrix (row_to d u.x) (column_to d u.y))))
      _ _ (rw (unlink_run moviments_list p g run) (step_viable-Returns p g true false h queue))
      (step_viable-Returns p p.links false true h h.queue)

pub turn_of_pacman-Returns :
    (p : Play) (waits : Bool) → IsPlay p waits → Returns p (turn_of_pacman p)
unfolding turn_of_pacman
turn_of_pacman-Returns p false h = (
  p,
  rw (list_empty_lem p.links movements [] h.queue, turn_of_pacman) refl,
  false,
  h,
  clock_of _ _ refl refl,
)
turn_of_pacman-Returns p true h =
    let empty = list_empty_lem p.links movements (moviments_list ∷ []) h.queue in
    let first = list_first_lem p.links movements (moviments_list ∷ []) h.queue in
    let run : turn_of_pacman p ≡ step_viable (is_viable moviments_list p.moviment p) =
      rw (empty, first, turn_of_pacman) refl in
    subst (Returns p) (sym run) (is_viable-Returns p.moviment p h)
