-- ===== src/Game/Phantoms.antt =====
-- The phantoms' moves always end, in the maze and on no wall, in practica/zeos/game.c.
use soa_ze_os.Prelude.{
  ℕ, zero, suc, ◌+◌, ◌%◌, ◌≤◌, ◌<◌, ◌≡◌, refl, ◌∙◌, sym, subst, inl, inr, Bool, Bool-cases, true,
  false, arith, ltb, ◌==◌, if◌then◌else◌, Option, some,
}
use soa_ze_os.Prelude.Int.{ℤ, pos, ◌-ℤ◌, ltb_ℤ}
use soa_ze_os.Game.{
  num_phantoms, TDir, dt_null, dt_left, phantom_type, TUnit, TGame, Matrix, row_to, column_to,
}
use soa_ze_os.Game.Play.{Play, put_phantom}
use soa_ze_os.Game.Moves.{
  move, move_phantom, chase, chase_from, set_dir, turn_of, take_turn, count_turn, turn_phantom,
  turns_from, move_phantoms, distance,
}
use soa_ze_os.Game.Inv.{IsGame}
use soa_ze_os.Game.Pacman.{move_is_phantom}
use soa_ze_os.Game.Search.Marks.{is_open}
use soa_ze_os.Game.Search.Correct.{Answer, bfs_lem}

-- What the phantoms leave alone.
pub record Kept (p q : Play) : Type 0 where
  pub matrix : q.game.matrix ≡ p.game.matrix
  pub points : q.game.points ≡ p.game.points
  pub pacman : q.game.pacman ≡ p.game.pacman
  pub lives : q.lives ≡ p.lives
  pub total : q.total ≡ p.total
  pub links : q.links ≡ p.links
  pub clock : q.clock ≡ p.clock
  pub reads : q.clock_reads ≡ p.clock_reads

Kept-same : (p : Play) → Kept p p
Kept-same p = record {
  matrix = refl;
  points = refl;
  pacman = refl;
  lives = refl;
  total = refl;
  links = refl;
  clock = refl;
  reads = refl;
}

Kept-trans : (p q r : Play) → Kept p q → Kept q r → Kept p r
Kept-trans p q r a b = record {
  matrix = b.matrix ∙ a.matrix;
  points = b.points ∙ a.points;
  pacman = b.pacman ∙ a.pacman;
  lives = b.lives ∙ a.lives;
  total = b.total ∙ a.total;
  links = b.links ∙ a.links;
  clock = b.clock ∙ a.clock;
  reads = b.reads ∙ a.reads;
}

-- A computation on the state returns, and the game is in order after it.
abbrev pub Goes : Play → Option Play → Type 0
Goes p o = (q : Play) × (o ≡ some q) × IsGame q.game × Kept p q

pub put_phantom-IsGame :
    (i : ℕ) (u : TUnit) (g : TGame)
    → IsGame g
    → u.type ≡ phantom_type
    → is_open g.matrix u.y u.x ≡ true
    → IsGame (put_phantom i u g)
unfolding put_phantom
put_phantom-IsGame i u g h kind opens = record {
  maze = h.maze;
  pacman_type = h.pacman_type;
  pacman_open = h.pacman_open;
  phantom_type = λ j lt. elim (Bool-cases (j == i)) [
    | inl here ↦ rw (here) kind
    | inr other ↦ rw (other) (h.phantom_type j lt)
  ];
  phantom_open = λ j lt. elim (Bool-cases (j == i)) [
    | inl here ↦ rw (here) opens
    | inr other ↦ rw (other) (h.phantom_open j lt)
  ];
}

put_phantom-Kept :
    (i : ℕ) (u : TUnit) (p : Play) → Kept p (record p { game = put_phantom i u p.game })
unfolding put_phantom
put_phantom-Kept i u p = record {
  matrix = refl;
  points = refl;
  pacman = refl;
  lives = refl;
  total = refl;
  links = refl;
  clock = refl;
  reads = refl;
}

-- Where `bfs` points there is no wall.
Answer-is_open :
    (m : Matrix) (sx sy tx ty : ℤ) (d : TDir)
    → is_open m sx sy ≡ true
    → Answer m sx sy tx ty d
    → is_open m (row_to d sx) (column_to d sy) ≡ true
unfolding row_to column_to
Answer-is_open m sx sy tx ty d opens (inl (null, ex, ey)) = rw (null) opens
Answer-is_open m sx sy tx ty d opens (inr (inl (null, no_way))) = rw (null) opens
Answer-is_open m sx sy tx ty d opens (inr (inr (k, (out, first, walk), shortest))) = first

module _ (i : ℕ) (lt : i < num_phantoms) (p : Play) (h : IsGame p.game) where
  set_dir-Goes : (d : TDir) → Goes p (some (set_dir i d p))
  unfolding set_dir
  set_dir-Goes d = (
    _,
    refl,
    put_phantom-IsGame i (record (p.game.phantom i) { dir = d }) p.game h (h.phantom_type i lt)
        (h.phantom_open i lt),
    put_phantom-Kept i _ p,
  )

  chase-Goes : Goes p (chase i p)
  unfolding chase move_phantom
  chase-Goes =
      let g = p.game in
      let u = g.phantom i in
      let (d, found, answer) =
        bfs_lem g.matrix u.y u.x g.pacman.x g.pacman.y (h.phantom_open i lt) in
      let turned : TUnit = record u { dir = d } in
      let run = move_is_phantom g.matrix turned u.x u.y (h.phantom_type i lt) in
      let opens =
        Answer-is_open g.matrix u.y u.x g.pacman.x g.pacman.y d (h.phantom_open i lt) answer in
      (
        record p { game = put_phantom i (move g.matrix turned u.x u.y) g },
        rw (found, chase) refl,
        subst (λ v. IsGame (put_phantom i v g)) (sym run)
            (put_phantom-IsGame i (move_phantom turned u.x u.y) g h (h.phantom_type i lt) opens),
        put_phantom-Kept i _ p,
      )

  if-Goes : (b : Bool) (o r : Option Play) → Goes p o → Goes p r → Goes p (if b then o else r)
  if-Goes true o r a b = a
  if-Goes false o r a b = b

  chase_from-Goes : (first : ℕ) → Goes p (chase_from first i p)
  unfolding chase_from
  chase_from-Goes first = if-Goes (ltb p.random first) _ _ (set_dir-Goes dt_left) chase-Goes

same-Goes : (p : Play) → IsGame p.game → Goes p (some p)
same-Goes p h = (p, refl, h, Kept-same p)

take_turn-Goes :
    (i indice : ℕ) → i < num_phantoms → (p : Play) → IsGame p.game → Goes p (take_turn i indice p)
unfolding take_turn
take_turn-Goes zero k lt p h =
    if-Goes 0 lt p h (turn_of 0 k % 2 == 0) _ _ (same-Goes p h) (chase_from-Goes 0 lt p h 2)
take_turn-Goes (suc zero) k lt p h =
    if-Goes 1 lt p h (turn_of 1 k % 2 == 0) _ _ (chase_from-Goes 1 lt p h 4)
      (set_dir-Goes 1 lt p h dt_null)
take_turn-Goes (suc (suc zero)) k lt p h =
    if-Goes 2 lt p h (turn_of 2 k % 2 == 0) _ _ (chase_from-Goes 2 lt p h 1)
      (set_dir-Goes 2 lt p h dt_null)
take_turn-Goes (suc (suc (suc zero))) k lt p h =
    if-Goes 3 lt p h (turn_of 3 k % 2 == 0) _ _ (chase-Goes 3 lt p h)
      (set_dir-Goes 3 lt p h dt_null)
take_turn-Goes (suc (suc (suc (suc i)))) k lt p h = absurd (omega arith)

count_turn-Kept : (p q : Play) → Kept p q → Kept p (record q { random = q.random + 1 })
count_turn-Kept p q h = record {
  matrix = h.matrix;
  points = h.points;
  pacman = h.pacman;
  lives = h.lives;
  total = h.total;
  links = h.links;
  clock = h.clock;
  reads = h.reads;
}

count_turn-Goes : (p : Play) (o : Option Play) → Goes p o → Goes p (count_turn o)
count_turn-Goes p o (q, run, h, kept) =
    (record q { random = q.random + 1 }, rw (run) refl, h, count_turn-Kept p q kept)

turn_phantom-Goes :
    (i : ℕ) → i < num_phantoms → (p : Play) → IsGame p.game → Goes p (turn_phantom i p)
unfolding turn_phantom
turn_phantom-Goes i lt p h =
    if-Goes i lt p h
      (ltb_ℤ (pos 17) (
        distance (p.game.phantom i).x (p.game.phantom i).y p.game.pacman.y p.game.pacman.x
        -ℤ pos 10))
      _ _ (same-Goes p h) (count_turn-Goes p _ (take_turn-Goes i (p.random % 10) lt p h))

turns_from-Goes :
    (n i : ℕ) → i + n ≤ num_phantoms → (p : Play) → IsGame p.game → Goes p (turns_from n i p)
turns_from-Goes zero i le p h = same-Goes p h
turns_from-Goes (suc n) i le p h =
    let (q, run, ok, kept) = turn_phantom-Goes i (omega arith) p h in
    let (r, runs, fine, keeps) = turns_from-Goes n (i + 1) (omega arith) q ok in
    (r, rw (run, turns_from) runs, fine, Kept-trans p q r kept keeps)

-- The phantoms' turn always ends, and leaves a game in order in order: every phantom in the maze and on
-- no wall. Nothing but the phantoms and `random` changes.
pub move_phantoms_lem : (p : Play) → IsGame p.game → Goes p (move_phantoms p)
unfolding move_phantoms
move_phantoms_lem p h = turns_from-Goes num_phantoms 0 (omega arith) p h
