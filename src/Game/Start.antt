-- ===== src/Game/Start.antt =====
-- `init_game` of practica/zeos/game.c sets up a game in order.
use soa_ze_os.Prelude.{
  ℕ, zero, suc, ◌+◌, ◌<◌, ◌≡◌, refl, ap, ◌∙◌, subst, ◌⊎◌, inl, inr, Bool, Bool-cases, true, not,
  ◌&&◌, ◌||◌, arith, ◌==◌, if◌then◌else◌, rounds, rounds_inv,
}
use soa_ze_os.Prelude.Int.{pos, negsuc}
use soa_ze_os.Game.{num_rows, num_columns, TCell, is_wall, is_food}
use soa_ze_os.Game.Play.{Play}
use soa_ze_os.Game.Maze.{initial_cell, init_cell, init_matrix}
use soa_ze_os.Game.Food.{
  sum_from, sum_from_eq, food_at, row_food, food, put_cell_here, put_cell_other,
}
use soa_ze_os.Game.Search.Marks.{is_open}
use soa_ze_os.Game.Inv.{HasEdge, IsMaze}

-- A finite check.
abbrev all_below : ℕ → (ℕ → Bool) → Bool
all_below zero f = true
all_below (suc n) f = f n && all_below n f

all_below_at : (n : ℕ) (f : ℕ → Bool) → all_below n f ≡ true → (k : ℕ) → k < n → f k ≡ true
all_below_at zero f h k lt = absurd (omega arith)
all_below_at (suc n) f h k lt = elim (Bool-cases (k == n)) [
  | inl last ↦ let e : n ≡ k = ground arith in subst (λ a. f a ≡ true) e (ground arith)
  | inr before ↦ all_below_at n f (ground arith) k (ground arith)
]

-- The initial maze has walls at its rim.
abbrev rim : (a b : ℕ) → Bool
rim a b = (a == 0) || (a + 1 == num_rows) || (b == 0) || (b + 1 == num_columns)

abbrev rim_shut : (a b : ℕ) → Bool
rim_shut a b = not (rim a b) || is_wall (initial_cell a b)

all_rim_shut : all_below num_rows (λ a. all_below num_columns (rim_shut a)) ≡ true
unfolding initial_cell
all_rim_shut = refl

rim-is_wall :
    (a b : ℕ) → a < num_rows → b < num_columns → rim a b ≡ true → is_wall (initial_cell a b) ≡ true
rim-is_wall a b la lb h =
    let row = all_below_at num_rows (λ r. all_below num_columns (rim_shut r)) all_rim_shut a la in
    let place = all_below_at num_columns (rim_shut a) row b lb in ground arith

sum_from-snoc : (n i : ℕ) (f : ℕ → ℕ) → sum_from (suc n) i f ≡ sum_from n i f + f (i + n)
sum_from-snoc zero i f = let e : f i ≡ f (i + 0) = ap f (omega arith) in omega arith
sum_from-snoc (suc n) i f =
    let e : f (i + 1 + n) ≡ f (i + suc n) = ap f (omega arith) in
    omega (arith, sum_from-snoc n (i + 1) f)

sum_from_next : (n : ℕ) (f : ℕ → ℕ) → sum_from (n + 1) 0 f ≡ sum_from n 0 f + f n
sum_from_next n f =
    let next : n + 1 ≡ suc n = omega arith in
    let e = ap (λ k. sum_from k 0 f) next in
    let last : f (0 + n) ≡ f n = ap f (omega arith) in
    e ∙ sum_from-snoc n 0 f ∙ ap (λ k. sum_from n 0 f + k) last

-- How much food the initial maze has in a row.
abbrev initial_food : (a b : ℕ) → ℕ
initial_food a b = if is_food (initial_cell a b) then 1 else 0

abbrev initial_row : (a : ℕ) → ℕ
initial_row a = sum_from num_columns 0 (initial_food a)

-- The rows before `a`, and in row `a` the places before `b`, are filled and counted.
pub record Filled (p : Play) (a b : ℕ) (s : Play) : Type 0 where
  pub cells :
      (i j : ℕ)
      → i < num_rows
      → j < num_columns
      → (i < a) ⊎ (i ≡ a) × (j < b)
      → s.game.matrix (pos i) (pos j) ≡ initial_cell i j
  pub total : s.total ≡ p.total + (sum_from a 0 initial_row + sum_from b 0 (initial_food a))
  pub clock : s.clock ≡ p.clock

count_step :
    (t p r b : ℕ) (f : ℕ → ℕ)
    → t ≡ p + (r + sum_from b 0 f)
    → t + f b ≡ p + (r + sum_from (b + 1) 0 f)
count_step t p r b f h = omega (arith, sum_from_next b f)

row_step : (p a : ℕ) (g : ℕ → ℕ) → p + (sum_from a 0 g + g a) ≡ p + (sum_from (a + 1) 0 g + 0)
row_step p a g = omega (arith, sum_from_next a g)

count_cell :
    (c : TCell) (n : ℕ) → (if is_food c then n + 1 else n) ≡ n + (if is_food c then 1 else 0)
count_cell c n = elim (Bool-cases (is_food c)) [
  | inl full ↦ rw (full) refl
  | inr bare ↦ rw (bare) (omega arith)
]

init_cell-Filled :
    (p : Play) (a b : ℕ) (s : Play) → Filled p a b s → Filled p a (b + 1) (init_cell a b s)
unfolding init_cell
init_cell-Filled p a b s h = record {
  cells = λ i j li lj before. elim (Bool-cases ((i == a) && (j == b))) [
    | inl here ↦
        let ei : i ≡ a = ground arith in
        let ej : j ≡ b = ground arith in
        rw (ei, ej) (put_cell_here (pos a) (pos b) (initial_cell a b) s.game.matrix)
    | inr other ↦
        put_cell_other (pos a) (pos b) (initial_cell a b) s.game.matrix (pos i) (pos j)
          (ground arith)
        ∙ h.cells i j li lj (ground arith)
  ];
  total =
      count_cell (initial_cell a b) s.total
      ∙ count_step s.total p.total (sum_from a 0 initial_row) b (initial_food a) h.total;
  clock = h.clock;
}

row-Filled :
    (p : Play) (a : ℕ) (s : Play)
    → Filled p a 0 s
    → Filled p (a + 1) 0 (rounds num_columns 0 (λ j. init_cell a j) s)
row-Filled p a s h =
    let full =
      rounds_inv (Filled p a) (λ j. init_cell a j) num_columns
        (λ b t _ f. init_cell-Filled p a b t f) num_columns 0 s (omega arith) h in
    record {
      cells = λ i j li lj before. full.cells i j li lj (ground arith);
      total = full.total ∙ row_step p.total a initial_row;
      clock = full.clock;
    }

pub init_matrix-Filled : (p : Play) → Filled p num_rows 0 (init_matrix p)
unfolding init_matrix
init_matrix-Filled p =
    rounds_inv (λ a. Filled p a 0) (λ i. rounds num_columns 0 λ j. init_cell i j) num_rows
      (λ a t _ f. row-Filled p a t f) num_rows 0 p (omega arith)
      record { cells = λ i j li lj before. absurd (omega arith); total = omega arith; clock = refl }

last_sum : (p r s : ℕ) → s ≡ r → p + (r + 0) ≡ p + s
last_sum p r s h = omega arith

-- The food of the filled maze is what has been counted.
pub filled_food : (p : Play) → (init_matrix p).total ≡ p.total + food (init_matrix p).game.matrix
unfolding food
filled_food p =
    let h = init_matrix-Filled p in
    let m = (init_matrix p).game.matrix in
    let same : food m ≡ sum_from num_rows 0 initial_row =
      sum_from_eq num_rows 0 {f = row_food m} {g = initial_row} λ i _ li.
        sum_from_eq num_columns 0 {f = food_at m i} {g = initial_food i} λ j _ lj.
          ap (λ c. if is_food c then 1 else 0)
            (h.cells i j (omega arith) (omega arith) (inl (omega arith))) in
    h.total ∙ last_sum p.total (sum_from num_rows 0 initial_row) (food m) same

pub filled-IsMaze : (p : Play) → IsMaze (init_matrix p).game.matrix
unfolding initial_cell
filled-IsMaze p = record {
  edge = edge;
  home = rw (h.cells 1 1 (omega arith) (omega arith) (inl (omega arith))) refl;
  homes = homes;
}
  where
    h : Filled p num_rows 0 (init_matrix p)
    h = init_matrix-Filled p

    edge : HasEdge (init_matrix p).game.matrix
    edge (pos i) (pos j) inside at =
        ap is_wall (h.cells i j inside.row.1 inside.column.1 (inl inside.row.1))
        ∙ rim-is_wall i j inside.row.1 inside.column.1 (ground arith)
    edge (negsuc i) y inside at = absurd (omega (arith, inside.row))
    edge (pos i) (negsuc j) inside at = absurd (omega (arith, inside.column))

    homes :
        (i j : ℕ)
        → i < 2
        → j < 2
        → is_open (init_matrix p).game.matrix (pos (17 + j)) (pos (47 + i)) ≡ true
    homes zero zero li lj = rw (h.cells 17 47 (omega arith) (omega arith) (inl (omega arith))) refl
    homes zero (suc zero) li lj =
        rw (h.cells 18 47 (omega arith) (omega arith) (inl (omega arith))) refl
    homes (suc zero) zero li lj =
        rw (h.cells 17 48 (omega arith) (omega arith) (inl (omega arith))) refl
    homes (suc zero) (suc zero) li lj =
        rw (h.cells 18 48 (omega arith) (omega arith) (inl (omega arith))) refl
    homes (suc (suc i)) j li lj = absurd (omega arith)
    homes i (suc (suc j)) li lj = absurd (omega arith)
