-- ===== src/Game/Food.antt =====
-- How much food a maze holds.
use soa_ze_os.Prelude.{
  ℕ, zero, suc, ◌+◌, ◌≤◌, ◌<◌, ◌≡◌, ◌≢◌, refl, ap, ap₂, sym, subst, Bool-cases, ◌&&◌, true, false,
  inl, inr, arith, ◌==◌, if◌then◌else◌,
}
use soa_ze_os.Prelude.Int.{ℤ, pos, negsuc, eqb_ℤ}
use soa_ze_os.Game.{num_rows, num_columns, TCell, ct_empty, Matrix, is_food}
use soa_ze_os.Game.Maze.{put_cell}
use soa_ze_os.Game.Search.Marks.{InMaze}

-- f(i) + ... + f(i + n - 1)
abbrev pub sum_from : (n i : ℕ) → (ℕ → ℕ) → ℕ
sum_from zero i f = 0
sum_from (suc n) i f = f i + sum_from n (i + 1) f

abbrev pub food_at : Matrix → (i j : ℕ) → ℕ
food_at m i j = if is_food (m (pos i) (pos j)) then 1 else 0

-- The places of a row, and of the maze, that hold food.
abbrev pub row_food : Matrix → (i : ℕ) → ℕ
row_food m i = sum_from num_columns 0 (food_at m i)

unfoldable pub food : Matrix → ℕ
food m = sum_from num_rows 0 (row_food m)

pub sum_from_eq :
    (n i : ℕ) {f g : ℕ → ℕ}
    → ((k : ℕ) → i ≤ k → k < i + n → f k ≡ g k)
    → sum_from n i f ≡ sum_from n i g
sum_from_eq zero i h = refl
sum_from_eq (suc n) i h =
    ap₂ (λ a b. a + b) (h i (omega arith) (omega arith))
      (sum_from_eq n (i + 1) λ k ge lt. h k (omega arith) (omega arith))

-- One term less by one makes the sum less by one.
sum_from-less :
    (n i k : ℕ) {f g : ℕ → ℕ}
    → i ≤ k
    → k < i + n
    → f k + 1 ≡ g k
    → ((j : ℕ) → j ≢ k → f j ≡ g j)
    → sum_from n i f + 1 ≡ sum_from n i g
sum_from-less zero i k ge lt less same = absurd (omega arith)
sum_from-less (suc n) i k {f} {g} ge lt less same = elim (Bool-cases (i == k)) [
  | inl here ↦
      let e : i ≡ k = ground arith in
      let first : f i + 1 ≡ g i = subst (λ a. f a + 1 ≡ g a) (sym e) less in
      let rest =
        sum_from_eq n (i + 1) {f = f} {g = g} λ j ge' lt'. same j λ e'. absurd (omega arith) in
      omega arith
  | inr on ↦
      let first = same i λ e. absurd (ground arith) in
      let rest = sum_from-less n (i + 1) k {f = f} {g = g} (ground arith) (omega arith) less same in
      omega arith
]

pub put_cell_here : (i j : ℤ) (v : TCell) (m : Matrix) → put_cell i j v m i j ≡ v
unfolding put_cell
put_cell_here i j v m = ground arith

pub put_cell_other :
    (i j : ℤ) (v : TCell) (m : Matrix) (a b : ℤ)
    → (eqb_ℤ a i && eqb_ℤ b j) ≡ false
    → put_cell i j v m a b ≡ m a b
unfolding put_cell
put_cell_other i j v m a b h = ground arith

module _ (m : Matrix) (i j : ℕ) where
  abbrev emptied : Matrix
  emptied = put_cell (pos i) (pos j) ct_empty m

  food_at-emptied : food_at emptied i j ≡ 0
  food_at-emptied = rw (put_cell_here (pos i) (pos j) ct_empty m) refl

  food_at_other : (a b : ℕ) → ((a == i) && (b == j)) ≡ false → food_at emptied a b ≡ food_at m a b
  food_at_other a b h =
      let e : emptied (pos a) (pos b) ≡ m (pos a) (pos b) =
        put_cell_other (pos i) (pos j) ct_empty m (pos a) (pos b) (ground arith) in
      ap (λ c. if is_food c then 1 else 0) e

  row_food-emptied :
      j < num_columns → is_food (m (pos i) (pos j)) ≡ true → row_food emptied i + 1 ≡ row_food m i
  row_food-emptied lt full =
      sum_from-less num_columns 0 j {f = food_at emptied i} {g = food_at m i} (omega arith)
        (omega arith) (rw (food_at-emptied, full) refl) (λ b ne. food_at_other i b (ground arith))

  row_food_other : (a : ℕ) → a ≢ i → row_food emptied a ≡ row_food m a
  row_food_other a ne =
      sum_from_eq num_columns 0 {f = food_at emptied a} {g = food_at m a}
        λ b _ _. food_at_other a b (ground arith)

  food-emptied :
      i < num_rows
      → j < num_columns
      → is_food (m (pos i) (pos j)) ≡ true
      → food emptied + 1 ≡ food m
  unfolding food
  food-emptied above left full =
      sum_from-less num_rows 0 i {f = row_food emptied} {g = row_food m} (omega arith) (omega arith)
        (row_food-emptied left full) row_food_other

-- Without its food a place makes the maze poorer by one.
pub food-put_cell :
    (x y : ℤ) (m : Matrix)
    → InMaze x y
    → is_food (m x y) ≡ true
    → food (put_cell x y ct_empty m) + 1 ≡ food m
food-put_cell (pos i) (pos j) m inside full =
    food-emptied m i j (inside.row.1) (inside.column.1) full
food-put_cell (negsuc i) y m inside full = absurd (omega (arith, inside.row))
food-put_cell (pos i) (negsuc j) m inside full = absurd (omega (arith, inside.column))

-- An empty maze has no food anywhere.
food_at_zero : (n i : ℕ) (f : ℕ → ℕ) → sum_from n i f ≡ 0 → (k : ℕ) → i ≤ k → k < i + n → f k ≡ 0
food_at_zero zero i f h k ge lt = absurd (omega arith)
food_at_zero (suc n) i f h k ge lt = elim (Bool-cases (i == k)) [
  | inl here ↦
      let e : i ≡ k = ground arith in let z : f i ≡ 0 = omega arith in subst (λ a. f a ≡ 0) e z
  | inr on ↦ food_at_zero n (i + 1) f (omega arith) k (ground arith) (omega arith)
]

pub food_zero : (m : Matrix) → food m ≡ 0 → (x y : ℤ) → InMaze x y → is_food (m x y) ≡ false
unfolding food
food_zero m h (pos i) (pos j) inside =
    let row = food_at_zero num_rows 0 (row_food m) h i (omega arith) (inside.row.1) in
    let place = food_at_zero num_columns 0 (food_at m i) row j (omega arith) (inside.column.1) in
    ground arith
food_zero m h (negsuc i) y inside = absurd (omega (arith, inside.row))
food_zero m h (pos i) (negsuc j) inside = absurd (omega (arith, inside.column))
