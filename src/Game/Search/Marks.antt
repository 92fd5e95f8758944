-- ===== src/Game/Search/Marks.antt =====
-- Which places `bfs` has marked, and how many.
use soa_ze_os.Prelude.{
  ℕ, zero, suc, ◌+◌, ◌<◌, ◌≡◌, ◌∙◌, sym, subst, ◌⊎◌, inl, inr, Bool, Bool-cases, true, false, not,
  ◌&&◌, List, [], ◌∷◌, arith, ltb, ◌==◌, length, length-append, get_or, set, length-set,
  get_or-set_self, get_or-set_ne,
}
use soa_ze_os.Prelude.Int.{ℤ, pos_part, neg_part, eq_of_parts}
use soa_ze_os.Game.{
  num_rows, num_columns, max_queue_size, TDir, Matrix, is_wall, in_maze, row_to, column_to,
}
use soa_ze_os.Game.Search.{
  Node, Search, index, is_visited, put_node, inherit_direction, try_direction,
}

-- A place of the maze that is no wall.
abbrev pub is_open : Matrix → ℤ → ℤ → Bool
is_open m x y = in_maze x y && not (is_wall (m x y))

pub record InMaze (x y : ℤ) : Type 0 where
  pub row : (neg_part x ≡ 0) × (pos_part x < num_rows)
  pub column : (neg_part y ≡ 0) × (pos_part y < num_columns)

pub in_maze-InMaze : (x y : ℤ) → in_maze x y ≡ true → InMaze x y
in_maze-InMaze x y h = record { row = ground arith; column = ground arith }

pub is_open-InMaze : (m : Matrix) (x y : ℤ) → is_open m x y ≡ true → InMaze x y
is_open-InMaze m x y h = in_maze-InMaze x y (ground arith)

pub index-injective :
    (x y a b : ℤ) → InMaze x y → InMaze a b → index x y ≡ index a b → (x ≡ a) × (y ≡ b)
index-injective x y a b h g e = (
  eq_of_parts x a (omega (arith, h.row, h.column, g.row, g.column)),
  eq_of_parts y b (omega (arith, h.row, h.column, g.row, g.column)),
)

pub index-lt : (x y : ℤ) → InMaze x y → index x y < max_queue_size
index-lt x y h = omega (arith, h.row, h.column)

-- How many marks are not set.
abbrev pub unmarked : List Bool → ℕ
unmarked [] = 0
unmarked (false ∷ bs) = suc (unmarked bs)
unmarked (true ∷ bs) = unmarked bs

unmarked-set :
    (bs : List Bool) (i : ℕ)
    → i < length bs
    → get_or bs i false ≡ false
    → unmarked (set bs i true) + 1 ≡ unmarked bs
unmarked-set [] i lt e = absurd (omega arith)
unmarked-set (true ∷ bs) zero lt e = cc
unmarked-set (false ∷ bs) zero lt e = omega arith
unmarked-set (true ∷ bs) (suc i) lt e = unmarked-set bs i (omega arith) e
unmarked-set (false ∷ bs) (suc i) lt e = let one = unmarked-set bs i (omega arith) e in omega arith

-- Every mark has taken one slot of the queue.
pub record IsSized (s : Search) : Type 0 where
  pub size : length s.visited ≡ max_queue_size
  pub slots : unmarked s.visited + s.rear ≡ max_queue_size

module _ (n : Node) (s : Search) where
  -- A place that is not marked yet leaves a slot free.
  pub rear-lt : IsSized s → InMaze n.x n.y → is_visited s n.x n.y ≡ false → s.rear < max_queue_size
  rear-lt h inside new =
      let lt = index-lt n.x n.y inside in
      let size = h.size in
      let slots = h.slots in
      let one = unmarked-set s.visited (index n.x n.y) (omega arith) new in omega arith

  pub put_node-IsSized :
      IsSized s → InMaze n.x n.y → is_visited s n.x n.y ≡ false → IsSized (put_node n s)
  unfolding put_node
  put_node-IsSized h inside new =
      let lt = index-lt n.x n.y inside in
      let size = h.size in
      let slots = h.slots in
      let one = unmarked-set s.visited (index n.x n.y) (omega arith) new in
      record { size = length-set s.visited (index n.x n.y) true ∙ size; slots = omega arith }

  pub put_node_work :
      IsSized s
      → InMaze n.x n.y
      → is_visited s n.x n.y ≡ false
      → unmarked (put_node n s).visited + length (put_node n s).pending
        ≡ unmarked s.visited + length s.pending
  unfolding put_node
  put_node_work h inside new =
      let lt = index-lt n.x n.y inside in
      let size = h.size in
      let one = unmarked-set s.visited (index n.x n.y) (omega arith) new in
      omega (arith, length-append s.pending (n ∷ []))

  pub put_node_here : IsSized s → InMaze n.x n.y → is_visited (put_node n s) n.x n.y ≡ true
  unfolding put_node
  put_node_here h inside =
      let lt = index-lt n.x n.y inside in
      let size = h.size in get_or-set_self s.visited (index n.x n.y) true false (omega arith)

  -- A mark that is set afterwards was set before or is the new one.
  pub put_node_cases :
      (x y : ℤ)
      → InMaze n.x n.y
      → InMaze x y
      → is_visited (put_node n s) x y ≡ true
      → (is_visited s x y ≡ true) ⊎ (n.x ≡ x) × (n.y ≡ y)
  unfolding put_node
  put_node_cases x y inside there h = elim (Bool-cases (index n.x n.y == index x y)) [
    | inl same ↦ inr (index-injective n.x n.y x y inside there (ground arith))
    | inr other ↦ inl (sym (get_or-set_ne s.visited true false λ e. absurd (ground arith)) ∙ h)
  ]

  pub put_node_keeps :
      (x y : ℤ)
      → IsSized s
      → InMaze n.x n.y
      → is_visited s x y ≡ true
      → is_visited (put_node n s) x y ≡ true
  unfolding put_node
  put_node_keeps x y h inside old = elim (Bool-cases (index n.x n.y == index x y)) [
    | inl same ↦
        let e : index n.x n.y ≡ index x y = ground arith in
        subst (λ i. get_or (set s.visited (index n.x n.y) true) i false ≡ true) e
          (put_node_here h inside)
    | inr other ↦ get_or-set_ne s.visited true false (λ e. absurd (ground arith)) ∙ old
  ]

-- The neighbour of a node in a direction, as `bfs` queues it.
abbrev pub neighbour : Node → TDir → Node
neighbour c d = record {
  x = row_to d c.x;
  y = column_to d c.y;
  direction = inherit_direction c.direction d;
}

abbrev pub Opens : Matrix → Node → TDir → Type 0
Opens m c d = is_open m (row_to d c.x) (column_to d c.y) ≡ true

-- `try_direction` leaves out what is closed or marked, and queues everything else: the test of the
-- queue's size is always met.
pub try_direction_cases :
    (m : Matrix) (c : Node) (s : Search) (d : TDir)
    → IsSized s
    → ((try_direction m c s d ≡ s)
        × ((is_open m (row_to d c.x) (column_to d c.y) ≡ false)
            ⊎ (is_visited s (row_to d c.x) (column_to d c.y) ≡ true)))
      ⊎ ((try_direction m c s d ≡ put_node (neighbour c d) s)
          × Opens m c d
          × (is_visited s (row_to d c.x) (column_to d c.y) ≡ false))
unfolding try_direction
try_direction_cases m c s d h =
    let nx = row_to d c.x in
    let ny = column_to d c.y in
    elim (Bool-cases (is_open m nx ny)) [
      | inr shut ↦ inl (ground arith, inl shut)
      | inl opens ↦ elim (Bool-cases (is_visited s nx ny)) [
        | inl old ↦ inl (ground arith, inr old)
        | inr new ↦
            let room : ltb s.rear max_queue_size ≡ true =
              ground (arith, rear-lt (neighbour c d) s h (is_open-InMaze m nx ny opens) new) in
            inr (ground arith, opens, new)
      ]
    ]
