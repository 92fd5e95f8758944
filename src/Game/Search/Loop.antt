-- ===== src/Game/Search/Loop.antt =====
-- The loops of `bfs` keep what holds of the places marked and queued; it ends, and never finds its queue
-- full.
use mathlib.Core.List.{Memᴰ}
use mathlib.Core.List.Memᴰ
use soa_ze_os.Prelude.{
  ℕ, suc, ◌≡◌, refl, ap, sym, subst, ◌⊎◌, inl, inr, true, false, List, [], ◌∷◌, ◌++◌,
}
use soa_ze_os.Prelude.Int.{ℤ}
use soa_ze_os.Game.{TDir, dt_null, Matrix, is_null, row_to, column_to}
use soa_ze_os.Game.Search.{Node, Search, is_visited, put_node, inherit_direction}
use soa_ze_os.Game.Search.Marks.{
  is_open, is_open-InMaze, IsSized, put_node-IsSized, put_node_cases, put_node_keeps, neighbour,
  Opens,
}

-- The ways of a length through the maze from a place.
pub data Walk (m : Matrix) (sx sy : ℤ) : ℕ → ℤ → ℤ → Type 0 where
  here : Walk m sx sy 0 sx sy
  step :
      {k : ℕ} {x y : ℤ} (d : TDir)
      → Walk m sx sy k x y
      → is_open m (row_to d x) (column_to d y) ≡ true
      → Walk m sx sy (suc k) (row_to d x) (column_to d y)

-- A node at `x`, `y` waits in the queue.
abbrev pub Queued : List Node → ℤ → ℤ → Type 0
Queued q x y = (n : Node) × Memᴰ n q × (n.x ≡ x) × (n.y ≡ y)

module _ (m : Matrix) (sx sy : ℤ) where
  -- There is a way from the start that sets out in this direction, with `k` steps after the first.
  abbrev pub SetsOut : ℕ → TDir → (x y : ℤ) → Type 0
  SetsOut k d x y =
      (is_null d ≡ false)
      × (is_open m (row_to d sx) (column_to d sy) ≡ true)
      × Walk m (row_to d sx) (column_to d sy) k x y

  -- What a node of the queue says: it is the start, or its direction leads to it in `l` steps.
  abbrev pub Leads : ℕ → Node → Type 0
  Leads l n =
      (is_open m n.x n.y ≡ true)
      × (((n.direction ≡ dt_null) × (l ≡ 0) × (n.x ≡ sx) × (n.y ≡ sy))
          ⊎ ((k : ℕ) × (l ≡ suc k) × SetsOut k n.direction n.x n.y))

  pub Leads-neighbour :
      (l : ℕ) (c : Node) (d : TDir)
      → is_null d ≡ false
      → Leads l c
      → Opens m c d
      → Leads (suc l) (neighbour c d)
  Leads-neighbour l c d real (at, inl (null, zero_steps, ex, ey)) opens =
      let from_start : is_open m (row_to d sx) (column_to d sy) ≡ true = rw (ex, ey) at opens in
      rw (null, ex, ey) (from_start, inr (0, ap suc zero_steps, (real, from_start, here)))
  Leads-neighbour l c d real (at, inr (k, steps, (set_out, first, walk))) opens =
      let same : inherit_direction c.direction d ≡ c.direction = rw (set_out) refl in
      (
        opens,
        inr (
          suc k,
          ap suc steps,
          subst (λ e. SetsOut (suc k) e (row_to d c.x) (column_to d c.y)) (sym same)
              (set_out, first, step d walk opens),
        ),
      )

  module _ (tx ty : ℤ) where
    -- The nodes of `q` are those not expanded yet.
    pub record Inv (s : Search) (q : List Node) : Type 0 where
      pub sized : IsSized s
      pub source : is_visited s sx sy ≡ true
      pub closed :
          (x y : ℤ)
          → is_open m x y ≡ true
          → is_visited s x y ≡ true
          → Queued q x y
            ⊎ ((d : TDir)
                → is_open m (row_to d x) (column_to d y) ≡ true
                → is_visited s (row_to d x) (column_to d y) ≡ true)
      pub avoided : is_open m tx ty ≡ true → is_visited s tx ty ≡ true → Queued q tx ty

    Queued-append : (q : List Node) (n : Node) (x y : ℤ) → Queued q x y → Queued (q ++ n ∷ []) x y
    Queued-append q n x y (w, mem, ex, ey) = (w, Memᴰ.append_left _ mem, ex, ey)

    -- A new node with a way to it is queued.
    pub put_node-Inv :
        (s : Search) (q : List Node) (n : Node)
        → Inv s q
        → is_open m n.x n.y ≡ true
        → is_visited s n.x n.y ≡ false
        → Inv (put_node n s) (q ++ n ∷ [])
    put_node-Inv s q n h opens_n new =
        let inside = is_open-InMaze m n.x n.y opens_n in
        record {
          sized = put_node-IsSized n s h.sized inside new;
          source = put_node_keeps n s sx sy h.sized inside h.source;
          closed = λ x y opens mark.
              elim (put_node_cases n s x y inside (is_open-InMaze m x y opens) mark) [
                | inr (ex, ey) ↦ inl (n, Memᴰ.append_right q (Memᴰ.head refl), ex, ey)
                | inl old ↦ elim (h.closed x y opens old) [
                  | inl waits ↦ inl (Queued-append q n x y waits)
                  | inr on ↦ inr λ d way.
                      put_node_keeps n s (row_to d x) (column_to d y) h.sized inside (on d way)
                ]
              ];
          avoided = λ opens mark.
              elim (put_node_cases n s tx ty inside (is_open-InMaze m tx ty opens) mark) [
                | inr (ex, ey) ↦ (n, Memᴰ.append_right q (Memᴰ.head refl), ex, ey)
                | inl old ↦ Queued-append q n tx ty (h.avoided opens old)
              ];
        }
