-- ===== src/Game/Search/Round.antt =====
-- The `for` loop of `bfs`, which tries the neighbours of a node.
use mathlib.Core.List.{Memᴰ, foldl, append_assoc}
use mathlib.Core.List.Memᴰ
use soa_ze_os.Prelude.{
  ℕ, ◌+◌, ◌≡◌, refl, ap, ◌∙◌, sym, subst, inl, inr, true, false, List, [], ◌∷◌, ◌++◌, arith, length,
}
use soa_ze_os.Prelude.Int.{ℤ}
use soa_ze_os.Game.{
  TDir, dt_null, dt_up, dt_down, dt_left, dt_right, Matrix, is_null, row_to, column_to,
}
use soa_ze_os.Game.Search.{Node, Search, is_visited, is_at, put_node, try_direction, directions}
use soa_ze_os.Game.Search.Marks.{
  is_open, is_open-InMaze, unmarked, put_node_here, put_node_keeps, put_node_work, neighbour, Opens,
  try_direction_cases,
}
use soa_ze_os.Game.Search.Loop.{Leads-neighbour, Inv, put_node-Inv}
use soa_ze_os.Game.Search.Levels.{Levels, put_node-Levels}

-- What is marked stays marked.
abbrev pub Keeps : (s t : Search) → Type 0
Keeps s t = (x y : ℤ) → is_visited s x y ≡ true → is_visited t x y ≡ true

abbrev pub work : Search → ℕ
work s = unmarked s.visited + length s.pending

abbrev AllReal : List TDir → Type 0
AllReal [] = Unit
AllReal (d ∷ ds) = (is_null d ≡ false) × AllReal ds

abbrev MarkedTo : Node → Search → TDir → Type 0
MarkedTo c t d = is_visited t (row_to d c.x) (column_to d c.y) ≡ true

module _ (m : Matrix) (sx sy tx ty : ℤ) (c : Node) where
  -- What holds while the neighbours of `c` are tried; it stands before the rest of the queue.
  pub record Ahead (l : ℕ) (near next : List Node) (s : Search) : Type 0 where
    pub inv : Inv m sx sy tx ty s (c ∷ s.pending)
    pub split : s.pending ≡ near ++ next
    pub levels : Levels m sx sy l (c ∷ near) next s

  -- The node's neighbours in the directions `ds` have been tried.
  pub record Tried (l : ℕ) (near : List Node) (s t : Search) (ds : List TDir) : Type 0 where
    pub next : List Node
    pub ahead : Ahead l near next t
    pub marks : (d : TDir) → Memᴰ d ds → Opens m c d → MarkedTo c t d
    pub keeps : Keeps s t
    pub same_work : work t ≡ work s

  only :
      (t : Search) (d : TDir)
      → (Opens m c d → MarkedTo c t d)
      → (e : TDir) → Memᴰ e (d ∷ [])
      → Opens m c e
      → MarkedTo c t e
  only t d f e mem = subst (λ e'. Opens m c e' → MarkedTo c t e') (sym (Memᴰ.eq_of_singleton mem)) f

  put_node-Ahead :
      (l : ℕ) (near next : List Node) (s : Search) (d : TDir)
      → is_null d ≡ false
      → Ahead l near next s
      → Opens m c d
      → is_visited s (row_to d c.x) (column_to d c.y) ≡ false
      → Ahead l near (next ++ neighbour c d ∷ []) (put_node (neighbour c d) s)
  unfolding put_node
  put_node-Ahead l near next s d real h opens new =
      let n = neighbour c d in
      record {
        inv = put_node-Inv m sx sy tx ty s (c ∷ s.pending) n h.inv opens new;
        split = ap (λ q. q ++ n ∷ []) h.split ∙ append_assoc near next (n ∷ []);
        levels =
            put_node-Levels m sx sy l (c ∷ near) next s n h.inv.sized h.levels
              (Leads-neighbour m sx sy l c d real (h.levels.near_at c (Memᴰ.head refl)).0 opens)
              new;
      }

  try_direction-Tried :
      (l : ℕ) (near next : List Node) (s : Search) (d : TDir)
      → is_null d ≡ false
      → Ahead l near next s
      → Tried l near s (try_direction m c s d) (d ∷ [])
  try_direction-Tried l near next s d real h = elim (try_direction_cases m c s d h.inv.sized) [
    | inl (same, inl shut) ↦
        subst (λ t. Tried l near s t (d ∷ [])) (sym same)
          record {
            next = next;
            ahead = h;
            marks = only s d λ opens. cc;
            keeps = λ x y old. old;
            same_work = refl;
          }
    | inl (same, inr old) ↦
        subst (λ t. Tried l near s t (d ∷ [])) (sym same)
          record {
            next = next;
            ahead = h;
            marks = only s d λ _. old;
            keeps = λ x y seen. seen;
            same_work = refl;
          }
    | inr (same, opens, new) ↦
        let n = neighbour c d in
        let sized = h.inv.sized in
        let inside = is_open-InMaze m n.x n.y opens in
        subst (λ t. Tried l near s t (d ∷ [])) (sym same)
          record {
            next = next ++ n ∷ [];
            ahead = put_node-Ahead l near next s d real h opens new;
            marks = only (put_node n s) d λ _. put_node_here n s sized inside;
            keeps = λ x y. put_node_keeps n s x y sized inside;
            same_work = put_node_work n s sized inside new;
          }
  ]

  pub foldl-Tried :
      (l : ℕ) (near next : List Node) (ds : List TDir) (s : Search)
      → AllReal ds
      → Ahead l near next s
      → Tried l near s (foldl (try_direction m c) s ds) ds
  foldl-Tried l near next [] s real h = record {
    next = next;
    ahead = h;
    marks = λ d mem. absurd (Memᴰ.not-nil mem);
    keeps = λ x y old. old;
    same_work = refl;
  }
  foldl-Tried l near next (d ∷ ds) s (real, reals) h =
      let one = try_direction-Tried l near next s d real h in
      let more = foldl-Tried l near one.next ds (try_direction m c s d) reals one.ahead in
      record {
        next = more.next;
        ahead = more.ahead;
        marks = λ e mem opens. elim (Memᴰ.cases_cons mem) [
          | inl first ↦
              more.keeps (row_to e c.x) (column_to e c.y) (one.marks e (Memᴰ.head first) opens)
          | inr later ↦ more.marks e later opens
        ];
        keeps = λ x y old. more.keeps x y (one.keeps x y old);
        same_work = more.same_work ∙ one.same_work;
      }

  -- The neighbours of a place that `c` stands for are marked.
  abbrev Closed : Search → (x y : ℤ) → Type 0
  Closed t x y =
      (d : TDir)
      → is_open m (row_to d x) (column_to d y) ≡ true
      → is_visited t (row_to d x) (column_to d y) ≡ true

  Tried-Closed :
      (l : ℕ) (near : List Node) (s t : Search)
      → Tried l near s t directions
      → is_visited t c.x c.y ≡ true
      → Closed t c.x c.y
  unfolding row_to column_to
  Tried-Closed l near s t h mark dt_null opens = mark
  Tried-Closed l near s t h mark dt_up opens = h.marks dt_up (Memᴰ.head refl) opens
  Tried-Closed l near s t h mark dt_down opens = h.marks dt_down (Memᴰ.tail (Memᴰ.head refl)) opens
  Tried-Closed l near s t h mark dt_left opens =
      h.marks dt_left (Memᴰ.tail (Memᴰ.tail (Memᴰ.head refl))) opens
  Tried-Closed l near s t h mark dt_right opens =
      h.marks dt_right (Memᴰ.tail (Memᴰ.tail (Memᴰ.tail (Memᴰ.head refl)))) opens

  pub expanded-Closed :
      (l : ℕ) (near : List Node) (s t : Search)
      → Tried l near s t directions
      → (n : Node) (x y : ℤ) → n ≡ c
      → n.x ≡ x
      → n.y ≡ y
      → is_visited t x y ≡ true
      → Closed t x y
  expanded-Closed l near s t h n x y same ex ey mark =
      let cx : c.x ≡ x = sym (ap (λ w. w.x) same) ∙ ex in
      let cy : c.y ≡ y = sym (ap (λ w. w.y) same) ∙ ey in
      let here = rw (sym cx, sym cy) at mark in
      subst (λ a. Closed t a y) cx (subst (Closed t c.x) cy (Tried-Closed l near s t h here))

  pub not_target : (n : Node) → n ≡ c → n.x ≡ tx → n.y ≡ ty → is_at c tx ty ≡ true
  not_target n same ex ey =
      let cx : c.x ≡ tx = sym (ap (λ w. w.x) same) ∙ ex in
      let cy : c.y ≡ ty = sym (ap (λ w. w.y) same) ∙ ey in rw (cx, cy) (ground arith)
