-- ===== src/Game/Search/Correct.antt =====
-- What `bfs` returns.
use mathlib.Core.List.{Memᴰ}
use mathlib.Core.List.Memᴰ
use soa_ze_os.Prelude.{
  ℕ, zero, suc, ◌+◌, ◌<◌, ◌≤◌, ◌≡◌, refl, ap, ◌∙◌, sym, subst, ◌⊎◌, inl, inr, Bool-cases, true,
  false, some, [], ◌∷◌, arith, List-cases, length-replicate, get_or, replicate,
}
use soa_ze_os.Prelude.Int.{ℤ, eq_of_parts}
use soa_ze_os.Game.{max_queue_size, TDir, dt_null, Matrix}
use soa_ze_os.Game.Search.{
  Node, Search, index, is_visited, is_at, put_node, expand, search, start, bfs,
}
use soa_ze_os.Game.Search.Marks.{
  is_open, is_open-InMaze, unmarked, IsSized, put_node-IsSized, put_node_here, put_node_cases,
  put_node_work,
}
use soa_ze_os.Game.Search.Loop.{Walk, here, step, Queued, SetsOut, Inv}
use soa_ze_os.Game.Search.Levels.{IsAt}
use soa_ze_os.Game.Search.Round.{work}
use soa_ze_os.Game.Search.Order.{Ordered, Ordered-Front, expand-Ordered}

unmarked-replicate : (n : ℕ) → unmarked (replicate n false) ≡ n
unmarked-replicate zero = refl
unmarked-replicate (suc n) = ap suc (unmarked-replicate n)

get_or-replicate : (n i : ℕ) → get_or (replicate n false) i false ≡ false
get_or-replicate zero i = refl
get_or-replicate (suc n) zero = refl
get_or-replicate (suc n) (suc i) = get_or-replicate n i

module _ (m : Matrix) (sx sy tx ty : ℤ) where
  -- What a direction says of the ways from the start to the target.
  abbrev pub Answer : TDir → Type 0
  Answer d =
      ((d ≡ dt_null) × (sx ≡ tx) × (sy ≡ ty))
      ⊎ ((d ≡ dt_null) × ((j : ℕ) → ¬ Walk m sx sy j tx ty))
      ⊎ ((k : ℕ) × SetsOut m sx sy k d tx ty × ((j : ℕ) → Walk m sx sy j tx ty → k < j))

  -- With an empty queue everything that a way leads to is marked.
  marked_all :
      (s : Search)
      → is_open m sx sy ≡ true
      → Inv m sx sy tx ty s []
      → {j : ℕ} {x y : ℤ} → Walk m sx sy j x y
      → (is_open m x y ≡ true) × (is_visited s x y ≡ true)
  marked_all s opens h here = (opens, h.source)
  marked_all s opens h (step {x} {y} d walk way) =
      let (at, mark) = marked_all s opens h walk in
      elim (h.closed x y at mark) [
        | inl (n, mem, _, _) ↦ absurd (Memᴰ.not-nil mem)
        | inr on ↦ (way, on d way)
      ]

  no_way :
      (s : Search)
      → is_open m sx sy ≡ true
      → Inv m sx sy tx ty s []
      → (j : ℕ) → ¬ Walk m sx sy j tx ty
  no_way s opens h j walk =
      let (at, mark) = marked_all s opens h walk in
      let (n, mem, _, _) = h.avoided at mark in Memᴰ.not-nil mem

  is_at_eq : (n : Node) → is_at n tx ty ≡ true → (n.x ≡ tx) × (n.y ≡ ty)
  is_at_eq n h = (eq_of_parts n.x tx (ground arith), eq_of_parts n.y ty (ground arith))

  IsAt-Answer : (l : ℕ) (n : Node) → IsAt m sx sy l n → is_at n tx ty ≡ true → Answer n.direction
  IsAt-Answer l n ((_, lead), far) h =
      let (ex, ey) = is_at_eq n h in
      elim lead [
        | inl (null, _, x, y) ↦ inl (null, sym x ∙ ex, sym y ∙ ey)
        | inr (k, steps, out) ↦
            let there = subst (SetsOut m sx sy k n.direction n.x) ey out in
            inr (
              inr (
                k,
                subst (λ a. SetsOut m sx sy k n.direction a ty) ex there,
                λ j walk.
                    let back =
                      subst (Walk m sx sy j n.x) (sym ey)
                        (subst (λ a. Walk m sx sy j a ty) (sym ex) walk) in
                    omega (arith, far j back, steps),
              ))
      ]

  search_lem :
      (fuel : ℕ) (s : Search)
      → is_open m sx sy ≡ true
      → Ordered m sx sy tx ty s
      → work s < fuel
      → (d : TDir) × (search m tx ty fuel s ≡ some d) × Answer d
  unfolding search expand
  search_lem zero s opens h lt = absurd (omega arith)
  search_lem (suc fuel) s opens h lt = elim (List-cases s.pending) [
    | inl e ↦ (
      dt_null,
      rw (e) refl,
      inr (inl (refl, no_way s opens (subst (Inv m sx sy tx ty s) e h.inv))),
    )
    | inr (n, rest, e) ↦ elim (Bool-cases (is_at n tx ty)) [
      | inl there ↦
          let front = Ordered-Front m sx sy tx ty s n rest opens e h in
          let first = front.levels.near_at n (Memᴰ.head refl) in
          (n.direction, rw (e, there) refl, IsAt-Answer front.l n first there)
      | inr off ↦
          let (inv, less) = expand-Ordered m sx sy tx ty s n rest opens e off h in
          let (d, found, answer) = search_lem fuel (expand m n rest s) opens inv (omega arith) in
          (d, rw (e, off) found, answer)
    ]
  ]

  -- The locals of `bfs` before the start is queued, and its node.
  abbrev blank : Search
  blank = record { visited = replicate max_queue_size false; pending = []; rear = 0 }

  abbrev first_node : Node
  first_node = record { x = sx; y = sy; direction = dt_null }

  blank-IsSized : IsSized blank
  blank-IsSized = record {
    size = length-replicate max_queue_size false;
    slots = omega (arith, unmarked-replicate max_queue_size);
  }

  blank_new : (x y : ℤ) → is_visited blank x y ≡ false
  blank_new x y = get_or-replicate max_queue_size (index x y)

  work-start : is_open m sx sy ≡ true → work (start sx sy) ≡ max_queue_size
  unfolding start
  work-start opens = omega (
    arith,
    put_node_work first_node blank blank-IsSized (is_open-InMaze m sx sy opens) (blank_new sx sy),
    unmarked-replicate max_queue_size,
  )

  start-Queued :
      is_open m sx sy ≡ true
      → (x y : ℤ) → is_open m x y ≡ true
      → is_visited (put_node first_node blank) x y ≡ true
      → Queued (first_node ∷ []) x y
  start-Queued opens x y there mark =
      let inside = is_open-InMaze m sx sy opens in
      elim (put_node_cases first_node blank x y inside (is_open-InMaze m x y there) mark) [
        | inl old ↦ absurd (cc (blank_new x y))
        | inr (ex, ey) ↦ (first_node, Memᴰ.head refl, ex, ey)
      ]

  start-Inv : is_open m sx sy ≡ true → Inv m sx sy tx ty (start sx sy) (start sx sy).pending
  unfolding start put_node
  start-Inv opens =
      let inside = is_open-InMaze m sx sy opens in
      record {
        sized = put_node-IsSized first_node blank blank-IsSized inside (blank_new sx sy);
        source = put_node_here first_node blank blank-IsSized inside;
        closed = λ x y there mark. inl (start-Queued opens x y there mark);
        avoided = start-Queued opens tx ty;
      }

  reached_first :
      (s : Search) (j : ℕ) (x y : ℤ)
      → Walk m sx sy j x y
      → j ≤ 0
      → is_visited s sx sy ≡ true
      → is_visited s x y ≡ true
  reached_first s j x y here le mark = mark
  reached_first s j x y (step d walk way) le mark = absurd (omega arith)

  start-Ordered : is_open m sx sy ≡ true → Ordered m sx sy tx ty (start sx sy)
  unfolding start put_node
  start-Ordered opens =
      let inv = start-Inv opens in
      record {
        inv = inv;
        l = 0;
        near = first_node ∷ [];
        next = [];
        split = refl;
        levels = record {
          near_at = λ n mem.
              subst (IsAt m sx sy 0) (sym (Memᴰ.eq_of_singleton mem))
                ((opens, inl (refl, refl, refl, refl)), λ j walk. omega arith);
          next_at = λ n mem. absurd (Memᴰ.not-nil mem);
          reached = λ j x y walk le. reached_first (start sx sy) j x y walk le inv.source;
        };
      }

-- From a place of the maze that is no wall `bfs` ends. It returns `DT_NULL` when the start is the target
-- or no way leads to it; else the direction of the first step of a shortest way to the target: the maze is
-- open there, and from there `k` steps lead to the target, while every way from the start has more than
-- `k`.
pub bfs_lem :
    (m : Matrix) (sx sy tx ty : ℤ)
    → is_open m sx sy ≡ true
    → (d : TDir) × (bfs m sx sy tx ty ≡ some d) × Answer m sx sy tx ty d
unfolding bfs
bfs_lem m sx sy tx ty opens =
    search_lem m sx sy tx ty (max_queue_size + 1) (start sx sy) opens
      (start-Ordered m sx sy tx ty opens) (omega (arith, work-start m sx sy tx ty opens))
