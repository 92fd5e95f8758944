-- ===== src/Game/Search/Levels.antt =====
-- The queue of `bfs` holds the places of one distance from the start, then those one step farther.
use mathlib.Core.List.{Memᴰ}
use mathlib.Core.List.Memᴰ
use soa_ze_os.Prelude.{
  ℕ, suc, ◌≤◌, ◌≡◌, sym, subst, inl, inr, Bool-cases, true, false, List, [], ◌∷◌, ◌++◌, arith, ltb,
}
use soa_ze_os.Prelude.Int.{ℤ}
use soa_ze_os.Game.{Matrix}
use soa_ze_os.Game.Search.{Node, Search, is_visited, put_node}
use soa_ze_os.Game.Search.Marks.{is_open, is_open-InMaze, IsSized, put_node_keeps}
use soa_ze_os.Game.Search.Loop.{Walk, here, step, Leads, Inv}

module _ (m : Matrix) (sx sy : ℤ) where
  -- No way to the node is shorter than `l` steps.
  abbrev pub IsFar : ℕ → Node → Type 0
  IsFar l n = (j : ℕ) → Walk m sx sy j n.x n.y → l ≤ j

  -- A node at the distance `l`, whose direction leads along a shortest way.
  abbrev pub IsAt : ℕ → Node → Type 0
  IsAt l n = Leads m sx sy l n × IsFar l n

  -- The queue is `near` and then `next`, and what is within `l` steps is marked.
  pub record Levels (l : ℕ) (near next : List Node) (s : Search) : Type 0 where
    pub near_at : (n : Node) → Memᴰ n near → IsAt l n
    pub next_at : (n : Node) → Memᴰ n next → IsAt (suc l) n
    pub reached : (j : ℕ) (x y : ℤ) → Walk m sx sy j x y → j ≤ l → is_visited s x y ≡ true

  pub Walk-is_open :
      is_open m sx sy ≡ true → {j : ℕ} {x y : ℤ} → Walk m sx sy j x y → is_open m x y ≡ true
  Walk-is_open opens here = opens
  Walk-is_open opens (step d walk way) = way

  -- A place that is not marked is farther than `l` steps.
  new-IsFar :
      (l : ℕ) (near next : List Node) (s : Search) (n : Node)
      → Levels l near next s
      → is_visited s n.x n.y ≡ false
      → IsFar (suc l) n
  new-IsFar l near next s n h new j walk = elim (Bool-cases (ltb l j)) [
    | inl far ↦ ground arith
    | inr near ↦ absurd (cc (h.reached j n.x n.y walk (ground arith)))
  ]

  pub put_node-Levels :
      (l : ℕ) (near next : List Node) (s : Search) (n : Node)
      → IsSized s
      → Levels l near next s
      → Leads m sx sy (suc l) n
      → is_visited s n.x n.y ≡ false
      → Levels l near (next ++ n ∷ []) (put_node n s)
  put_node-Levels l near next s n sized h lead new = record {
    near_at = h.near_at;
    next_at = λ w mem. elim (Memᴰ.append_cases next mem) [
      | inl old ↦ h.next_at w old
      | inr last ↦
          subst (IsAt (suc l)) (sym (Memᴰ.eq_of_singleton last))
            (lead, new-IsFar l near next s n h new)
    ];
    reached = λ j x y walk le.
        put_node_keeps n s x y sized (is_open-InMaze m n.x n.y lead.0) (h.reached j x y walk le);
  }

  module _ (tx ty : ℤ) (opens : is_open m sx sy ≡ true) where
    -- With the nearer places expanded, what is one step farther is marked.
    reached_next :
        (l : ℕ) (next : List Node) (s : Search)
        → Inv m sx sy tx ty s next
        → Levels l [] next s
        → (j : ℕ) (x y : ℤ) → Walk m sx sy j x y
        → j ≤ suc l
        → is_visited s x y ≡ true
    reached_next l next s inv h j x y here le = inv.source
    reached_next l next s inv h j x y (step {k} {x = a} {y = b} d walk way) le =
        elim (inv.closed a b (Walk-is_open opens walk) (h.reached k a b walk (omega arith))) [
          | inr on ↦ on d way
          | inl (n, mem, ex, ey) ↦
              let there =
                subst (λ e. Walk m sx sy k e n.y) (sym ex)
                  (subst (Walk m sx sy k a) (sym ey) walk) in
              absurd (omega (arith, (h.next_at n mem).1 k there))
        ]

    pub advance :
        (l : ℕ) (next : List Node) (s : Search)
        → Inv m sx sy tx ty s next
        → Levels l [] next s
        → Levels (suc l) next [] s
    advance l next s inv h = record {
      near_at = h.next_at;
      next_at = λ n mem. absurd (Memᴰ.not-nil mem);
      reached = reached_next l next s inv h;
    }
