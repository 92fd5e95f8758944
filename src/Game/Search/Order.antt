-- ===== src/Game/Search/Order.antt =====
-- One round of the `while` loop of `bfs`, and the order of its queue.
use mathlib.Core.List.{Memᴰ, append-nil}
use mathlib.Core.List.Memᴰ
use soa_ze_os.Prelude.{
  ℕ, ◌+◌, ◌≡◌, refl, ap, ◌∙◌, sym, subst, inl, inr, true, false, List, [], ◌∷◌, ◌++◌, suc, arith,
  length,
}
use soa_ze_os.Prelude.Int.{ℤ}
use soa_ze_os.Game.{Matrix}
use soa_ze_os.Game.Search.{Node, Search, is_at, directions, expand}
use soa_ze_os.Game.Search.Marks.{is_open}
use soa_ze_os.Game.Search.Loop.{Inv}
use soa_ze_os.Game.Search.Levels.{Levels, advance}
use soa_ze_os.Game.Search.Round.{work, Tried, foldl-Tried, expanded-Closed, not_target}

module _ (m : Matrix) (sx sy tx ty : ℤ) (c : Node) where
  -- The node stands for the places of the smallest distance in the queue.
  pub record Front (s : Search) (rest : List Node) : Type 0 where
    pub l : ℕ
    pub near : List Node
    pub next : List Node
    pub split : rest ≡ near ++ next
    pub levels : Levels m sx sy l (c ∷ near) next s

  -- The `for` loop tries all neighbours of the node.
  expand-Tried :
      (s : Search) (rest : List Node)
      → Inv m sx sy tx ty s (c ∷ rest)
      → (f : Front s rest)
      → Tried m sx sy tx ty c f.l f.near
          (record s { pending = rest })
          (expand m c rest s)
          directions
  unfolding expand
  expand-Tried s rest h f =
      foldl-Tried m sx sy tx ty c f.l f.near f.next directions (record s { pending = rest })
        (refl, (refl, (refl, (refl, tt))))
        record {
          inv = record {
            sized = record { size = h.sized.size; slots = h.sized.slots };
            source = h.source;
            closed = h.closed;
            avoided = h.avoided;
          };
          split = f.split;
          levels = record {
            near_at = f.levels.near_at;
            next_at = f.levels.next_at;
            reached = f.levels.reached;
          };
        }

  popped-Inv :
      (l : ℕ) (near : List Node) (s t : Search)
      → Tried m sx sy tx ty c l near s t directions
      → is_at c tx ty ≡ false
      → Inv m sx sy tx ty t t.pending
  popped-Inv l near s t end off =
      let inv = end.ahead.inv in
      record {
        sized = inv.sized;
        source = inv.source;
        closed = λ x y opens mark. elim (inv.closed x y opens mark) [
          | inr on ↦ inr on
          | inl (n, mem, ex, ey) ↦ elim (Memᴰ.cases_cons mem) [
            | inl first ↦
                inr (expanded-Closed m sx sy tx ty c l near s t end n x y first ex ey mark)
            | inr waits ↦ inl (n, waits, ex, ey)
          ]
        ];
        avoided = λ opens mark.
            let (n, mem, ex, ey) = inv.avoided opens mark in
            elim (Memᴰ.cases_cons mem) [
              | inl first ↦ absurd (cc (not_target m sx sy tx ty c n first ex ey))
              | inr waits ↦ (n, waits, ex, ey)
            ];
      }

-- The queue of `s` is in the order of the distances.
pub record Ordered (m : Matrix) (sx sy tx ty : ℤ) (s : Search) : Type 0 where
  pub inv : Inv m sx sy tx ty s s.pending
  pub l : ℕ
  pub near : List Node
  pub next : List Node
  pub split : s.pending ≡ near ++ next
  pub levels : Levels m sx sy l near next s

module _ (m : Matrix) (sx sy tx ty : ℤ) where
  Levels-Front :
      (l : ℕ) (near next : List Node) (s : Search) (c : Node) (rest : List Node)
      → is_open m sx sy ≡ true
      → c ∷ rest ≡ near ++ next
      → Inv m sx sy tx ty s (c ∷ rest)
      → Levels m sx sy l near next s
      → Front m sx sy tx ty c s rest
  Levels-Front l [] next s c rest opens e h levels =
      let h' = subst (Inv m sx sy tx ty s) e h in
      let further = advance m sx sy tx ty opens l next s h' levels in
      record {
        l = suc l;
        near = rest;
        next = [];
        split = sym (append-nil rest);
        levels = subst (λ q. Levels m sx sy (suc l) q [] s) (sym e) further;
      }
  Levels-Front l (c' ∷ near) next s c rest opens e h levels =
      let same : c' ≡ c = cc in
      record {
        l = l;
        near = near;
        next = next;
        split = cc;
        levels = subst (λ a. Levels m sx sy l (a ∷ near) next s) same levels;
      }

  -- The head of the queue is next, with all that its round needs.
  pub Ordered-Front :
      (s : Search) (c : Node) (rest : List Node)
      → is_open m sx sy ≡ true
      → s.pending ≡ c ∷ rest
      → Ordered m sx sy tx ty s
      → Front m sx sy tx ty c s rest
  Ordered-Front s c rest opens e h =
      Levels-Front h.l h.near h.next s c rest opens (sym e ∙ h.split)
        (subst (Inv m sx sy tx ty s) e h.inv) h.levels

  -- A round keeps the invariant when the node is not the target.
  pub expand-Ordered :
      (s : Search) (c : Node) (rest : List Node)
      → is_open m sx sy ≡ true
      → s.pending ≡ c ∷ rest
      → is_at c tx ty ≡ false
      → Ordered m sx sy tx ty s
      → Ordered m sx sy tx ty (expand m c rest s) × (work (expand m c rest s) + 1 ≡ work s)
  expand-Ordered s c rest opens e off h =
      let f = Ordered-Front s c rest opens e h in
      let end = expand-Tried m sx sy tx ty c s rest (subst (Inv m sx sy tx ty s) e h.inv) f in
      let levels = end.ahead.levels in
      (
        record {
          inv = popped-Inv m sx sy tx ty c f.l f.near (record s { pending = rest }) _ end off;
          l = f.l;
          near = f.near;
          next = end.next;
          split = end.ahead.split;
          levels = record {
            near_at = λ n mem. levels.near_at n (Memᴰ.tail mem);
            next_at = levels.next_at;
            reached = levels.reached;
          };
        },
        omega (arith, end.same_work, ap length e),
      )
