-- ===== src/Sched/Turn.antt =====
-- The tasks of a round robin and the nodes of their queue.
use soa_ze_os.Prelude.{ℕ, ◌%◌, ◌≡◌, refl, ap, some, List, [], ◌∷◌, ◌++◌, arith}
use soa_ze_os.Links.{Links}
use soa_ze_os.Links.Chain.{has}
use soa_ze_os.Links.Queue.{IsQueue, SameOutside}
use soa_ze_os.Links.Remove.{list_del_lem}
use soa_ze_os.Links.Walk.{list_empty_lem, list_first_lem}
use soa_ze_os.Layout.{Layout, list_node, page_size}
use soa_ze_os.Kernel.{Kernel, page_of}
use soa_ze_os.Sched.{pick_next}
use soa_ze_os.Sched.Spec.{turn}
use soa_ze_os.Sched.Inv.{nodes}

pub nodes-append : (xs ys : List ℕ) → nodes (xs ++ ys) ≡ nodes xs ++ nodes ys
nodes-append [] ys = refl
nodes-append (x ∷ xs) ys = ap (λ zs. list_node x ∷ zs) (nodes-append xs ys)

pub has-nodes : (t : ℕ) (xs : List ℕ) → has (list_node t) (nodes xs) ≡ has t xs
has-nodes t [] = refl
has-nodes t (x ∷ xs) = ground (arith, has-nodes t xs)

pub turn_lem : (r : ℕ) (xs : List ℕ) → (turn r xs).0 ∷ (turn r xs).1 ≡ xs ++ (r ∷ [])
turn_lem r [] = refl
turn_lem r (x ∷ xs) = refl

-- A node leads back to the task that it is part of.
pub page_of-list_node : (t : ℕ) → t % page_size ≡ 0 → page_of (list_node t) ≡ t
page_of-list_node t h = omega (arith, h)

-- With tasks on the ready queue the first of them is taken off.
pub pick_next-first :
    (l : Layout) (k : Kernel) (t : ℕ) (ts : List ℕ)
    → IsQueue k.links l.readyqueue (nodes (t ∷ ts))
    → t % page_size ≡ 0
    → (g : Links) × (pick_next l k ≡ some (t, record k { links = g }))
      × IsQueue g l.readyqueue (nodes ts)
      × SameOutside (l.readyqueue ∷ nodes (t ∷ ts)) k.links g
unfolding pick_next
pick_next-first l k t ts q al =
    let empty = list_empty_lem k.links l.readyqueue (nodes (t ∷ ts)) q in
    let first = list_first_lem k.links l.readyqueue (nodes (t ∷ ts)) q in
    let (g, del, q', same, _, _) = list_del_lem [] (nodes ts) q in
    (g, rw (empty, first, del, page_of-list_node t al), q', same)
