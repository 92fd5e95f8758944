-- ===== src/Links/Walk.antt =====
-- The operations of list.c and list.h that only look at a queue, and the one that makes it.
use soa_ze_os.Prelude.{
  ℕ, zero, suc, ◌<◌, ◌≡◌, refl, ◌≢◌, Bool, true, false, some, List, [], ◌∷◌, arith, ◌==◌, length,
}
use soa_ze_os.Links.{
  Addr, null, Links, update, init_list_head, list_empty, list_first, list_for_each_from,
  list_for_each,
}
use soa_ze_os.Links.Chain.{has, Chain, first, ne_null, Chain-next}
use soa_ze_os.Links.Queue.{IsQueue, SameOutside}

abbrev pub is_nil : List Addr → Bool
is_nil [] = true
is_nil (x ∷ xs) = false

-- `INIT_LIST_HEAD` makes an empty queue and touches only its head.
pub init_list_head_lem :
    (h : Links) (head : Addr)
    → head ≢ null
    → (g : Links) × (init_list_head head h ≡ some (tt, g))
      × IsQueue g head []
      × SameOutside (head ∷ []) h g
unfolding init_list_head update
init_list_head_lem h head hn = (
  record h { next = update h.next head head; prev = update h.prev head head },
  rw (ne_null head hn, ne_null head hn),
  record { chain = (ground arith, ground arith); distinct = (refl, tt); not_null = ground arith },
  λ a o. ground arith,
)

head-ne-null : (h : Links) (head : Addr) (xs : List Addr) → IsQueue h head xs → head ≢ null
head-ne-null h head xs q = ground (arith, q.not_null)

-- `list_empty` tells whether the queue has a node.
pub list_empty_lem :
    (h : Links) (head : Addr) (xs : List Addr)
    → IsQueue h head xs
    → list_empty head h ≡ some (is_nil xs, h)
unfolding list_empty
list_empty_lem h head [] q =
    rw (ne_null head (head-ne-null h head [] q)) (ground (arith, q.chain.0))
list_empty_lem h head (x ∷ xs) q =
    rw (ne_null head (head-ne-null h head (x ∷ xs) q)) (ground (arith, q.chain.0, q.distinct.0))

-- `list_first` of a queue with a node is its first node.
pub list_first_lem :
    (h : Links) (head : Addr) (xs : List Addr)
    → IsQueue h head xs
    → list_first head h ≡ some (first xs head, h)
unfolding list_first
list_first_lem h head xs q =
    rw (ne_null head (head-ne-null h head xs q), Chain-next h head head xs q.chain)

-- From the first node on the cursor runs through the rest of the chain.
list_for_each_from-Chain :
    (fuel : ℕ) (h : Links) (p head : Addr) (xs : List Addr)
    → Chain h p xs head
    → has null xs ≡ false
    → has head xs ≡ false
    → length xs < fuel
    → list_for_each_from fuel (first xs head) head h ≡ some (xs, h)
unfolding list_for_each_from
list_for_each_from-Chain zero h p head xs c nn out lt = absurd (omega arith)
list_for_each_from-Chain (suc fuel) h p head [] c nn out lt = ground arith
list_for_each_from-Chain (suc fuel) h p head (x ∷ xs) c nn out lt =
    let ne : (x == head) ≡ false = ground arith in
    let nz : (x == null) ≡ false = ground arith in
    rw (
      ne,
      nz,
      Chain-next h x head xs c.2,
      list_for_each_from-Chain fuel h x head xs c.2 (ground arith) (ground arith) (omega arith),
    )

-- `list_for_each` visits the nodes of the queue once each, in order, and stops.
pub list_for_each_lem :
    (fuel : ℕ) (h : Links) (head : Addr) (xs : List Addr)
    → IsQueue h head xs
    → length xs < fuel
    → list_for_each fuel head h ≡ some (xs, h)
unfolding list_for_each
list_for_each_lem fuel h head xs q lt =
    rw (ne_null head (head-ne-null h head xs q), Chain-next h head head xs q.chain)
      (list_for_each_from-Chain fuel h head head xs q.chain (ground (arith, q.not_null))
        q.distinct.0 lt)
