-- ===== src/Links/Insert.antt =====
-- `list_add` and `list_add_tail` of list.c on a queue: the nodes after the call, and which nodes
-- are touched.
use soa_ze_os.Prelude.{◌≡◌, refl, ◌≢◌, true, false, some, List, [], ◌∷◌, ◌++◌, arith}
use soa_ze_os.Links.{Addr, null, Links, update, list_add_between, list_add, list_add_tail}
use soa_ze_os.Links.Chain.{
  has, Distinct, Chain, last, first, has-append, has-last, has-first, ne_null, has-null, Chain-prev,
  Chain-next, Chain-frame,
}
use soa_ze_os.Links.Queue.{IsQueue, SameOutside}

-- The links after `__list_add`.
abbrev spliced : (new p n : Addr) → Links → Links
spliced new p n h = record {
  next = update (update h.next new n) p new;
  prev = update (update h.prev n new) new p;
}

list_add_between-ok :
    (new p n : Addr) (h : Links)
    → new ≢ null
    → p ≢ null
    → n ≢ null
    → list_add_between new p n h ≡ some (tt, spliced new p n h)
unfolding list_add_between
list_add_between-ok new p n h hn hp hx =
    rw (ne_null n hx, ne_null new hn, ne_null new hn, ne_null p hp)

-- A node put behind the last one of a chain.
Chain-snoc :
    (h g : Links) (new p q : Addr) (xs : List Addr)
    → Distinct (p ∷ xs)
    → ((a : Addr) → has a (p ∷ xs) ≡ true → a ≢ last p xs → g.next a ≡ h.next a)
    → ((a : Addr) → has a xs ≡ true → g.prev a ≡ h.prev a)
    → g.next (last p xs) ≡ new
    → g.prev new ≡ last p xs
    → g.next new ≡ q
    → g.prev q ≡ new
    → Chain h p xs q
    → Chain g p (xs ++ (new ∷ [])) q
Chain-snoc h g new p q [] d sn sp l ln nq qn c = (l, ln, (nq, qn))
Chain-snoc h g new p q (x ∷ xs) d sn sp l ln nq qn c = (
  ground (arith, sn p, has-last x xs),
  ground (arith, sp x),
  Chain-snoc h g new x q xs d.1 (λ a m ne. sn a (ground arith) ne) (λ a m. sp a (ground arith)) l ln
      nq qn c.2,
)

Distinct-snoc :
    (new : Addr) (xs : List Addr) → Distinct xs → has new xs ≡ false → Distinct (xs ++ (new ∷ []))
Distinct-snoc new [] d out = (refl, tt)
Distinct-snoc new (x ∷ xs) d out =
    (ground (arith, has-append x xs (new ∷ [])), Distinct-snoc new xs d.1 (ground arith))

-- A node put before the first one of a chain.
Chain-cons :
    (h g : Links) (new p q : Addr) (xs : List Addr)
    → Distinct xs
    → has q xs ≡ false
    → ((a : Addr) → has a xs ≡ true → g.next a ≡ h.next a)
    → ((a : Addr) → has a (q ∷ xs) ≡ true → a ≢ first xs q → g.prev a ≡ h.prev a)
    → g.next new ≡ first xs q
    → g.prev (first xs q) ≡ new
    → Chain h p xs q
    → Chain g new xs q
Chain-cons h g new p q [] d out sn sp nf fn c = (nf, fn)
Chain-cons h g new p q (x ∷ xs) d out sn sp nf fn c =
    (nf, fn, Chain-frame h g x q xs sn (λ a m. sp a (ground arith) (ground (arith, d.0))) c.2)

module _ {h : Links} {head : Addr} {xs : List Addr} (new : Addr) (q : IsQueue h head xs)
    (nn : new ≢ null) (out : has new (head ∷ xs) ≡ false) where
  -- `list_add_tail` puts the node at the end of the queue.
  pub list_add_tail_lem :
      (g : Links) × (list_add_tail new head h ≡ some (tt, g))
      × IsQueue g head (xs ++ (new ∷ []))
      × SameOutside (new ∷ head ∷ xs) h g
  unfolding list_add_tail update
  list_add_tail_lem =
      let l = last head xs in
      let e : h.prev head ≡ l = Chain-prev h head head xs q.chain in
      let m = has-last head xs in
      let hn : head ≢ null = ground (arith, q.not_null) in
      let g : Links = spliced new l head h in
      (
        g,
        rw (ne_null head hn, e)
            (list_add_between-ok new l head h nn
              (ground (arith, m, q.not_null, has-null (last head xs) (head ∷ xs))) hn),
        record {
          chain =
              Chain-snoc h g new head head xs q.distinct (λ a i ne. ground arith)
                (λ a i. ground arith) (ground arith) (ground arith) ground (arith) (ground arith)
                q.chain;
          distinct = (
            ground (arith, has-append head xs (new ∷ [])),
            Distinct-snoc new xs q.distinct.1 (ground arith),
          );
          not_null = ground (arith, has-append null xs (new ∷ []), q.not_null);
        },
        λ a o. ground (arith, m),
      )

  -- `list_add` puts the node at the front of the queue.
  pub list_add_lem :
      (g : Links) × (list_add new head h ≡ some (tt, g))
      × IsQueue g head (new ∷ xs)
      × SameOutside (new ∷ head ∷ xs) h g
  unfolding list_add update
  list_add_lem =
      let n = first xs head in
      let e : h.next head ≡ n = Chain-next h head head xs q.chain in
      let m = has-first xs head in
      let hn : head ≢ null = ground (arith, q.not_null) in
      let g : Links = spliced new head n h in
      (
        g,
        rw (ne_null head hn, e)
            (list_add_between-ok new head n h nn hn (has-null n (head ∷ xs) q.not_null m)),
        record {
          chain = (
            ground arith,
            ground (arith, m),
            Chain-cons h g new head head xs q.distinct.1 q.distinct.0
                (λ a i. ground (arith, q.distinct)) (λ a i ne. ground arith) (ground arith)
                (ground arith) q.chain,
          );
          distinct = (ground (arith, q.distinct), (ground arith, q.distinct.1));
          not_null = ground (arith, q.not_null);
        },
        λ a o. ground (arith, m),
      )
