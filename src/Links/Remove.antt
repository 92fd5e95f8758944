-- ===== src/Links/Remove.antt =====
-- `list_del` of list.c on a queue: the entry is unlinked, the other nodes keep their order.
use soa_ze_os.Prelude.{◌≡◌, ◌≢◌, true, false, some, List, [], ◌∷◌, ◌++◌, arith}
use soa_ze_os.Links.{Addr, null, Links, update, list_del}
use soa_ze_os.Links.Chain.{
  has, Distinct, Chain, last, first, has-append, has-last, has-first, ne_null, has-null, Chain-prev,
  Chain-next, Chain-frame,
}
use soa_ze_os.Links.Queue.{IsQueue, SameOutside}

-- The links after `list_del x`, with `p` and `n` on its two sides.
abbrev unlinked : (x p n : Addr) → Links → Links
unlinked x p n h = record {
  next = update (update h.next p n) x null;
  prev = update (update h.prev n p) x null;
}

Chain-split :
    (h : Links) (p x q : Addr) (ys zs : List Addr)
    → Chain h p (ys ++ x ∷ zs) q
    → Chain h p ys x × Chain h x zs q
Chain-split h p x q [] zs c = ((c.0, c.1), c.2)
Chain-split h p x q (a ∷ ys) zs c = let r = Chain-split h a x q ys zs c.2 in ((c.0, c.1, r.0), r.1)

-- The node `x` taken out of a chain.
Chain-unlink :
    (h g : Links) (p x q : Addr) (ys zs : List Addr)
    → Distinct (p ∷ (ys ++ zs))
    → has q (ys ++ zs) ≡ false
    → ((a : Addr) → has a (p ∷ (ys ++ zs)) ≡ true → a ≢ last p ys → g.next a ≡ h.next a)
    → ((a : Addr) → has a (q ∷ (ys ++ zs)) ≡ true → a ≢ first zs q → g.prev a ≡ h.prev a)
    → g.next (last p ys) ≡ first zs q
    → g.prev (first zs q) ≡ last p ys
    → Chain h p (ys ++ x ∷ zs) q
    → Chain g p (ys ++ zs) q
Chain-unlink h g p x q [] [] d out sn sp nf fn c = (nf, fn)
Chain-unlink h g p x q [] (b ∷ zs) d out sn sp nf fn c = (
  nf,
  fn,
  Chain-frame h g b q zs (λ a m. sn a (ground arith) (ground (arith, d.0)))
      (λ a m. sp a (ground arith) (ground (arith, d.1.0))) c.2.2,
)
Chain-unlink h g p x q (a ∷ ys) zs d out sn sp nf fn c = (
  ground (arith, sn p, has-last a ys, has-append p (a ∷ ys) zs, d.0),
  ground (arith, sp a, has-first zs q, has-append a ys zs, d.1.0),
  Chain-unlink h g a x q ys zs d.1 (ground arith) (λ b m ne. sn b (ground arith) ne)
      (λ b m ne. sp b (ground arith) ne) nf fn c.2,
)

Distinct-drop :
    (x : Addr) (ys zs : List Addr)
    → Distinct (ys ++ x ∷ zs)
    → Distinct (ys ++ zs) × (has x (ys ++ zs) ≡ false)
Distinct-drop x [] zs d = (d.1, d.0)
Distinct-drop x (y ∷ ys) zs d =
    let r = Distinct-drop x ys zs d.1 in
    let e = has-append y ys (x ∷ zs) in
    let e' = has-append y ys zs in ((ground (arith, d.0), r.0), ground (arith, d.0, r.1))

module _ {h : Links} {head x : Addr} (ys zs : List Addr) (q : IsQueue h head (ys ++ x ∷ zs)) where
  -- `list_del` takes the entry out of the queue and leaves it with null pointers.
  pub list_del_lem :
      (g : Links) × (list_del x h ≡ some (tt, g))
      × IsQueue g head (ys ++ zs)
      × SameOutside (head ∷ (ys ++ x ∷ zs)) h g
      × (g.next x ≡ null)
      × (g.prev x ≡ null)
  unfolding list_del update
  list_del_lem =
      let p = last head ys in
      let n = first zs head in
      let c = Chain-split h head x head ys zs q.chain in
      let ep : h.prev x ≡ p = Chain-prev h head x ys c.0 in
      let en : h.next x ≡ n = Chain-next h x head zs c.1 in
      let d = Distinct-drop x (head ∷ ys) zs q.distinct in
      let mp = has-last head ys in
      let mn = has-first zs head in
      let o0 = has-append null ys (x ∷ zs) in
      let xn : x ≢ null = ground (arith, q.not_null) in
      let pn : p ≢ null = has-null p (head ∷ ys) (ground (arith, q.not_null)) mp in
      let nn : n ≢ null = has-null n (head ∷ zs) (ground (arith, q.not_null)) mn in
      let hx = has-append x ys zs in
      let px : p ≢ x = ground (arith, d.1, hx, mp) in
      let nx : n ≢ x = ground (arith, d.1, hx, mn) in
      let g : Links = unlinked x p n h in
      (
        g,
        rw (
          ne_null x xn,
          ep,
          ne_null x xn,
          en,
          ne_null n nn,
          ne_null p pn,
          ne_null x xn,
          ne_null x xn,
        ),
        record {
          chain =
              Chain-unlink h g head x head ys zs d.0 (d.0.0) (λ a m ne. ground (arith, d.1))
                (λ a m ne. ground (arith, d.1)) (ground arith) (ground arith) q.chain;
          distinct = d.0;
          not_null = ground (arith, q.not_null, o0, has-append null ys zs);
        },
        λ a o. ground (arith, mp, mn, has-append a ys (x ∷ zs)),
        ground arith,
        ground arith,
      )
