-- ===== src/Links/Chain.antt =====
-- Chains of list heads: what the two pointer maps say of a run of nodes between two ends.
use soa_ze_os.Prelude.{◌≡◌, refl, ◌≢◌, Bool, true, false, ◌||◌, List, [], ◌∷◌, ◌++◌, arith, ◌==◌}
use soa_ze_os.Links.{Addr, null, Links}

abbrev pub has : Addr → List Addr → Bool
has a [] = false
has a (x ∷ xs) = (a == x) || has a xs

-- No address stands twice in the list.
abbrev pub Distinct : List Addr → Type 0
Distinct [] = Unit {0}
Distinct (x ∷ xs) = (has x xs ≡ false) × Distinct xs

-- From `p` the `next` pointers lead through `xs` to `q`, and the `prev` pointers lead back.
abbrev pub Chain : Links → Addr → List Addr → Addr → Type 0
Chain h p [] q = (h.next p ≡ q) × (h.prev q ≡ p)
Chain h p (x ∷ xs) q = (h.next p ≡ x) × (h.prev x ≡ p) × Chain h x xs q

abbrev pub last : Addr → List Addr → Addr
last p [] = p
last p (x ∷ xs) = last x xs

abbrev pub first : List Addr → Addr → Addr
first [] q = q
first (x ∷ xs) q = x

pub has-append : (a : Addr) (xs ys : List Addr) → has a (xs ++ ys) ≡ (has a xs || has a ys)
has-append a [] ys = refl
has-append a (x ∷ xs) ys = ground (arith, has-append a xs ys)

pub has-last : (p : Addr) (xs : List Addr) → has (last p xs) (p ∷ xs) ≡ true
has-last p [] = ground arith
has-last p (x ∷ xs) = ground (arith, has-last x xs)

pub has-first : (xs : List Addr) (q : Addr) → has (first xs q) (q ∷ xs) ≡ true
has-first [] q = ground arith
has-first (x ∷ xs) q = ground arith

pub ne_null : (p : Addr) → p ≢ null → (p == null) ≡ false
ne_null p h = ground arith

pub has-null : (a : Addr) (xs : List Addr) → has null xs ≡ false → has a xs ≡ true → a ≢ null
has-null a [] o m = cc
has-null a (x ∷ xs) o m = ground (arith, has-null a xs)

pub Chain-prev : (h : Links) (p q : Addr) (xs : List Addr) → Chain h p xs q → h.prev q ≡ last p xs
Chain-prev h p q [] c = c.1
Chain-prev h p q (x ∷ xs) c = Chain-prev h x q xs c.2

pub Chain-next : (h : Links) (p q : Addr) (xs : List Addr) → Chain h p xs q → h.next p ≡ first xs q
Chain-next h p q [] c = c.0
Chain-next h p q (x ∷ xs) c = c.0

-- A chain depends on the `next` pointers of its start and nodes, and the `prev` ones of its nodes
-- and end.
pub Chain-frame :
    (h g : Links) (p q : Addr) (xs : List Addr)
    → ((a : Addr) → has a (p ∷ xs) ≡ true → g.next a ≡ h.next a)
    → ((a : Addr) → has a (q ∷ xs) ≡ true → g.prev a ≡ h.prev a)
    → Chain h p xs q
    → Chain g p xs q
Chain-frame h g p q [] sn sp c = ground (arith, sn p, sp q)
Chain-frame h g p q (x ∷ xs) sn sp c = (
  ground (arith, sn p),
  ground (arith, sp x),
  Chain-frame h g x q xs (λ a m. sn a (ground arith)) (λ a m. sp a (ground arith)) c.2,
)
