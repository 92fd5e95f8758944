-- ===== src/Links/Queue.antt =====
-- A list head with the nodes that hang on it, in order, and what leaves it alone.
use soa_ze_os.Prelude.{◌≡◌, true, false, List, ◌∷◌}
use soa_ze_os.Links.{Addr, null, Links}
use soa_ze_os.Links.Chain.{has, Distinct, Chain, Chain-frame}

-- `head` is a circular list that holds exactly the nodes `xs`: distinct, non-null and not `head`.
pub record IsQueue (h : Links) (head : Addr) (xs : List Addr) : Type 0 where
  pub chain : Chain h head xs head
  pub distinct : Distinct (head ∷ xs)
  pub not_null : has null (head ∷ xs) ≡ false

-- `g` differs from `h` at most in the nodes `xs`.
abbrev pub SameOutside : List Addr → Links → Links → Type 0
SameOutside xs h g = (a : Addr) → has a xs ≡ false → (g.next a ≡ h.next a) × (g.prev a ≡ h.prev a)

abbrev pub Disjoint : List Addr → List Addr → Type 0
Disjoint xs ys = (a : Addr) → has a xs ≡ true → has a ys ≡ false

-- A queue survives any change outside it.
pub IsQueue-frame :
    (h g : Links) (head : Addr) (xs ts : List Addr)
    → SameOutside ts h g
    → Disjoint (head ∷ xs) ts
    → IsQueue h head xs
    → IsQueue g head xs
IsQueue-frame h g head xs ts same apart q = record {
  chain =
      Chain-frame h g head head xs (λ a m. (same a (apart a m)).0) (λ a m. (same a (apart a m)).1)
        q.chain;
  distinct = q.distinct;
  not_null = q.not_null;
}
