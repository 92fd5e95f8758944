-- ===== src/Prelude/Loops.antt =====
-- Counted loops, `for (k = i; k < i + n; k++) s = body k s`, and their rule.
use Prim.Native.Nat.{ℕ, zero, suc, ◌+◌, ◌<◌}
use mathlib.Core.Path.{◌≡◌, subst}
use native.Mathlib.Omega.{arith}

-- `n` rounds, the first with the counter at `i`.
unfoldable pub rounds {ℓ} : {S : Type ℓ} → ℕ → ℕ → (ℕ → S → S) → S → S
rounds zero i body s = s
rounds (suc n) i body s = rounds n (i + 1) body (body i s)

-- What each round keeps, from counter to counter, holds of the end at the last counter.
pub rounds_inv {ℓ κ} :
    {S : Type ℓ} (P : ℕ → S → Type κ) (body : ℕ → S → S) (stop : ℕ)
    → ((k : ℕ) (s : S) → k < stop → P k s → P (k + 1) (body k s))
    → (n i : ℕ) (s : S) → i + n ≡ stop
    → P i s
    → P stop (rounds n i body s)
unfolding rounds
rounds_inv P body stop keep zero i s e p =
    let at_end : i ≡ stop = omega arith in subst (λ k. P k s) at_end p
rounds_inv P body stop keep (suc n) i s e p =
    rounds_inv P body stop keep n (i + 1) (body i s) (omega arith) (keep i s (omega arith) p)
