-- ===== src/Sched/Fair.antt =====
-- No ready task waits for ever: the order and the time in which the clock of
-- practica/zeos/sched.c gets round to each.
use soa_ze_os.Prelude.{
  ℕ, zero, suc, ◌+◌, ◌≡◌, sym, ap, ◌∙◌, subst, false, some, List, [], ◌∷◌, ◌++◌, arith,
  if◌then◌else◌,
}
use mathlib.Core.List.{append_assoc}
use mathlib.Core.Option.{some-injective}
use soa_ze_os.Prelude.Int.{ℤ, pos, ◌-ℤ◌, eqb_ℤ}
use soa_ze_os.Layout.{Layout}
use soa_ze_os.Kernel.{Kernel, page_of, current}
use soa_ze_os.Sched.{schedule}
use soa_ze_os.Sched.Spec.{Robin, rotate, tick, ticks}
use soa_ze_os.Sched.Inv.{IsSched}
use soa_ze_os.Sched.Tick.{schedule_lem}

-- A run of the clock: each tick calls `schedule` on the kernel stack of the task that runs then.
pub data Ticks (l : Layout) : ℕ → Kernel → Kernel → Type 0 where
  stopped : {k : Kernel} → Ticks l zero k k
  clock :
      {n : ℕ} {k k' k'' : Kernel} (ebp : ℕ)
      → page_of ebp ≡ current k
      → schedule l ebp k ≡ some (tt, k')
      → Ticks l n k' k''
      → Ticks l (suc n) k k''

-- The ticks that the tasks `ts` run, where `t` has a quantum of `spare t + 1`.
abbrev pub waits : (spare : ℕ → ℕ) → List ℕ → ℕ
waits spare [] = 0
waits spare (t ∷ ts) = suc (spare t) + waits spare ts

ticks_add :
    (m n : ℕ) (quantum_of : ℕ → ℤ) (s : Robin)
    → ticks (m + n) quantum_of s ≡ ticks n quantum_of (ticks m quantum_of s)
ticks_add zero n quantum_of s = let e : 0 + n ≡ n = omega arith in ap (λ z. ticks z quantum_of s) e
ticks_add (suc m) n quantum_of s =
    let e : suc m + n ≡ suc (m + n) = omega arith in
    ap (λ z. ticks z quantum_of s) e ∙ ticks_add m n quantum_of (tick quantum_of s)

count_down : (q : ℕ) → pos (suc q) -ℤ pos 1 ≡ pos q
unfolding ◌-ℤ◌
count_down q = ground arith

tick_left :
    (q : ℕ) (quantum_of : ℕ → ℤ) (r : ℕ) (ts : List ℕ)
    → tick quantum_of (record { running = r; ready = ts; quantum = pos (suc (suc q)) })
      ≡ record { running = r; ready = ts; quantum = pos (suc q) }
tick_left q quantum_of r ts =
    let on : ℤ → Robin = λ z. record { running = r; ready = ts; quantum = z } in
    let more : eqb_ℤ (pos (suc q)) (pos 0) ≡ false = ground arith in
    ap (λ z. if eqb_ℤ z (pos 0) then rotate quantum_of (on z) else on z) (count_down (suc q))
    ∙ ap (λ b. if b then rotate quantum_of (on (pos (suc q))) else on (pos (suc q))) more

tick_last :
    (quantum_of : ℕ → ℤ) (r : ℕ) (ts : List ℕ)
    → tick quantum_of (record { running = r; ready = ts; quantum = pos 1 })
      ≡ rotate quantum_of (record { running = r; ready = ts; quantum = pos 0 })
tick_last quantum_of r ts =
    let on : ℤ → Robin = λ z. record { running = r; ready = ts; quantum = z } in
    ap (λ z. if eqb_ℤ z (pos 0) then rotate quantum_of (on z) else on z) (count_down 0)

-- A whole quantum ends in a rotation.
quantum_lem :
    (q : ℕ) (quantum_of : ℕ → ℤ) (r : ℕ) (ts : List ℕ)
    → ticks (suc q) quantum_of (record { running = r; ready = ts; quantum = pos (suc q) })
      ≡ rotate quantum_of (record { running = r; ready = ts; quantum = pos 0 })
quantum_lem zero quantum_of r ts = tick_last quantum_of r ts
quantum_lem (suc q) quantum_of r ts =
    ap (ticks (suc q) quantum_of) (tick_left q quantum_of r ts) ∙ quantum_lem q quantum_of r ts

-- The task behind `ys` runs once the running task and all of `ys` have had their quanta.
turn_comes :
    (spare : ℕ → ℕ) (quantum_of : ℕ → ℤ) (q r t : ℕ) (ys zs : List ℕ)
    → ((x : ℕ) → quantum_of x ≡ pos (suc (spare x)))
    → (ticks
        (suc q + waits spare ys)
        quantum_of
        (record { running = r; ready = ys ++ t ∷ zs; quantum = pos (suc q) })).running
      ≡ t
turn_comes spare quantum_of q r t [] zs h =
    ap (λ s'. s'.running)
      (ticks_add (suc q) 0 quantum_of
          (record { running = r; ready = t ∷ zs; quantum = pos (suc q) })
        ∙ quantum_lem q quantum_of r (t ∷ zs))
turn_comes spare quantum_of q r t (y ∷ ys) zs h =
    let s : Robin = record { running = r; ready = y ∷ ys ++ t ∷ zs; quantum = pos (suc q) } in
    let n = suc (spare y) + waits spare ys in
    let on : ℤ → List ℕ → Robin = λ z ts. record { running = y; ready = ts; quantum = z } in
    ap (λ s'. s'.running)
      (ticks_add (suc q) n quantum_of s
        ∙ ap (ticks n quantum_of) (quantum_lem q quantum_of r (y ∷ ys ++ t ∷ zs))
        ∙ ap (λ z. ticks n quantum_of (on z ((ys ++ t ∷ zs) ++ r ∷ []))) (h y)
        ∙ ap (λ ts. ticks n quantum_of (on (pos (suc (spare y))) ts))
            (append_assoc ys (t ∷ zs) (r ∷ [])))
    ∙ turn_comes spare quantum_of (spare y) y t ys (zs ++ r ∷ []) h

module _ {l : Layout} {quantum_of : ℕ → ℤ} {free : List ℕ} where
  -- A run of the kernel's clock is a run of the round robin's.
  pub Ticks-IsSched :
      {n : ℕ} {s : Robin} {k k' : Kernel}
      → IsSched l quantum_of free s k
      → Ticks l n k k'
      → IsSched l quantum_of free (ticks n quantum_of s) k'
  Ticks-IsSched inv stopped = inv
  Ticks-IsSched {s = s} inv (clock {n = n} {k' = k1} {k'' = k2} ebp own run rest) =
      let (k', run', inv') = schedule_lem ebp inv (own ∙ inv.on_stack) in
      let e : k' ≡ k1 = ap (λ p. p.1) (some-injective (tt, k') (tt, k1) (sym run' ∙ run)) in
      Ticks-IsSched (subst (IsSched l quantum_of free (tick quantum_of s)) e inv') rest

  -- The clock can always tick on.
  pub Ticks-exist :
      (n : ℕ) {s : Robin} {k : Kernel}
      → IsSched l quantum_of free s k
      → (k' : Kernel) × Ticks l n k k'
  Ticks-exist zero {k = k} inv = (k, stopped)
  Ticks-exist (suc n) {s = s} inv =
      let own : page_of s.running ≡ s.running = omega (arith, inv.aligned) in
      let (k1, run, inv1) = schedule_lem s.running inv own in
      let (k2, rest) = Ticks-exist n inv1 in (k2, clock s.running (own ∙ sym inv.on_stack) run rest)

  -- Each ready task runs once those before it have had their quanta.
  pub waits_lem :
      (spare : ℕ → ℕ) (q : ℕ) (ys zs : List ℕ) (t r : ℕ) {k : Kernel}
      → ((x : ℕ) → quantum_of x ≡ pos (suc (spare x)))
      → IsSched l quantum_of free
          (record { running = r; ready = ys ++ t ∷ zs; quantum = pos (suc q) })
          k
      → ((k' : Kernel) × Ticks l (suc q + waits spare ys) k k')
        × ((k' : Kernel) → Ticks l (suc q + waits spare ys) k k' → current k' ≡ t)
  waits_lem spare q ys zs t r h inv = (
    Ticks-exist (suc q + waits spare ys) inv,
    λ k' run. (Ticks-IsSched inv run).on_stack ∙ turn_comes spare quantum_of q r t ys zs h,
  )
