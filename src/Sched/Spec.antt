-- ===== src/Sched/Spec.antt =====
-- Round robin as practica/zeos/sched.c promises it: the task that runs, the ready tasks in the order
-- in which they will run, and what is left of the quantum.
use soa_ze_os.Prelude.{ℕ, zero, suc, List, [], ◌∷◌, ◌++◌, if◌then◌else◌}
use soa_ze_os.Prelude.Int.{ℤ, pos, ◌-ℤ◌, eqb_ℤ}

pub record Robin : Type 0 where
  pub running : ℕ
  pub ready : List ℕ
  pub quantum : ℤ

-- The first of the tasks that are ready or run, and the others in their order.
abbrev pub turn : (running : ℕ) (ready : List ℕ) → ℕ × List ℕ
turn r [] = (r, [])
turn r (t ∷ ts) = (t, ts ++ (r ∷ []))

-- The task that runs goes behind the ready tasks, and the first of them all runs for its quantum.
abbrev pub rotate : (quantum_of : ℕ → ℤ) → Robin → Robin
rotate quantum_of s =
    let (t, ts) = turn s.running s.ready in
    record { running = t; ready = ts; quantum = quantum_of t }

-- A tick of the clock takes one from the quantum; the tasks rotate when it is used up.
abbrev pub tick : (quantum_of : ℕ → ℤ) → Robin → Robin
tick quantum_of s =
    let left : Robin = record s { quantum = s.quantum -ℤ pos 1 } in
    if eqb_ℤ left.quantum (pos 0) then rotate quantum_of left else left

abbrev pub ticks : ℕ → (quantum_of : ℕ → ℤ) → Robin → Robin
ticks zero quantum_of s = s
ticks (suc n) quantum_of s = ticks n quantum_of (tick quantum_of s)
