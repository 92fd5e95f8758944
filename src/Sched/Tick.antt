-- ===== src/Sched/Tick.antt =====
-- The clock's part of the scheduler of practica/zeos/sched.c: `schedule` at every tick.
use soa_ze_os.Prelude.{
  ℕ, ◌≡◌, refl, ap, ◌∙◌, subst, true, some, List, [], ◌∷◌, arith, if◌then◌else◌, Bool-cases, inl,
  inr,
}
use soa_ze_os.Prelude.Int.{ℤ, pos, ◌-ℤ◌, eqb_ℤ}
use soa_ze_os.Links.Walk.{is_nil, list_empty_lem}
use soa_ze_os.Layout.{Layout}
use soa_ze_os.Kernel.{Kernel, ◌>>=◌, pure, page_of, current}
use soa_ze_os.Sched.{force_task_switch, get_quantum, needs_sched_rr, update_sched_data_rr, schedule}
use soa_ze_os.Sched.Spec.{Robin, turn, rotate, tick}
use soa_ze_os.Sched.Inv.{nodes, IsSched}
use soa_ze_os.Sched.Refine.{force_task_switch_lem}

-- The round robin does not depend on what else stands in `remaining_quantum`.
retimed :
    (l : Layout) (quantum_of : ℕ → ℤ) (free : List ℕ) (s : Robin) (k : Kernel) (q r : ℤ)
    → r ≡ q
    → IsSched l quantum_of free s k
    → IsSched l quantum_of free (record s { quantum = q }) (record k { remaining_quantum = r })
retimed l quantum_of free s k q r e inv = record {
  ready_queue = inv.ready_queue;
  free_queue = inv.free_queue;
  apart = inv.apart;
  not_ready = inv.not_ready;
  not_free = inv.not_free;
  on_stack = inv.on_stack;
  aligned = inv.aligned;
  state_run = inv.state_run;
  quanta = inv.quanta;
  quantum = e;
  resumable = λ t m. record {
    aligned = (inv.resumable t m).aligned;
    own_stack = (inv.resumable t m).own_stack;
    state_ready = (inv.resumable t m).state_ready;
  };
}

is_nil-nodes : (ts : List ℕ) → is_nil (nodes ts) ≡ is_nil ts
is_nil-nodes [] = refl
is_nil-nodes (t ∷ ts) = refl

turn-alone : (r : ℕ) (ts : List ℕ) → is_nil ts ≡ true → (r, ts) ≡ turn r ts
turn-alone r [] h = refl
turn-alone r (t ∷ ts) h = absurd (ground arith)

-- What is left of `schedule` once the quantum has been counted down.
finish_tick :
    (l : Layout) (quantum_of : ℕ → ℤ) (free : List ℕ) (s : Robin) (k : Kernel) (ebp : ℕ)
    → IsSched l quantum_of free s k
    → page_of ebp ≡ s.running
    → (k' : Kernel) × ((do
      needed ← needs_sched_rr l
      if needed then force_task_switch l ebp else pure tt)
          k
        ≡ some (tt, k'))
      × IsSched l quantum_of free (if eqb_ℤ s.quantum (pos 0) then rotate quantum_of s else s) k'
unfolding needs_sched_rr
finish_tick l quantum_of free s k ebp inv own =
    let empty =
      list_empty_lem k.links l.readyqueue (nodes s.ready) inv.ready_queue
      ∙ ap (λ b. some (b, k.links)) (is_nil-nodes s.ready) in
    let same : eqb_ℤ k.remaining_quantum (pos 0) ≡ eqb_ℤ s.quantum (pos 0) =
      ap (λ q. eqb_ℤ q (pos 0)) inv.quantum in
    elim (Bool-cases (eqb_ℤ s.quantum (pos 0))) [
      | inr z ↦ (k, rw (empty, same ∙ z) refl, rw (z) inv)
      | inl z ↦ elim (Bool-cases (is_nil s.ready)) [
        | inr n ↦
            let (k', run, inv', _, _) = force_task_switch_lem ebp inv own in
            (k', rw (empty, same ∙ z, n) run, rw (z) inv')
        | inl n ↦
            let own_quantum : get_quantum (current k) k ≡ quantum_of s.running =
              ap (λ t. get_quantum t k) inv.on_stack ∙ inv.quanta s.running in
            (
              record k { remaining_quantum = get_quantum (current k) k },
              rw (empty, same ∙ z, n) refl,
              rw (z) (
                  subst
                    (λ t.
                      IsSched l quantum_of free
                        (record { running = t.0; ready = t.1; quantum = quantum_of t.0 })
                        (record k { remaining_quantum = get_quantum (current k) k }))
                    (turn-alone s.running s.ready n)
                    (retimed l quantum_of free s k (quantum_of s.running)
                      (get_quantum (current k) k) own_quantum inv)),
            )
      ]
    ]

-- `schedule` returns, and makes of the kernel what a tick makes of the round robin.
pub schedule_lem :
    {l : Layout} {quantum_of : ℕ → ℤ} {free : List ℕ} {s : Robin} {k : Kernel} (ebp : ℕ)
    → IsSched l quantum_of free s k
    → page_of ebp ≡ s.running
    → (k' : Kernel) × (schedule l ebp k ≡ some (tt, k'))
      × IsSched l quantum_of free (tick quantum_of s) k'
unfolding schedule update_sched_data_rr force_task_switch
schedule_lem {l = l} {quantum_of = quantum_of} {free = free} {s = s} {k = k} ebp inv own =
    let left = k.remaining_quantum -ℤ pos 1 in
    finish_tick l quantum_of free (record s { quantum = s.quantum -ℤ pos 1 })
      (record k { remaining_quantum = left }) ebp
      (retimed l quantum_of free s k (s.quantum -ℤ pos 1) left (ap (λ q. q -ℤ pos 1) inv.quantum)
        inv)
      own
