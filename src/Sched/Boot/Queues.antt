-- ===== src/Sched/Boot/Queues.antt =====
-- The queues that `init_sched` makes.
use soa_ze_os.Prelude.{
  ℕ, zero, suc, ◌+◌, ◌*◌, ◌≤◌, ◌<◌, ◌≡◌, refl, sym, ap, subst, ◌∙◌, ◌⊎◌, inl, inr, Bool-cases,
  false, some, List, [], ◌∷◌, ◌++◌, arith, ◌==◌,
}
use soa_ze_os.Prelude.Int.{negsuc}
use soa_ze_os.Links.Chain.{has}
use soa_ze_os.Links.Queue.{IsQueue, IsQueue-frame, Disjoint}
use soa_ze_os.Links.Insert.{list_add_tail_lem}
use soa_ze_os.Links.Walk.{init_list_head_lem}
use soa_ze_os.Layout.{Layout, IsLaidOut, task_addr, list_node, nr_tasks}
use soa_ze_os.Kernel.{Kernel, put_task}
use soa_ze_os.Sched.Inv.{nodes}
use soa_ze_os.Sched.Turn.{nodes-append, has-nodes}
use soa_ze_os.Sched.Boot.{add_tasks, init_freequeue, init_sched}

-- The `n` tasks from number `i` on.
abbrev pub tasks_from : Layout → (i n : ℕ) → List ℕ
tasks_from l i zero = []
tasks_from l i (suc n) = task_addr l i ∷ tasks_from l (i + 1) n

tasks_from-snoc :
    (l : Layout) (i n : ℕ) → tasks_from l i n ++ (task_addr l (i + n) ∷ []) ≡ tasks_from l i (suc n)
tasks_from-snoc l i zero = let e : i + 0 ≡ i = omega arith in ap (λ j. task_addr l j ∷ []) e
tasks_from-snoc l i (suc n) =
    let e : i + suc n ≡ i + 1 + n = omega arith in
    ap (λ j. task_addr l i ∷ tasks_from l (i + 1) n ++ (task_addr l j ∷ [])) e
    ∙ ap (λ ts. task_addr l i ∷ ts) (tasks_from-snoc l (i + 1) n)

has-tasks_from :
    (l : Layout) (j i n : ℕ) → i + n ≤ j → has (task_addr l j) (tasks_from l i n) ≡ false
has-tasks_from l j i zero h = refl
has-tasks_from l j i (suc n) h = ground (arith, has-tasks_from l j (i + 1) n)

-- A list head is no node of a task.
head_apart :
    (l : Layout) (head i n : ℕ)
    → i + n ≤ nr_tasks
    → (head < l.protected_tasks) ⊎ (l.protected_tasks + 0x1000 * 12 ≤ head)
    → has head (nodes (tasks_from l i n)) ≡ false
head_apart l head i zero h apart = refl
head_apart l head i (suc n) h apart = ground (arith, head_apart l head (i + 1) n)

-- The free queue holds the tasks before number `i`.
record IsFilled (l : Layout) (i page : ℕ) (k : Kernel) : Type 0 where
  queue : IsQueue k.links l.freequeue (nodes (tasks_from l 0 i))
  stack : k.stack_page ≡ page

module _ (l : Layout) (laid : IsLaidOut l) where
  -- The node of the next task is in no queue yet.
  fresh :
      (i : ℕ)
      → i < nr_tasks
      → has (list_node (task_addr l i)) (l.freequeue ∷ nodes (tasks_from l 0 i)) ≡ false
  fresh i lt =
      let old =
        has-nodes (task_addr l i) (tasks_from l 0 i) ∙ has-tasks_from l i 0 i (omega arith) in
      ground (arith, old, laid.free_apart)

  pub heads_apart :
      (i n : ℕ)
      → i + n ≤ nr_tasks
      → Disjoint (l.freequeue ∷ nodes (tasks_from l i n)) (l.readyqueue ∷ [])
  heads_apart i n le = λ a m. elim (Bool-cases (a == l.readyqueue)) [
    | inr other ↦ ground arith
    | inl same ↦
        let e : a ≡ l.readyqueue = ground arith in
        let out = head_apart l l.readyqueue i n le laid.ready_apart in
        let in_nodes = ap (λ b. has b (nodes (tasks_from l i n))) e in
        absurd (ground (arith, laid.heads_apart, out, in_nodes))
  ]

  add_tasks_lem :
      (n i page : ℕ) (k : Kernel)
      → i + n ≤ nr_tasks
      → IsFilled l i page k
      → (k' : Kernel) × (add_tasks l n i k ≡ some (tt, k')) × IsFilled l (i + n) page k'
  unfolding add_tasks put_task
  add_tasks_lem zero i page k le f =
      let e : i ≡ i + 0 = omega arith in (k, refl, subst (λ j. IsFilled l j page k) e f)
  add_tasks_lem (suc n) i page k le f =
      let t = task_addr l i in
      let (g, add, q, _) =
        list_add_tail_lem (list_node t) f.queue (omega arith) (fresh i (omega arith)) in
      let here : i ≡ 0 + i = omega arith in
      let more : nodes (tasks_from l 0 i) ++ (list_node t ∷ []) ≡ nodes (tasks_from l 0 (suc i)) =
        sym (nodes-append (tasks_from l 0 i) (t ∷ []))
        ∙ ap nodes
            (ap (λ j. tasks_from l 0 i ++ (task_addr l j ∷ [])) here ∙ tasks_from-snoc l 0 i) in
      let k₁ : Kernel = record (put_task t (record (k.task t) { pid = negsuc 0 }) k) {
        links = g;
      } in
      let e : suc i ≡ i + 1 = omega arith in
      let e' : i + 1 + n ≡ i + suc n = omega arith in
      let (k', run, f') = add_tasks_lem n (i + 1) page k₁ (omega arith) (
        subst (λ j. IsFilled l j page k₁) e
          record { queue = subst (IsQueue g l.freequeue) more q; stack = f.stack }) in
      (k', rw (add) run, subst (λ j. IsFilled l j page k') e' f')

  -- Both queues as `init_sched` leaves them, with the `n` tasks from number `i` on free.
  pub record IsBooted (i n : ℕ) (k : Kernel) : Type 0 where
    pub free_queue : IsQueue k.links l.freequeue (nodes (tasks_from l i n))
    pub ready_queue : IsQueue k.links l.readyqueue []
    pub stack : k.stack_page ≡ task_addr l 1

  pub init_sched_lem :
      (k : Kernel)
      → k.stack_page ≡ task_addr l 1
      → (k' : Kernel) × (init_sched l k ≡ some (tt, k')) × IsBooted 0 10 k'
  unfolding init_sched init_freequeue
  init_sched_lem k page =
      let (g, start, q, _) =
        init_list_head_lem k.links l.freequeue (omega (arith, laid.free_set)) in
      let (k₁, fill, f) =
        add_tasks_lem nr_tasks 0 (task_addr l 1) (record k { links = g }) (omega arith)
          record { queue = q; stack = page } in
      let (g', ready, q', same) =
        init_list_head_lem k₁.links l.readyqueue (omega (arith, laid.ready_set)) in
      (
        record k₁ { links = g' },
        rw (start, fill, ready) refl,
        record {
          free_queue =
              IsQueue-frame k₁.links g' l.freequeue (nodes (tasks_from l 0 10)) (l.readyqueue ∷ [])
                same (heads_apart 0 10 (omega arith)) f.queue;
          ready_queue = q';
          stack = f.stack;
        },
      )
