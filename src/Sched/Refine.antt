-- ===== src/Sched/Refine.antt =====
-- The scheduler of practica/zeos/sched.c runs the tasks in turn.
use soa_ze_os.Prelude.{
  ℕ, ◌+◌, ◌*◌, ◌%◌, ◌≡◌, sym, ap, ◌∙◌, true, false, some, List, [], ◌∷◌, ◌++◌, ◌||◌, arith, ◌==◌,
  if◌then◌else◌, subst, Bool-cases, inl, inr,
}
use soa_ze_os.Prelude.Int.{ℤ}
use soa_ze_os.Links.{Links}
use soa_ze_os.Links.Chain.{has, has-append, ne_null}
use soa_ze_os.Links.Queue.{IsQueue, IsQueue-frame, SameOutside, Disjoint}
use soa_ze_os.Links.Insert.{list_add_tail_lem}
use soa_ze_os.Layout.{Layout, list_node, page_size}
use soa_ze_os.Kernel.{Kernel, st_ready, ◌>>◌, put_task, page_of}
use soa_ze_os.Kernel.Tasks.{charged}
use soa_ze_os.Sched.{force_task_switch, update_process_state_rr, sched_next_rr, kernel_stack_size}
use soa_ze_os.Sched.Spec.{Robin, turn, rotate}
use soa_ze_os.Sched.Inv.{nodes, IsSched}
use soa_ze_os.Sched.Switch.{
  enqueued, enqueued-task, resumed, resumed-task, resumed_registers, counted,
  update_process_state_rr-enqueued, sched_next_rr-resumed,
}
use soa_ze_os.Sched.Turn.{nodes-append, has-nodes, turn_lem, pick_next-first}

-- The kernel between the two halves of a switch: all tasks are on the ready queue, which is not
-- empty, and each can be switched to once the position `ebp` of the running one is saved.
pub record IsBetween (l : Layout) (quantum_of : ℕ → ℤ) (free : List ℕ) (ebp t : ℕ) (ts : List ℕ)
    (k : Kernel) : Type 0 where
  pub ready_queue : IsQueue k.links l.readyqueue (nodes (t ∷ ts))
  pub free_queue : IsQueue k.links l.freequeue (nodes free)
  pub apart : Disjoint (l.freequeue ∷ nodes free) (l.readyqueue ∷ nodes (t ∷ ts))
  pub aligned : (x : ℕ) → has x (t ∷ ts) ≡ true → x % page_size ≡ 0
  pub own_stack :
      (x : ℕ)
      → has x (t ∷ ts) ≡ true
      → page_of (if x == k.stack_page then ebp else (k.task x).register_esp) ≡ x
  pub state_ready : (x : ℕ) → has x (t ∷ ts) ≡ true → (k.task x).state ≡ st_ready
  pub quanta : (x : ℕ) → (k.task x).total_quantum ≡ quantum_of x

pub Disjoint-flip : (xs ys : List ℕ) (a : ℕ) → Disjoint xs ys → has a ys ≡ true → has a xs ≡ false
Disjoint-flip xs ys a d m = ground (arith, d a)

-- The second half: the first task of the queue is taken up.
pub take_up :
    (l : Layout) (quantum_of : ℕ → ℤ) (free : List ℕ) (ebp t : ℕ) (ts : List ℕ) (k : Kernel)
    (g : Links)
    → IsBetween l quantum_of free ebp t ts k
    → IsQueue g l.readyqueue (nodes ts)
    → SameOutside (l.readyqueue ∷ nodes (t ∷ ts)) k.links g
    → IsSched l quantum_of free
        (record { running = t; ready = ts; quantum = quantum_of t })
        (resumed ebp t (record k { links = g }))
unfolding resumed charged put_task counted
take_up l quantum_of free ebp t ts k g b q same =
    let k' : Kernel = record k { links = g } in
    let fields = resumed-task ebp t k' in
    let d = b.ready_queue.distinct in
    record {
      ready_queue = q;
      free_queue =
          IsQueue-frame k.links g l.freequeue (nodes free) (l.readyqueue ∷ nodes (t ∷ ts)) same
            b.apart b.free_queue;
      apart = λ a m. ground (arith, b.apart a m);
      not_ready = ground (arith, d.0, d.1.0);
      not_free =
          Disjoint-flip (l.freequeue ∷ nodes free) (l.readyqueue ∷ nodes (t ∷ ts)) (list_node t)
            b.apart (ground arith);
      on_stack =
          (resumed_registers ebp t k').2 ∙ ap page_of (fields t).1 ∙ b.own_stack t (ground arith);
      aligned = b.aligned t (ground arith);
      state_run = (fields t).0 ∙ ground arith;
      quanta = λ x. (fields x).2 ∙ b.quanta x;
      quantum = (resumed_registers ebp t k').0 ∙ b.quanta t;
      resumable = λ x m.
          let ne : (x == t) ≡ false = ground (arith, has-nodes t ts, d.1.0) in
          record {
            aligned = b.aligned x (ground arith);
            own_stack = ap page_of (fields x).1 ∙ b.own_stack x (ground arith);
            state_ready = (fields x).0 ∙ rw (ne) (b.state_ready x (ground arith));
          };
    }

pub differ :
    (x r head : ℕ) (xs : List ℕ)
    → has x xs ≡ true
    → has (list_node r) (head ∷ nodes xs) ≡ false
    → (x == r) ≡ false
differ x r head xs h o = elim (Bool-cases (x == r)) [
  | inl e ↦ let e' : x ≡ r = ground arith in ground (arith, has-nodes r xs, ap (λ y. has y xs) e')
  | inr e ↦ e
]

-- The first half: the running task is put behind the ready ones.
put_behind :
    (l : Layout) (quantum_of : ℕ → ℤ) (free : List ℕ) (s : Robin) (ebp : ℕ) (k : Kernel)
    → IsSched l quantum_of free s k
    → page_of ebp ≡ s.running
    → (g : Links) × (update_process_state_rr l s.running l.readyqueue k
        ≡ some (tt, enqueued s.running g k))
      × IsBetween l quantum_of free ebp
          (turn s.running s.ready).0
          (turn s.running s.ready).1
          (enqueued s.running g k)
unfolding enqueued charged put_task
put_behind l quantum_of free s ebp k inv own =
    let r = s.running in
    let n = list_node r in
    let (g, add, q, same) = list_add_tail_lem n inv.ready_queue (omega arith) inv.not_ready in
    let all : nodes s.ready ++ (n ∷ []) ≡ nodes ((turn r s.ready).0 ∷ (turn r s.ready).1) =
      sym (nodes-append s.ready (r ∷ [])) ∙ ap nodes (sym (turn_lem r s.ready)) in
    let mem : (x : ℕ)
        → has x ((turn r s.ready).0 ∷ (turn r s.ready).1) ≡ (has x s.ready || (x == r)) =
      λ x. ap (has x) (turn_lem r s.ready) ∙ has-append x s.ready (r ∷ []) ∙ ground arith in
    let out : Disjoint (l.freequeue ∷ nodes free) (n ∷ l.readyqueue ∷ nodes s.ready) =
      λ a m. ground (arith, inv.apart a m, inv.not_free) in
    let fields = enqueued-task r g k in
    let k1 = enqueued r g k in
    (
      g,
      update_process_state_rr-enqueued l r k g inv.state_run
          (ne_null l.readyqueue (ground (arith, inv.ready_queue.not_null))) (ground arith) add,
      record {
        ready_queue = subst (λ xs. IsQueue g l.readyqueue xs) all q;
        free_queue =
            IsQueue-frame k.links g l.freequeue (nodes free) (n ∷ l.readyqueue ∷ nodes s.ready) same
              out inv.free_queue;
        apart =
            subst (λ xs. Disjoint (l.freequeue ∷ nodes free) (l.readyqueue ∷ xs)) all
              λ a m. ground (arith, out a m, has-append a (nodes s.ready) (n ∷ []));
        aligned = λ x m. elim (Bool-cases (has x s.ready)) [
          | inl h ↦ (inv.resumable x h).aligned
          | inr h ↦ ground (arith, mem x, inv.aligned)
        ];
        own_stack = λ x m. elim (Bool-cases (has x s.ready)) [
          | inl h ↦
              let ne : (x == r) ≡ false = differ x r l.readyqueue s.ready h inv.not_ready in
              rw (inv.on_stack, ne) ((inv.resumable x h).own_stack)
          | inr h ↦
              let e : x ≡ r = ground (arith, mem x) in
              let same_x : (x == r) ≡ true = ground arith in rw (inv.on_stack, same_x) (own ∙ sym e)
        ];
        quanta = λ x. (fields x).2 ∙ inv.quanta x;
        state_ready = λ x m. (fields x).0 ∙ elim (Bool-cases (has x s.ready)) [
          | inl h ↦ ground (arith, (inv.resumable x h).state_ready)
          | inr h ↦ ground (arith, mem x)
        ];
      },
    )

module _ {l : Layout} {quantum_of : ℕ → ℤ} {free : List ℕ} {s : Robin} {k : Kernel} (ebp : ℕ)
    (inv : IsSched l quantum_of free s k) (own : page_of ebp ≡ s.running) where
  pub force_task_switch_lem :
      (k' : Kernel) × (force_task_switch l ebp k ≡ some (tt, k'))
      × IsSched l quantum_of free (rotate quantum_of s) k'
      × (k'.cr3 ≡ (k.task (turn s.running s.ready).0).dir_pages_base_addr)
      × (k'.esp0 ≡ (turn s.running s.ready).0 + 4 * kernel_stack_size)
  unfolding force_task_switch
  force_task_switch_lem =
      let t = (turn s.running s.ready).0 in
      let ts = (turn s.running s.ready).1 in
      let (g, put, b) = put_behind l quantum_of free s ebp k inv own in
      let k1 = enqueued s.running g k in
      let (g', pick, q, same) =
        pick_next-first l k1 t ts b.ready_queue (b.aligned t (ground arith)) in
      let k2 : Kernel = record k1 { links = g' } in
      (
        resumed ebp t k2,
        ap (λ r. (do update_process_state_rr l r l.readyqueue; sched_next_rr l ebp) k) inv.on_stack
            ∙ rw (put) (sched_next_rr-resumed l ebp t k1 k2 pick),
        take_up l quantum_of free ebp t ts k1 g' b q same,
        (resumed_registers ebp t k2).1 ∙ (enqueued-task s.running g k t).3,
        (resumed_registers ebp t k2).3,
      )
