-- ===== src/Sys/Fork/Outcome.antt =====
-- What `sys_fork` makes of a kernel that stands for a round robin.
use soa_ze_os.Prelude.{
  ℕ, ◌%◌, ◌≡◌, sym, ap, subst, ◌∙◌, inl, inr, Bool-cases, true, false, some, List, [], ◌∷◌, ◌++◌,
  arith, ◌==◌, if◌then◌else◌,
}
use soa_ze_os.Prelude.Int.{ℤ}
use soa_ze_os.Links.{Links, list_add_tail}
use soa_ze_os.Links.Chain.{has, has-append}
use soa_ze_os.Links.Queue.{IsQueue, IsQueue-frame, SameOutside, Disjoint}
use soa_ze_os.Links.Insert.{list_add_tail_lem}
use soa_ze_os.Layout.{Layout, list_node, page_size}
use soa_ze_os.Kernel.{Kernel, page_of, st_ready}
use soa_ze_os.Sched.Spec.{Robin}
use soa_ze_os.Sched.Inv.{nodes, IsSched, IsResumable}
use soa_ze_os.Sched.Turn.{nodes-append}
use soa_ze_os.Sched.Refine.{differ, Disjoint-flip}
use soa_ze_os.Sys.Process.Exit.{member_ne}
use soa_ze_os.Sys.Fork.Child.{IsForking}

-- The quanta after a fork: the child has its parent's.
abbrev pub forked : (parent child : ℕ) → (ℕ → ℤ) → ℕ → ℤ
forked parent child quantum_of x = if x == child then quantum_of parent else quantum_of x

module _ {l : Layout} {quantum_of : ℕ → ℤ} {c : ℕ} {free : List ℕ} {s : Robin} {k : Kernel}
    (inv : IsSched l quantum_of (c ∷ free) s k) where
  node_off_ready : has (list_node c) (l.readyqueue ∷ nodes s.ready) ≡ false
  node_off_ready = inv.apart (list_node c) (ground arith)

  node_off_free : has (list_node c) (l.freequeue ∷ nodes free) ≡ false
  node_off_free = ground (arith, inv.free_queue.distinct.0, inv.free_queue.distinct.1.0)

  parent_ne : (s.running == c) ≡ false
  parent_ne = ground (arith, inv.not_free)

  apart_rest : Disjoint (l.freequeue ∷ nodes free) (l.readyqueue ∷ nodes s.ready)
  apart_rest = λ a m. inv.apart a (ground (arith, m))

  -- Away from a single node.
  away : (xs : List ℕ) → has (list_node c) xs ≡ false → Disjoint xs (list_node c ∷ [])
  away xs out = λ a m. ground (arith, member_ne a (list_node c) xs m out)

  module _ {g : Links} {k' : Kernel} (f : IsForking g c (quantum_of s.running) k k')
      (fq : IsQueue g l.freequeue (nodes free))
      (cut : SameOutside (l.freequeue ∷ nodes (c ∷ free)) k.links g) where
    ready_before : IsQueue k'.links l.readyqueue (nodes s.ready)
    ready_before =
        IsQueue-frame g k'.links l.readyqueue (nodes s.ready) (list_node c ∷ []) f.links
          (away (l.readyqueue ∷ nodes s.ready) node_off_ready)
          (IsQueue-frame k.links g l.readyqueue (nodes s.ready) (l.freequeue ∷ nodes (c ∷ free)) cut
            (λ a m.
              Disjoint-flip (l.freequeue ∷ nodes (c ∷ free)) (l.readyqueue ∷ nodes s.ready) a
                inv.apart m)
            inv.ready_queue)

    free_before : IsQueue k'.links l.freequeue (nodes free)
    free_before =
        IsQueue-frame g k'.links l.freequeue (nodes free) (list_node c ∷ []) f.links
          (away (l.freequeue ∷ nodes free) node_off_free) fq

    same_quanta : (x : ℕ) → (k'.task x).total_quantum ≡ forked s.running c quantum_of x
    same_quanta x = elim (Bool-cases (x == c)) [
      | inr other ↦ rw (other) (ap (λ t. t.total_quantum) (f.others x other) ∙ inv.quanta x)
      | inl child ↦
          let e : x ≡ c = ground arith in
          rw (child) (ap (λ y. (k'.task y).total_quantum) e ∙ f.child_quantum)
    ]

    old-IsResumable :
        (x : ℕ) (h : Links) → has x s.ready ≡ true → IsResumable x (record k' { links = h })
    old-IsResumable x h m =
        let ne = differ x c l.readyqueue s.ready m node_off_ready in
        record {
          aligned = (inv.resumable x m).aligned;
          own_stack =
              ap (λ t. page_of t.register_esp) (f.others x ne) ∙ (inv.resumable x m).own_stack;
          state_ready = ap (λ t. t.state) (f.others x ne) ∙ (inv.resumable x m).state_ready;
        }

    -- The child goes to the end of the ready queue.
    pub made_ready :
        c % page_size ≡ 0
        → page_of (k'.task c).register_esp ≡ c
        → (k'.task c).state ≡ st_ready
        → (h : Links) × (list_add_tail (list_node c) l.readyqueue k'.links ≡ some (tt, h))
          × IsSched l
              (forked s.running c quantum_of)
              free
              (record s { ready = s.ready ++ (c ∷ []) })
              (record k' { links = h })
    made_ready al esp st =
        let (h, add, q, same) =
          list_add_tail_lem (list_node c) ready_before (omega arith) node_off_ready in
        let all : nodes s.ready ++ (list_node c ∷ []) ≡ nodes (s.ready ++ (c ∷ [])) =
          sym (nodes-append s.ready (c ∷ [])) in
        let clear : Disjoint (l.freequeue ∷ nodes free)
            (list_node c ∷ l.readyqueue ∷ nodes s.ready) =
          λ a m. ground (
            arith,
            apart_rest a m,
            member_ne a (list_node c) (l.freequeue ∷ nodes free) m node_off_free,
          ) in
        (
          h,
          add,
          record {
            ready_queue = subst (IsQueue h l.readyqueue) all q;
            free_queue =
                IsQueue-frame k'.links h l.freequeue (nodes free)
                  (list_node c ∷ l.readyqueue ∷ nodes s.ready) same clear free_before;
            apart =
                subst (λ xs. Disjoint (l.freequeue ∷ nodes free) (l.readyqueue ∷ xs)) all
                  λ a m. ground (arith, clear a m, has-append a (nodes s.ready) (list_node c ∷ []));
            not_ready =
                subst (λ xs. has (list_node s.running) (l.readyqueue ∷ xs) ≡ false) all
                  (ground (
                    arith,
                    inv.not_ready,
                    parent_ne,
                    has-append (list_node s.running) (nodes s.ready) (list_node c ∷ []),
                  ));
            not_free = ground (arith, inv.not_free);
            on_stack = f.page ∙ inv.on_stack;
            aligned = inv.aligned;
            state_run = ap (λ t. t.state) (f.others s.running parent_ne) ∙ inv.state_run;
            quanta = same_quanta;
            quantum = f.remaining ∙ inv.quantum;
            resumable = λ x m. elim (Bool-cases (has x s.ready)) [
              | inl old ↦ old-IsResumable x h old
              | inr new ↦
                  let e : c ≡ x = ground (arith, has-append x s.ready (c ∷ [])) in
                  subst (λ y. IsResumable y (record k' { links = h })) e
                    record { aligned = al; own_stack = esp; state_ready = st }
            ];
          },
        )

    -- Without frames its task goes back to the free queue.
    pub given_back :
        (h : Links) × (list_add_tail (list_node c) l.freequeue k'.links ≡ some (tt, h))
        × IsSched l (forked s.running c quantum_of) (free ++ (c ∷ [])) s (record k' { links = h })
    given_back =
        let (h, add, q, same) =
          list_add_tail_lem (list_node c) free_before (omega arith) node_off_free in
        let all : nodes free ++ (list_node c ∷ []) ≡ nodes (free ++ (c ∷ [])) =
          sym (nodes-append free (c ∷ [])) in
        let clear : Disjoint (l.readyqueue ∷ nodes s.ready)
            (list_node c ∷ l.freequeue ∷ nodes free) =
          λ a m. ground (
            arith,
            Disjoint-flip (l.freequeue ∷ nodes free) (l.readyqueue ∷ nodes s.ready) a apart_rest m,
            member_ne a (list_node c) (l.readyqueue ∷ nodes s.ready) m node_off_ready,
          ) in
        (
          h,
          add,
          record {
            ready_queue =
                IsQueue-frame k'.links h l.readyqueue (nodes s.ready)
                  (list_node c ∷ l.freequeue ∷ nodes free) same clear ready_before;
            free_queue = subst (IsQueue h l.freequeue) all q;
            apart =
                subst (λ xs. Disjoint (l.freequeue ∷ xs) (l.readyqueue ∷ nodes s.ready)) all
                  λ a m.
                    Disjoint-flip (l.readyqueue ∷ nodes s.ready)
                      (list_node c ∷ l.freequeue ∷ nodes free) a clear
                      (ground (arith, has-append a (nodes free) (list_node c ∷ [])));
            not_ready = inv.not_ready;
            not_free =
                subst (λ xs. has (list_node s.running) (l.freequeue ∷ xs) ≡ false) all
                  (ground (
                    arith,
                    inv.not_free,
                    parent_ne,
                    has-append (list_node s.running) (nodes free) (list_node c ∷ []),
                  ));
            on_stack = f.page ∙ inv.on_stack;
            aligned = inv.aligned;
            state_run = ap (λ t. t.state) (f.others s.running parent_ne) ∙ inv.state_run;
            quanta = same_quanta;
            quantum = f.remaining ∙ inv.quantum;
            resumable = λ x m. old-IsResumable x h m;
          },
        )
