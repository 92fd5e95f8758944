-- ===== src/Sys/Process/Exit.antt =====
-- The end of a process.
use soa_ze_os.Prelude.{
  ℕ, ◌-◌, ◌≡◌, refl, sym, ap, subst, ◌∙◌, inl, inr, Bool-cases, true, false, some, List, [], ◌∷◌,
  ◌++◌, ◌||◌, arith, ◌==◌, rounds_inv,
}
use soa_ze_os.Prelude.Int.{ℤ, negsuc}
use soa_ze_os.Links.{Links}
use soa_ze_os.Links.Chain.{has, has-append}
use soa_ze_os.Links.Queue.{IsQueue, IsQueue-frame, SameOutside, Disjoint}
use soa_ze_os.Links.Insert.{list_add_tail_lem}
use soa_ze_os.Layout.{Layout, list_node}
use soa_ze_os.Kernel.{Kernel, put_task}
use soa_ze_os.Sched.Inv.{nodes, IsSched}
use soa_ze_os.Sched.Switch.{resumed, sched_next_rr-resumed}
use soa_ze_os.Sched.Turn.{nodes-append, pick_next-first}
use soa_ze_os.Sched.Refine.{IsBetween, take_up, differ, Disjoint-flip}
use soa_ze_os.Sys.Process.{release, release_page, release_region, first_shared, sys_exit}
use soa_ze_os.Sys.{current_pt}
use soa_ze_os.Sys.Shm.{shm_count}
use soa_ze_os.Mm.Frames.{total_pages}
use soa_ze_os.Mm.Paging.{get_frame}

-- What the scheduler goes by is the same.
record SameSched (k k' : Kernel) : Type 0 where
  links : k'.links ≡ k.links
  task : k'.task ≡ k.task
  page : k'.stack_page ≡ k.stack_page

release_region-SameSched :
    (pt frame i : ℕ) (k k' : Kernel) → SameSched k k' → SameSched k (release_region pt frame i k')
unfolding release_region
release_region-SameSched pt frame i k k' s = record {
  links = ground (arith, s.links);
  task = ground (arith, s.task);
  page = ground (arith, s.page);
}

release_page-SameSched :
    (pt page : ℕ) (k k' : Kernel) → SameSched k k' → SameSched k (release_page pt page k')
unfolding release_page
release_page-SameSched pt page k k' s =
    let frame = get_frame pt page k'.memory.entries in
    elim (Bool-cases (frame == 0)) [
      | inl none ↦ rw (none) s
      | inr some_frame ↦ rw (some_frame) (
          rounds_inv (λ _ k''. SameSched k k'') (release_region pt frame) shm_count
            (λ i k'' lt s'. release_region-SameSched pt frame i k k'' s') shm_count 0 k'
            (omega arith) s)
    ]

release-SameSched : (k : Kernel) → SameSched k (release k)
unfolding release
release-SameSched k =
    rounds_inv (λ _ k'. SameSched k k') (release_page (current_pt k)) total_pages
      (λ page k' lt s. release_page-SameSched (current_pt k) page k k' s)
      (total_pages - first_shared) first_shared _ (omega arith)
      (record { links = refl; task = refl; page = refl })

pub member_ne : (a n : ℕ) (xs : List ℕ) → has a xs ≡ true → has n xs ≡ false → (a == n) ≡ false
member_ne a n xs m out = elim (Bool-cases (a == n)) [
  | inr ne ↦ ne
  | inl e ↦ let e' : a ≡ n = ground arith in absurd (ground (arith, ap (λ y. has y xs) e'))
]

module _ {l : Layout} {quantum_of : ℕ → ℤ} {free : List ℕ} {r t : ℕ} {ts : List ℕ} {q : ℤ}
    {k : Kernel} (ebp : ℕ)
    (inv : IsSched l quantum_of free (record { running = r; ready = t ∷ ts; quantum = q }) k) where
  -- The process has left, and its task is free.
  gone : ℕ → Links → Kernel → Kernel
  gone c g k₁ = put_task c (record (k₁.task c) { pid = negsuc 0 }) (record k₁ { links = g })

  left_behind :
      (c : ℕ) (k₁ : Kernel) (g : Links)
      → SameSched k k₁
      → k₁.stack_page ≡ c
      → has (list_node c) (l.readyqueue ∷ nodes (t ∷ ts)) ≡ false
      → IsQueue g l.freequeue (nodes free ++ (list_node c ∷ []))
      → SameOutside (list_node c ∷ l.freequeue ∷ nodes free) k₁.links g
      → IsBetween l quantum_of (free ++ (c ∷ [])) ebp t ts (gone c g k₁)
  unfolding gone put_task
  left_behind c k₁ g s page out fq same =
      let all : nodes free ++ (list_node c ∷ []) ≡ nodes (free ++ (c ∷ [])) =
        sym (nodes-append free (c ∷ [])) in
      let away : (x : ℕ) → has x (t ∷ ts) ≡ true → (x == c) ≡ false =
        λ x m. differ x c l.readyqueue (t ∷ ts) m out in
      let clear : Disjoint (l.readyqueue ∷ nodes (t ∷ ts))
          (list_node c ∷ l.freequeue ∷ nodes free) =
        λ a m.
          let ne = member_ne a (list_node c) (l.readyqueue ∷ nodes (t ∷ ts)) m out in
          let other =
            Disjoint-flip (l.freequeue ∷ nodes free) (l.readyqueue ∷ nodes (t ∷ ts)) a inv.apart
              m in
          rw (ne) other in
      record {
        ready_queue =
            IsQueue-frame k₁.links g l.readyqueue (nodes (t ∷ ts))
              (list_node c ∷ l.freequeue ∷ nodes free) same clear
              (subst (λ h. IsQueue h l.readyqueue (nodes (t ∷ ts))) (sym s.links) inv.ready_queue);
        free_queue = subst (IsQueue g l.freequeue) all fq;
        apart = λ a m.
            let e : has a (nodes (free ++ (c ∷ [])))
                ≡ (has a (nodes free) || has a (list_node c ∷ [])) =
              ap (has a) (sym all) ∙ has-append a (nodes free) (list_node c ∷ []) in
            Disjoint-flip (l.readyqueue ∷ nodes (t ∷ ts)) (list_node c ∷ l.freequeue ∷ nodes free) a
              clear (ground (arith, e));
        aligned = λ x m. (inv.resumable x m).aligned;
        own_stack = λ x m.
            let off : (x == k₁.stack_page) ≡ false = ap (λ p. x == p) page ∙ away x m in
            let kept : (k₁.task x).register_esp ≡ (k.task x).register_esp =
              ap (λ f. (f x).register_esp) s.task in
            rw (off, away x m, kept) (inv.resumable x m).own_stack;
        state_ready =
            λ x m. rw (away x m) (ap (λ f. (f x).state) s.task ∙ (inv.resumable x m).state_ready);
        quanta = λ x.
            let e : (k₁.task x).total_quantum ≡ quantum_of x =
              ap (λ f. (f x).total_quantum) s.task ∙ inv.quanta x in
            ground (arith, e);
      }

  -- With a ready task `sys_exit` does not come back to its caller: it ends on the stack of the first ready
  -- task, and the kernel stands for the round robin without the process, whose task is free.
  pub sys_exit_lem :
      (k' : Kernel) × (sys_exit l ebp k ≡ some (tt, k'))
      × IsSched l quantum_of
          (free ++ (r ∷ []))
          (record { running = t; ready = ts; quantum = quantum_of t })
          k'
  unfolding sys_exit gone
  sys_exit_lem =
      let k₁ = release k in
      let s = release-SameSched k in
      let c = k₁.stack_page in
      let page : c ≡ r = s.page ∙ inv.on_stack in
      let fq : IsQueue k₁.links l.freequeue (nodes free) =
        subst (λ h. IsQueue h l.freequeue (nodes free)) (sym s.links) inv.free_queue in
      let not_free : has (list_node c) (l.freequeue ∷ nodes free) ≡ false =
        ap (λ x. has (list_node x) (l.freequeue ∷ nodes free)) page ∙ inv.not_free in
      let not_ready : has (list_node c) (l.readyqueue ∷ nodes (t ∷ ts)) ≡ false =
        ap (λ x. has (list_node x) (l.readyqueue ∷ nodes (t ∷ ts))) page ∙ inv.not_ready in
      let (g, add, q', same) = list_add_tail_lem (list_node c) fq (omega arith) not_free in
      let b = left_behind c k₁ g s refl not_ready q' same in
      let k₂ = gone c g k₁ in
      let (g', pick, q'', same') =
        pick_next-first l k₂ t ts b.ready_queue (b.aligned t (ground arith)) in
      (
        resumed ebp t (record k₂ { links = g' }),
        rw (add) (sched_next_rr-resumed l ebp t k₂ (record k₂ { links = g' }) pick),
        subst
            (λ x.
              IsSched l quantum_of (free ++ (x ∷ []))
                (record { running = t; ready = ts; quantum = quantum_of t })
                (resumed ebp t (record k₂ { links = g' })))
            page (take_up l quantum_of (free ++ (c ∷ [])) ebp t ts k₂ g' b q'' same'),
      )
