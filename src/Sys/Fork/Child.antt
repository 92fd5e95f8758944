-- ===== src/Sys/Fork/Child.antt =====
-- What `sys_fork` changes before the child is on a queue.
use soa_ze_os.Prelude.{
  ℕ, ◌+◌, ◌-◌, ◌≡◌, refl, ap, inl, inr, Bool, Bool-cases, true, false, some, [], ◌∷◌, arith, ◌==◌,
  if◌then◌else◌, rounds_inv,
}
use soa_ze_os.Prelude.Int.{ℤ, pos, ◌+ℤ◌}
use soa_ze_os.Links.{Links, update, list_add_tail, list_del}
use soa_ze_os.Links.Queue.{SameOutside}
use soa_ze_os.Layout.{Layout, list_node}
use soa_ze_os.Mm.Frames.{total_pages}
use soa_ze_os.Mm.Paging.{Memory, get_frame, get_pt, allocate_dir, num_pag_data}
use soa_ze_os.Utils.{get_ticks}
use soa_ze_os.Kernel.{
  Kernel, st_ready, page_of, put_task, current, read_ticks, pure, ◌>>◌, on_links,
}
use soa_ze_os.Sched.{set_state}
use soa_ze_os.Sched.Boot.{init_stats}
use soa_ze_os.Sys.{current_pt, err}
use soa_ze_os.Sys.Shm.{shm_count}
use soa_ze_os.Sys.Process.{first_shared}
use soa_ze_os.Sys.Fork.{
  copy_union, alloc_pages, count_region, inherit_page, inherit, prepare_stack, start_child, fork_to,
  eagain,
}

-- What neither the memory nor the regions are a part of is the same.
pub record SameTasks (k k' : Kernel) : Type 0 where
  pub links : k'.links ≡ k.links
  pub task : k'.task ≡ k.task
  pub page : k'.stack_page ≡ k.stack_page
  pub remaining : k'.remaining_quantum ≡ k.remaining_quantum
  pub last_pid : k'.global_pid ≡ k.global_pid

count_region-SameTasks :
    (frame i : ℕ) (k k' : Kernel) → SameTasks k k' → SameTasks k (count_region frame i k')
unfolding count_region
count_region-SameTasks frame i k k' s = record {
  links = ground (arith, s.links);
  task = ground (arith, s.task);
  page = ground (arith, s.page);
  remaining = ground (arith, s.remaining);
  last_pid = ground (arith, s.last_pid);
}

inherit_page-SameTasks :
    (parent_pt pt pag : ℕ) (k k' : Kernel)
    → SameTasks k k'
    → SameTasks k (inherit_page parent_pt pt pag k')
unfolding inherit_page
inherit_page-SameTasks parent_pt pt pag k k' s =
    let frame = get_frame parent_pt pag k'.memory.entries in
    elim (Bool-cases (frame == 0)) [
      | inl none ↦ rw (none) s
      | inr some_frame ↦ rw (some_frame) (
          rounds_inv (λ _ k''. SameTasks k k'') (count_region frame) shm_count
            (λ i k'' lt s'. count_region-SameTasks frame i k k'' s') shm_count 0 _ (omega arith)
            (record {
              links = s.links;
              task = s.task;
              page = s.page;
              remaining = s.remaining;
              last_pid = s.last_pid;
            }))
    ]

inherit-SameTasks : (parent_pt pt : ℕ) (k : Kernel) → SameTasks k (inherit parent_pt pt k)
unfolding inherit
inherit-SameTasks parent_pt pt k =
    rounds_inv (λ _ k'. SameTasks k k') (inherit_page parent_pt pt) total_pages
      (λ pag k' lt s. inherit_page-SameTasks parent_pt pt pag k k' s) (total_pages - first_shared)
      first_shared _ (omega arith)
      (record { links = refl; task = refl; page = refl; remaining = refl; last_pid = refl })

-- `init_stats` only sets the statistics of a task.
stats_reset : (t : ℕ) → Kernel → Kernel
stats_reset t k =
    let now : ℕ → ℕ = λ i. get_ticks (k.tsc (k.tsc_reads + i)).0 (k.tsc (k.tsc_reads + i)).1 in
    put_task t
      (record (k.task t) {
        p_stats = record {
          user_ticks = 0;
          system_ticks = 0;
          blocked_ticks = 0;
          ready_ticks = 0;
          elapsed_total_ticks = get_ticks (k.tsc k.tsc_reads).0 (k.tsc k.tsc_reads).1;
          total_trans = 0;
          remaining_ticks = now 1;
        };
      })
      (record k { tsc_reads = k.tsc_reads + 1 + 1 })

init_stats-stats_reset : (t : ℕ) (k : Kernel) → init_stats t k ≡ some (tt, stats_reset t k)
unfolding init_stats stats_reset read_ticks
init_stats-stats_reset t k = refl

-- The kernel when the child goes to the ready queue.
pub started : (ret_from_fork ebp child pt : ℕ) → Kernel → Kernel
started ret_from_fork ebp child pt k =
    let a : Kernel = inherit (current_pt k) pt k in
    let b : Kernel = record a {
      cr3 = (a.task (current a)).dir_pages_base_addr;
      global_pid = a.global_pid +ℤ pos 1;
    } in
    let c : Kernel =
      put_task child (record (b.task child) { pid = b.global_pid; state = st_ready }) b in
    set_state st_ready child (stats_reset child (prepare_stack ret_from_fork ebp child c))

pub start_child-started :
    (l : Layout) (ret_from_fork ebp child pt : ℕ) (k : Kernel) (g : Links)
    → list_add_tail (list_node child) l.readyqueue (started ret_from_fork ebp child pt k).links
      ≡ some (tt, g)
    → start_child l ret_from_fork ebp child pt k
      ≡ some (
        ((started ret_from_fork ebp child pt k).task child).pid,
        record (started ret_from_fork ebp child pt k) { links = g },
      )
unfolding start_child started
start_child-started l ret_from_fork ebp child pt k g add = rw (init_stats-stats_reset, add) refl

-- The child is ready on its own stack, and nothing else that the scheduler goes by has changed.
pub record IsStarted (ebp child : ℕ) (k k' : Kernel) : Type 0 where
  pub links : k'.links ≡ k.links
  pub page : k'.stack_page ≡ k.stack_page
  pub remaining : k'.remaining_quantum ≡ k.remaining_quantum
  pub others : (x : ℕ) → (x == child) ≡ false → k'.task x ≡ k.task x
  pub quantum : (k'.task child).total_quantum ≡ (k.task child).total_quantum
  pub esp : (k'.task child).register_esp ≡ ebp - k.stack_page + child - 4
  pub state : (k'.task child).state ≡ st_ready
  pub pid : (k'.task child).pid ≡ k.global_pid +ℤ pos 1

pub started-IsStarted :
    (ret_from_fork ebp child pt : ℕ) (k : Kernel)
    → IsStarted ebp child k (started ret_from_fork ebp child pt k)
unfolding started stats_reset prepare_stack put_task
started-IsStarted ret_from_fork ebp child pt k =
    let s = inherit-SameTasks (current_pt k) pt k in
    let self : (child == child) ≡ true = ground arith in
    record {
      links = s.links;
      page = s.page;
      remaining = s.remaining;
      others = λ x ne. rw (ne) (ap (λ f. f x) s.task);
      quantum = rw (self) (ap (λ f. (f child).total_quantum) s.task);
      esp = rw (self) (ap (λ p. ebp - p + child - 4) s.page);
      state = rw (self) refl;
      pid = rw (self) (ap (λ p. p +ℤ pos 1) s.last_pid);
    }

-- The child before its pages are shared: a copy of the parent with a directory and frames of its own,
-- as far as there are frames.
pub data_frames : (l : Layout) (child : ℕ) → Memory → Bool × Memory
data_frames l child m = alloc_pages num_pag_data 0 (get_pt (allocate_dir l child) m.entries) m

pub copied : (l : Layout) (child : ℕ) (g : Links) → Kernel → Kernel
copied l child g k =
    let a : Kernel = copy_union k.stack_page child (record k { links = g }) in
    let b : Kernel =
      put_task child (record (a.task child) { dir_pages_base_addr = allocate_dir l child }) a in
    record b { memory = (data_frames l child k.memory).1 }

pub fork_to-copied :
    (l : Layout) (ret_from_fork ebp child : ℕ) (k : Kernel) (g : Links)
    → list_del (list_node child) k.links ≡ some (tt, g)
    → page_of (list_node child) ≡ child
    → fork_to l ret_from_fork ebp (list_node child) k
      ≡ (if (data_frames l child k.memory).0
            then start_child l ret_from_fork ebp child
                (get_pt (allocate_dir l child) k.memory.entries)
            else (do on_links (list_add_tail (list_node child) l.freequeue); pure (err eagain)))
          (copied l child g k)
unfolding fork_to copied data_frames copy_union put_task
fork_to-copied l ret_from_fork ebp child k g del own =
    let self : (child == child) ≡ true = ground arith in rw (del, own, self) refl

-- Only the child's task and its node have changed.
pub record IsForking (g : Links) (child : ℕ) (quantum : ℤ) (k k' : Kernel) : Type 0 where
  pub links : SameOutside (list_node child ∷ []) g k'.links
  pub page : k'.stack_page ≡ k.stack_page
  pub remaining : k'.remaining_quantum ≡ k.remaining_quantum
  pub others : (x : ℕ) → (x == child) ≡ false → k'.task x ≡ k.task x
  pub child_quantum : (k'.task child).total_quantum ≡ quantum

pub copied-IsForking :
    (l : Layout) (child : ℕ) (g : Links) (k : Kernel)
    → IsForking g child (k.task k.stack_page).total_quantum k (copied l child g k)
      × ((copied l child g k).global_pid ≡ k.global_pid)
unfolding copied copy_union put_task update
copied-IsForking l child g k =
    let self : (child == child) ≡ true = ground arith in
    (
      record {
        links = λ a out. (ground (arith, out), ground (arith, out));
        page = refl;
        remaining = refl;
        others = λ x ne. rw (ne) refl;
        child_quantum = rw (self) refl;
      },
      refl,
    )
