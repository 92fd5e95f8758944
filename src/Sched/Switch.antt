-- ===== src/Sched/Switch.antt =====
-- The kernel after each step of a task switch, as a function of the kernel before it.
use soa_ze_os.Prelude.{
  ℕ, ◌+◌, ◌*◌, ◌%◌, ◌^◌, ◌≡◌, refl, some, true, false, arith, ◌==◌, if◌then◌else◌,
}
use soa_ze_os.Links.{Links, null, list_add_tail}
use soa_ze_os.Layout.{Layout, list_node}
use soa_ze_os.Kernel.{
  Kernel, st_run, st_ready, put_task, page_of, current, charge_system, charge_ready,
}
use soa_ze_os.Kernel.Tasks.{charged, charge-charged}
use soa_ze_os.Sched.{
  set_state, inner_task_switch, update_process_state_rr, pick_next, sched_next_rr,
  kernel_stack_size,
}

-- A running task put on the ready queue, whose links are then `g`.
unfoldable pub enqueued : ℕ → Links → Kernel → Kernel
enqueued t g k = set_state st_ready t (charged charge_system t (record k { links = g }))

-- One more change from ready to running.
unfoldable pub counted : ℕ → Kernel → Kernel
counted t k =
    put_task t
      (record (k.task t) {
        p_stats = record (k.task t).p_stats {
          total_trans = ((k.task t).p_stats.total_trans + 1) % 2 ^ 32;
        };
      })
      k

-- Task `t` taken up, with the stack position of the task that is left.
unfoldable pub resumed : (ebp t : ℕ) → Kernel → Kernel
resumed ebp t k =
    let started : Kernel = set_state st_run t k in
    let granted : Kernel = record started { remaining_quantum = (started.task t).total_quantum } in
    let timed : Kernel = charged charge_ready t (charged charge_system (current granted) granted) in
    let seen : Kernel = counted t timed in
    let stacked : Kernel = record seen {
      esp0 = t + 4 * kernel_stack_size;
      msr_esp = t + 4 * kernel_stack_size;
      cr3 = (seen.task t).dir_pages_base_addr;
    } in
    let saved : Kernel =
      put_task (current stacked) (record (stacked.task (current stacked)) { register_esp = ebp })
        stacked in
    record saved { stack_page = page_of (saved.task t).register_esp }

module _ (l : Layout) where
  pub update_process_state_rr-enqueued :
      (t : ℕ) (k : Kernel) (g : Links)
      → (k.task t).state ≡ st_run
      → (l.readyqueue == null) ≡ false
      → (l.readyqueue == l.readyqueue) ≡ true
      → list_add_tail (list_node t) l.readyqueue k.links ≡ some (tt, g)
      → update_process_state_rr l t l.readyqueue k ≡ some (tt, enqueued t g k)
  unfolding update_process_state_rr enqueued
  update_process_state_rr-enqueued t k g run nz same add = rw (run, nz, add, same, charge-charged)

  pub sched_next_rr-resumed :
      (ebp t : ℕ) (k k' : Kernel)
      → pick_next l k ≡ some (t, k')
      → sched_next_rr l ebp k ≡ some (tt, resumed ebp t k')
  unfolding sched_next_rr resumed inner_task_switch counted
  sched_next_rr-resumed ebp t k k' pick = rw (pick, charge-charged, charge-charged)

pub enqueued-task :
    (t : ℕ) (g : Links) (k : Kernel) (x : ℕ)
    → (((enqueued t g k).task x).state ≡ (if x == t then st_ready else (k.task x).state))
      × (((enqueued t g k).task x).register_esp ≡ (k.task x).register_esp)
      × (((enqueued t g k).task x).total_quantum ≡ (k.task x).total_quantum)
      × (((enqueued t g k).task x).dir_pages_base_addr ≡ (k.task x).dir_pages_base_addr)
unfolding enqueued charged put_task
enqueued-task t g k x = (ground arith, ground arith, ground arith, ground arith)

pub resumed-task :
    (ebp t : ℕ) (k : Kernel) (x : ℕ)
    → (((resumed ebp t k).task x).state ≡ (if x == t then st_run else (k.task x).state))
      × (((resumed ebp t k).task x).register_esp
          ≡ (if x == k.stack_page then ebp else (k.task x).register_esp))
      × (((resumed ebp t k).task x).total_quantum ≡ (k.task x).total_quantum)
      × (((resumed ebp t k).task x).dir_pages_base_addr ≡ (k.task x).dir_pages_base_addr)
unfolding resumed charged put_task counted
resumed-task ebp t k x = (ground arith, ground arith, ground arith, ground arith)

-- The registers and the quantum after a task has been taken up.
pub resumed_registers :
    (ebp t : ℕ) (k : Kernel)
    → ((resumed ebp t k).remaining_quantum ≡ (k.task t).total_quantum)
      × ((resumed ebp t k).cr3 ≡ (k.task t).dir_pages_base_addr)
      × ((resumed ebp t k).stack_page ≡ page_of ((resumed ebp t k).task t).register_esp)
      × ((resumed ebp t k).esp0 ≡ t + 4 * kernel_stack_size)
unfolding resumed charged put_task counted
resumed_registers ebp t k = (ground arith, ground arith, ground arith, refl)
