-- ===== src/Sched.antt =====
-- The round-robin scheduler of practica/zeos/sched.c.
pub mod Spec
pub mod Inv
pub mod Switch
pub mod Turn
pub mod Refine
pub mod Tick
pub mod Fair
pub mod Boot
pub mod Tests
use soa_ze_os.Prelude.{
  ℕ, ◌+◌, ◌-◌, ◌*◌, ◌%◌, ◌^◌, Bool, true, false, not, ◌&&◌, List, ◌==◌, if◌then◌else◌,
}
use soa_ze_os.Prelude.Int.{ℤ, pos, negsuc, ◌-ℤ◌, eqb_ℤ}
use soa_ze_os.Links.{null, init_list_head, list_add_tail, list_del, list_empty, list_first}
use soa_ze_os.Layout.{Layout, page_size, nr_tasks, task_addr, list_node}
use soa_ze_os.Kernel.{
  Kernel, Task, TaskState, st_run, st_ready, st_blocked, Cmd, pure, ◌>>=◌, ◌>>◌, modify, gets,
  on_links, put_task, page_of, current, read_ticks, charge, charge_system, charge_ready,
}

abbrev pub default_quantum : ℤ
default_quantum = pos 10

abbrev pub kernel_stack_size : ℕ
kernel_stack_size = 1024

-- `list_head_to_task_struct`
abbrev pub list_head_to_task_struct : ℕ → ℕ
list_head_to_task_struct l = page_of l

abbrev pub get_quantum : ℕ → Kernel → ℤ
get_quantum t k = (k.task t).total_quantum

unfoldable pub set_quantum : ℕ → ℤ → Kernel → Kernel
set_quantum t new_quantum k = put_task t (record (k.task t) { total_quantum = new_quantum }) k

abbrev pub set_state : TaskState → ℕ → Kernel → Kernel
set_state s t k = put_task t (record (k.task t) { state = s }) k

abbrev pub is_running : TaskState → Bool
is_running st_run = true
is_running st_ready = false
is_running st_blocked = false

unfoldable pub update_sched_data_rr : Cmd (Unit {0})
update_sched_data_rr = modify λ k. record k { remaining_quantum = k.remaining_quantum -ℤ pos 1 }

-- `inner_task_switch` sets the kernel stack of the task, its address space, and the stack itself:
-- `switch_stack` saves `ebp` as the stack position of the task that is left. `task_switch` only saves
-- registers round it.
unfoldable pub inner_task_switch : (ebp new : ℕ) → Cmd (Unit {0})
inner_task_switch ebp new = do
  modify λ k. record k { esp0 = new + 4 * kernel_stack_size; msr_esp = new + 4 * kernel_stack_size }
  modify λ k. record k { cr3 = (k.task new).dir_pages_base_addr }
  modify λ k. put_task (current k) (record (k.task (current k)) { register_esp = ebp }) k
  modify λ k. record k { stack_page = page_of (k.task new).register_esp }

module _ (l : Layout) where
  unfoldable pub needs_sched_rr : Cmd Bool
  needs_sched_rr = do
    empty ← on_links (list_empty l.readyqueue)
    quantum ← gets (λ k. k.remaining_quantum)
    if eqb_ℤ quantum (pos 0) && not empty
        then pure true
        else if eqb_ℤ quantum (pos 0)
        then (do
          modify (λ k. record k { remaining_quantum = get_quantum (current k) k })
          pure false)
        else pure false

  -- The queue of a task that runs is not touched; `dst_queue` null makes the task run.
  unfoldable pub update_process_state_rr : (t dst_queue : ℕ) → Cmd (Unit {0})
  update_process_state_rr t dst_queue = do
    state ← gets (λ k. (k.task t).state)
    if is_running state then pure tt else on_links (list_del (list_node t))
    if dst_queue == null then modify (set_state st_run t) else (do
      on_links (list_add_tail (list_node t) dst_queue)
      if dst_queue == l.readyqueue
          then (do charge charge_system t; modify (set_state st_ready t))
          else modify (set_state st_blocked t))

  -- The first ready task, taken off the queue, or the idle task.
  unfoldable pub pick_next : Cmd ℕ
  pick_next = do
    empty ← on_links (list_empty l.readyqueue)
    if empty then gets (λ k. k.idle_task) else (do
      e ← on_links (list_first l.readyqueue)
      on_links (list_del e)
      pure (list_head_to_task_struct e))

  unfoldable pub sched_next_rr : (ebp : ℕ) → Cmd (Unit {0})
  sched_next_rr ebp = do
    t ← pick_next
    modify (set_state st_run t)
    modify λ k. record k { remaining_quantum = get_quantum t k }
    c ← gets current
    charge charge_system c
    charge charge_ready t
    modify λ k.
        put_task t
          (record (k.task t) {
            p_stats = record (k.task t).p_stats {
              total_trans = ((k.task t).p_stats.total_trans + 1) % 2 ^ 32;
            };
          })
          k
    inner_task_switch ebp t

  unfoldable pub force_task_switch : (ebp : ℕ) → Cmd (Unit {0})
  force_task_switch ebp = do
    c ← gets current
    update_process_state_rr c l.readyqueue
    sched_next_rr ebp

  unfoldable pub schedule : (ebp : ℕ) → Cmd (Unit {0})
  schedule ebp = do
    update_sched_data_rr
    needed ← needs_sched_rr
    if needed
        then (do c ← gets current; update_process_state_rr c l.readyqueue; sched_next_rr ebp)
        else pure tt
