-- ===== src/Sched/Boot.antt =====
-- How practica/zeos/sched.c sets up the tasks: the queues, the idle task and the first one.
pub mod Queues
pub mod Start
use soa_ze_os.Prelude.{
  ℕ, zero, suc, ◌+◌, ◌-◌, ◌*◌, ◌/◌, ◌%◌, ◌^◌, List, [], ◌∷◌, ◌&&◌, leb, ltb, if◌then◌else◌,
}
use soa_ze_os.Prelude.Int.{ℤ, pos, negsuc}
use soa_ze_os.Links.{init_list_head, list_add_tail, list_del, list_first}
use soa_ze_os.Layout.{Layout, task_addr, list_node, nr_tasks}
use soa_ze_os.Mm.Paging.{allocate_dir, set_user_pages}
use soa_ze_os.Utils.{Bytes}
use soa_ze_os.Kernel.{
  Kernel, Task, st_run, Cmd, pure, ◌>>=◌, ◌>>◌, modify, gets, on_links, put_task, read_ticks,
}
use soa_ze_os.Sched.{default_quantum, kernel_stack_size, list_head_to_task_struct, set_state}

-- `init_stats`: the counter is read for both fields that hold a time.
unfoldable pub init_stats : (t : ℕ) → Cmd (Unit {0})
init_stats t = do
  elapsed ← read_ticks
  remaining ← read_ticks
  modify λ k.
      put_task t
        (record (k.task t) {
          p_stats = record {
            user_ticks = 0;
            system_ticks = 0;
            blocked_ticks = 0;
            ready_ticks = 0;
            elapsed_total_ticks = elapsed;
            total_trans = 0;
            remaining_ticks = remaining;
          };
        })
        k

-- A 32-bit word at an address, low byte first.
unfoldable pub put_dword : (a v : ℕ) → Bytes → Bytes
put_dword a v m b = if leb a b && ltb b (a + 4) then v / 2 ^ (8 * (b - a)) % 2 ^ 8 else m b

module _ (l : Layout) where
  -- The loop of `init_freequeue` from task `i` on.
  unfoldable pub add_tasks : (rounds i : ℕ) → Cmd (Unit {0})
  add_tasks zero i = pure tt
  add_tasks (suc rounds) i = do
    modify λ k. put_task (task_addr l i) (record (k.task (task_addr l i)) { pid = negsuc 0 }) k
    on_links (list_add_tail (list_node (task_addr l i)) l.freequeue)
    add_tasks rounds (i + 1)

  unfoldable pub init_freequeue : Cmd (Unit {0})
  unfolding add_tasks
  init_freequeue = do on_links (init_list_head l.freequeue); add_tasks nr_tasks 0

  unfoldable pub init_sched : Cmd (Unit {0})
  init_sched = do init_freequeue; on_links (init_list_head l.readyqueue)

  -- The first free task, off the queue.
  unfoldable pub take_free : Cmd ℕ
  take_free = do
    e ← on_links (list_first l.freequeue)
    on_links (list_del e)
    pure (list_head_to_task_struct e)

  -- The body of `init_idle` for the task `c`.
  unfoldable pub set_up_idle : (cpu_idle c : ℕ) → Cmd (Unit {0})
  set_up_idle cpu_idle c = do
    modify λ k. put_task c (record (k.task c) { pid = pos 0; total_quantum = default_quantum }) k
    init_stats c
    modify λ k. put_task c (record (k.task c) { dir_pages_base_addr = allocate_dir l c }) k
    modify λ k. record k {
      bytes =
          put_dword (c + 4 * (kernel_stack_size - 2)) 0
            (put_dword (c + 4 * (kernel_stack_size - 1)) cpu_idle k.bytes);
    }
    modify λ k. put_task c (record (k.task c) { register_esp = c + 4 * (kernel_stack_size - 2) }) k
    modify λ k. record k { idle_task = c }

  unfoldable pub init_idle : (cpu_idle : ℕ) → Cmd (Unit {0})
  init_idle cpu_idle = do c ← take_free; set_up_idle cpu_idle c

  -- The body of `init_task1` for the task `c`.
  unfoldable pub set_up_task1 : (c : ℕ) → Cmd (Unit {0})
  set_up_task1 c = do
    modify λ k. put_task c (record (k.task c) { pid = pos 1; total_quantum = default_quantum }) k
    modify (set_state st_run c)
    modify λ k. record k { remaining_quantum = (k.task c).total_quantum }
    init_stats c
    modify λ k. put_task c (record (k.task c) { dir_pages_base_addr = allocate_dir l c }) k
    modify λ k. record k { memory = set_user_pages (k.task c).dir_pages_base_addr k.memory }
    modify λ k. record k { esp0 = c + 4 * kernel_stack_size; msr_esp = c + 4 * kernel_stack_size }
    modify λ k. record k { cr3 = (k.task c).dir_pages_base_addr }

  unfoldable pub init_task1 : Cmd (Unit {0})
  init_task1 = do c ← take_free; set_up_task1 c
