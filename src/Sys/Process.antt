-- ===== src/Sys/Process.antt =====
-- The system calls of practica/zeos/sys.c on processes: the end of one, the change to another, and the
-- accounting at the kernel's border.
pub mod Exit
use soa_ze_os.Prelude.{
  ℕ, zero, suc, ◌+◌, ◌-◌, ◌*◌, ◌/◌, ◌%◌, ◌^◌, Bool, true, false, not, List, [], ◌∷◌, ltb, ◌==◌,
  if◌then◌else◌, rounds, get_or, set,
}
use soa_ze_os.Prelude.Int.{ℤ, pos, negsuc, ◌-ℤ◌, ltb_ℤ, eqb_ℤ}
use soa_ze_os.Links.{list_add_tail}
use soa_ze_os.Layout.{Layout, task_addr, list_node, nr_tasks}
use soa_ze_os.Mm.Frames.{free_frame, total_pages, num_pag_kernel}
use soa_ze_os.Mm.Paging.{
  Memory, get_frame, del_ss_pag, pag_log_init_data, num_pag_code, num_pag_data,
}
use soa_ze_os.Kernel.{
  Kernel, Cmd, pure, ◌>>=◌, ◌>>◌, modify, gets, on_links, put_task, current, charge, charge_user,
  charge_system,
}
use soa_ze_os.Sched.{sched_next_rr, force_task_switch}
use soa_ze_os.Sys.{current_pt}
use soa_ze_os.Sys.Shm.{region, shm_count}

-- `user_to_system` and `system_to_user`
unfoldable pub user_to_system : Cmd (Unit {0})
user_to_system = do c ← gets current; charge charge_user c

unfoldable pub system_to_user : Cmd (Unit {0})
system_to_user = do c ← gets current; charge charge_system c

-- A data page of the process given back: its frame, and its entry.
unfoldable pub free_data_page : (pt i : ℕ) → Memory → Memory
free_data_page pt i m = record {
  phys_mem = free_frame (get_frame pt (pag_log_init_data + i) m.entries) m.phys_mem;
  entries = del_ss_pag pt (pag_log_init_data + i) m.entries;
}

-- A region less referenced, when it is the one of the frame. The entry that goes is that of page `i`,
-- the region's number: the inner loop's `i` hides the page's.
unfoldable pub release_region : (pt frame i : ℕ) → Kernel → Kernel
release_region pt frame i k =
    let left = (region i k).referencias -ℤ pos 1 in
    let counted : Kernel = record k {
      shm_mem = set k.shm_mem i (record (region i k) { referencias = left });
    } in
    if eqb_ℤ (region i k).shm_mem_frame_addr (pos frame)
    then if eqb_ℤ left (pos 0)
      then record counted {
        memory = record k.memory { entries = del_ss_pag pt i k.memory.entries };
      }
      else counted
    else k

unfoldable pub release_page : (pt page : ℕ) → Kernel → Kernel
unfolding release_region
release_page pt page k =
    let frame = get_frame pt page k.memory.entries in
    if frame == 0 then k else rounds shm_count 0 (release_region pt frame) k

abbrev pub first_shared : ℕ
first_shared = num_pag_kernel + num_pag_code + num_pag_data

-- What `sys_exit` gives back before it leaves the process.
unfoldable pub release : Kernel → Kernel
unfolding release_page free_data_page
release k =
    let pt = current_pt k in
    rounds (total_pages - first_shared) first_shared (release_page pt)
      (record k { memory = rounds num_pag_data 0 (free_data_page pt) k.memory })

module _ (l : Layout) where
  unfoldable pub sys_exit : (ebp : ℕ) → Cmd (Unit {0})
  sys_exit ebp = do
    modify release
    c ← gets current
    on_links (list_add_tail (list_node c) l.freequeue)
    modify λ k. put_task (current k) (record (k.task (current k)) { pid = negsuc 0 }) k
    sched_next_rr l ebp

  unfoldable pub sys_yield : (ebp : ℕ) → Cmd ℤ
  sys_yield ebp = do force_task_switch l ebp; pure (pos 0)
