-- ===== src/Sys/Fork.antt =====
-- `sys_fork` of practica/zeos/sys.c.
pub mod Child
pub mod Outcome
pub mod Run
use soa_ze_os.Prelude.{
  ℕ, zero, suc, ◌+◌, ◌-◌, ◌*◌, ◌/◌, ◌%◌, ◌^◌, Bool, true, false, not, List, [], ◌∷◌, ltb, ◌==◌,
  if◌then◌else◌, rounds, get_or, set,
}
use soa_ze_os.Prelude.Int.{ℤ, pos, negsuc, ◌-ℤ◌, ◌+ℤ◌, eqb_ℤ}
use soa_ze_os.Links.{Links, update, list_add_tail, list_del, list_empty, list_first}
use soa_ze_os.Layout.{Layout, list_node, page_size}
use soa_ze_os.Mm.Frames.{alloc_frame, free_frame, share_frame, total_pages, num_pag_kernel}
use soa_ze_os.Mm.Paging.{
  Memory, get_frame, get_pt, set_ss_pag, write_entry, read_entry, to_unsigned, allocate_dir,
  pag_log_init_code, pag_log_init_data, num_pag_code, num_pag_data,
}
use soa_ze_os.Utils.{Bytes, copy_data}
use soa_ze_os.Kernel.{
  Kernel, Task, st_ready, Cmd, pure, ◌>>=◌, ◌>>◌, modify, gets, on_links, put_task, current,
}
use soa_ze_os.Sched.{list_head_to_task_struct, set_state}
use soa_ze_os.Sched.Boot.{init_stats, put_dword}
use soa_ze_os.Sys.{err, current_pt}
use soa_ze_os.Sys.Shm.{region, shm_count}
use soa_ze_os.Sys.Process.{free_data_page, first_shared}

abbrev pub enomem : ℕ
enomem = 12

abbrev pub eagain : ℕ
eagain = 11

-- `copy_data(current(), uchild, sizeof(union task_union))`: the struct, its list field too, and the
-- bytes of the stack.
unfoldable pub copy_union : (parent child : ℕ) → Kernel → Kernel
copy_union parent child k = put_task child (k.task parent) (record k {
  links = record {
    next = update k.links.next (list_node child) (k.links.next (list_node parent));
    prev = update k.links.prev (list_node child) (k.links.prev (list_node parent));
  };
  bytes = copy_data parent child (pos page_size) k.bytes;
})

-- The loop that allocates the data pages, from page `pag` on, and what it undoes when there is no frame.
unfoldable pub alloc_pages : (rounds pag pt : ℕ) → Memory → Bool × Memory
unfolding free_data_page
alloc_pages zero pag pt m = (true, m)
alloc_pages (suc n) pag pt m =
    let (new_ph_pag, phys_mem) = alloc_frame m.phys_mem in
    let rest = alloc_pages n (pag + 1) pt (record {
      phys_mem = phys_mem;
      entries = set_ss_pag pt (pag_log_init_data + pag) (to_unsigned new_ph_pag) m.entries;
    }) in
    if eqb_ℤ new_ph_pag (negsuc 0)
    then (false, rounds pag 0 (free_data_page pt) (record m { phys_mem = phys_mem }))
    else rest

-- A page of the parent's table mapped in the child's.
unfoldable pub copy_page : (parent_pt pt pag : ℕ) → Memory → Memory
copy_page parent_pt pt pag m = record m {
  entries = set_ss_pag pt pag (get_frame parent_pt pag m.entries) m.entries;
}

unfoldable pub write_protect : (pt pag : ℕ) → Memory → Memory
write_protect pt pag m = record m {
  entries = write_entry pt pag (record (read_entry pt pag m.entries) { rw = 0 }) m.entries;
}

-- A data page is shared, counted, and read-only for both.
unfoldable pub share_page : (parent_pt pt pag : ℕ) → Memory → Memory
unfolding copy_page write_protect
share_page parent_pt pt pag m =
    let copied : Memory = copy_page parent_pt pt pag m in
    let counted : Memory = record copied {
      phys_mem = share_frame (get_frame parent_pt pag copied.entries) copied.phys_mem;
    } in
    write_protect parent_pt pag (write_protect pt pag counted)

unfoldable pub share_memory : (parent_pt pt : ℕ) → Memory → Memory
unfolding copy_page share_page
share_memory parent_pt pt m =
    let system = rounds num_pag_kernel 0 (copy_page parent_pt pt) m in
    let code = rounds num_pag_code pag_log_init_code (copy_page parent_pt pt) system in
    rounds num_pag_data (num_pag_kernel + num_pag_code) (share_page parent_pt pt) code

-- A region more referenced, when it is the one of the frame.
unfoldable pub count_region : (frame i : ℕ) → Kernel → Kernel
count_region frame i k =
    if eqb_ℤ (region i k).shm_mem_frame_addr (pos frame)
    then record k {
      shm_mem =
          set k.shm_mem i (record (region i k) { referencias = (region i k).referencias +ℤ pos 1 });
    }
    else k

unfoldable pub inherit_page : (parent_pt pt pag : ℕ) → Kernel → Kernel
unfolding count_region
inherit_page parent_pt pt pag k =
    let frame = get_frame parent_pt pag k.memory.entries in
    if frame == 0
    then k
    else rounds shm_count 0 (count_region frame) (record k {
      memory = record k.memory { entries = set_ss_pag pt pag frame k.memory.entries };
    })

unfoldable pub inherit : (parent_pt pt : ℕ) → Kernel → Kernel
unfolding inherit_page share_memory
inherit parent_pt pt k =
    rounds (total_pages - first_shared) first_shared (inherit_page parent_pt pt)
      (record k { memory = share_memory parent_pt pt k.memory })

-- The 32-bit word at an address.
abbrev pub get_dword : (a : ℕ) → Bytes → ℕ
get_dword a m = m a + 2 ^ 8 * (m (a + 1) + 2 ^ 8 * (m (a + 2) + 2 ^ 8 * m (a + 3)))

-- The child's stack is left as after a call of `ret_from_fork` with the parent's frame pointer.
unfoldable pub prepare_stack : (ret_from_fork ebp child : ℕ) → Kernel → Kernel
prepare_stack ret_from_fork ebp child k =
    let register_ebp = ebp - current k + child in
    let temp_ebp = get_dword register_ebp k.bytes in
    put_task child (record (k.task child) { register_esp = register_ebp - 4 })
      (record k {
        bytes =
            put_dword (register_ebp - 4) temp_ebp (put_dword register_ebp ret_from_fork k.bytes);
      })

module _ (l : Layout) where
  -- What `sys_fork` does once the child, with the table `pt`, has its frames.
  unfoldable pub start_child : (ret_from_fork ebp child pt : ℕ) → Cmd ℤ
  unfolding inherit prepare_stack
  start_child ret_from_fork ebp child pt = do
    modify λ k. inherit (current_pt k) pt k
    modify λ k. record k { cr3 = (k.task (current k)).dir_pages_base_addr }
    modify λ k. record k { global_pid = k.global_pid +ℤ pos 1 }
    modify λ k. put_task child (record (k.task child) { pid = k.global_pid; state = st_ready }) k
    modify (prepare_stack ret_from_fork ebp child)
    init_stats child
    modify (set_state st_ready child)
    on_links (list_add_tail (list_node child) l.readyqueue)
    gets λ k. (k.task child).pid

  -- `sys_fork` with a free task at the list entry `lhcurrent`.
  unfoldable pub fork_to : (ret_from_fork ebp lhcurrent : ℕ) → Cmd ℤ
  fork_to ret_from_fork ebp lhcurrent = do
    on_links (list_del lhcurrent)
    child ← gets λ k. list_head_to_task_struct lhcurrent
    modify λ k. copy_union (current k) child k
    modify
        λ k. put_task child (record (k.task child) { dir_pages_base_addr = allocate_dir l child }) k
    pt ← gets λ k. get_pt (k.task child).dir_pages_base_addr k.memory.entries
    done ← gets λ k. alloc_pages num_pag_data 0 pt k.memory
    modify λ k. record k { memory = done.1 }
    if done.0
        then start_child ret_from_fork ebp child pt
        else (do on_links (list_add_tail lhcurrent l.freequeue); pure (err eagain))

  unfoldable pub sys_fork : (ret_from_fork ebp : ℕ) → Cmd ℤ
  unfolding fork_to
  sys_fork ret_from_fork ebp = do
    empty ← on_links (list_empty l.freequeue)
    if empty
        then pure (err enomem)
        else (do lhcurrent ← on_links (list_first l.freequeue); fork_to ret_from_fork ebp lhcurrent)
