-- ===== src/Mm/Paging.antt =====
-- Page tables, practica/zeos/mm.c and the table accessors of practica/zeos/sched.c. The memory of
-- all page table entries is one map from addresses, so an index out of a table reaches what stands
-- behind it.
pub mod Entries
pub mod Boot
pub mod UserPages
mod Tests
use soa_ze_os.Prelude.{ℕ, suc, ◌+◌, ◌-◌, ◌*◌, ◌/◌, ◌%◌, ◌^◌, ◌==◌, if◌then◌else◌, rounds}
use soa_ze_os.Prelude.Int.{ℤ, pos, negsuc}
use soa_ze_os.Layout.{Layout, page_size, nr_tasks, task_base}
use soa_ze_os.Mm.Frames.{PhysMem, total_pages, num_pag_kernel, init_frames, alloc_frame, free_frame}

abbrev pub num_pag_code : ℕ
num_pag_code = 8

abbrev pub num_pag_data : ℕ
num_pag_data = 20

abbrev pub l_user_start : ℕ
l_user_start = 0x100000

abbrev pub pag_log_init_code : ℕ
pag_log_init_code = l_user_start / 2 ^ 12

abbrev pub pag_log_init_data : ℕ
pag_log_init_data = pag_log_init_code + num_pag_code

-- `page_table_entry`, by its bit fields.
pub record PageTableEntry : Type 0 where
  pub present : ℕ
  pub rw : ℕ
  pub user : ℕ
  pub write_t : ℕ
  pub cache_d : ℕ
  pub accessed : ℕ
  pub dirty : ℕ
  pub ps_pat : ℕ
  pub global : ℕ
  pub avail : ℕ
  pub pbase_addr : ℕ

-- `entry = 0`
abbrev pub zero_entry : PageTableEntry
zero_entry = record {
  present = 0;
  rw = 0;
  user = 0;
  write_t = 0;
  cache_d = 0;
  accessed = 0;
  dirty = 0;
  ps_pat = 0;
  global = 0;
  avail = 0;
  pbase_addr = 0;
}

abbrev pub Entries : Type 0
Entries = ℕ → PageTableEntry

-- The address of `PT[page]`: pointer arithmetic in 32 bits.
abbrev pub entry_addr : ℕ → ℕ → ℕ
entry_addr pt page = (pt + 4 * page) % 2 ^ 32

unfoldable pub write_entry : ℕ → ℕ → PageTableEntry → Entries → Entries
write_entry pt page e m a = if a == entry_addr pt page then e else m a

abbrev pub read_entry : ℕ → ℕ → Entries → PageTableEntry
read_entry pt page m = m (entry_addr pt page)

-- An `int` argument of an `unsigned` parameter.
abbrev pub to_unsigned : ℤ → ℕ
to_unsigned (pos n) = n % 2 ^ 32
to_unsigned (negsuc n) = 2 ^ 32 - suc n % 2 ^ 32

unfoldable pub set_ss_pag : (pt page frame : ℕ) → Entries → Entries
set_ss_pag pt page frame =
    write_entry pt page
      (record zero_entry { pbase_addr = frame % 2 ^ 20; user = 1; rw = 1; present = 1 })

unfoldable pub del_ss_pag : (pt logical_page : ℕ) → Entries → Entries
del_ss_pag pt logical_page = write_entry pt logical_page zero_entry

unfoldable pub get_frame : (pt logical_page : ℕ) → Entries → ℕ
get_frame pt logical_page m = (read_entry pt logical_page m).pbase_addr

-- `get_DIR(t)` is the task's field; `get_PT` follows its first entry.
unfoldable pub get_pt : (dir : ℕ) → Entries → ℕ
get_pt dir m = ((read_entry dir 0 m).pbase_addr * 2 ^ 12) % 2 ^ 32

unfoldable pub hide_page : (pt page : ℕ) → Entries → Entries
hide_page pt page m = write_entry pt page (record (read_entry pt page m) { present = 0 }) m

-- A kernel page of a table is mapped to the frame of the same number.
unfoldable pub map_kernel_page : (pt i : ℕ) → Entries → Entries
map_kernel_page pt i m =
    write_entry pt i (record (read_entry pt i m) { pbase_addr = i % 2 ^ 20; rw = 1; present = 1 }) m

module _ (l : Layout) where
  -- The directory that `allocate_DIR` gives to the task at address `t`.
  unfoldable pub allocate_dir : (t : ℕ) → ℕ
  allocate_dir t = l.dir_pages + page_size * ((t - task_base l) / page_size)

  init_dir : ℕ → Entries → Entries
  init_dir i = write_entry (l.dir_pages + page_size * i) 0 (record zero_entry {
    pbase_addr = (l.pagusr_table + page_size * i) / 2 ^ 12;
    user = 1;
    rw = 1;
    present = 1;
  })

  unfoldable pub init_dir_pages : Entries → Entries
  unfolding init_dir
  init_dir_pages = rounds nr_tasks 0 init_dir

  -- One round of the outer loop of `init_table_pages`: the table of task `j`.
  init_table : ℕ → Entries → Entries
  init_table j m =
      let pt = l.pagusr_table + page_size * j in
      let cleared = rounds total_pages 0 (λ i. write_entry pt i zero_entry) m in
      let mapped = rounds 255 1 (map_kernel_page pt) cleared in
      hide_page pt ((l.protected_tasks + page_size * 11) / 2 ^ 12)
        (hide_page pt (l.protected_tasks / 2 ^ 12) mapped)

  unfoldable pub init_table_pages : Entries → Entries
  unfolding init_table
  init_table_pages = rounds nr_tasks 0 init_table

-- The frame map beside the entries.
pub record Memory : Type 0 where
  pub phys_mem : PhysMem
  pub entries : Entries

-- A round of the loop over the code pages of `set_user_pages`. A frame that could not be allocated
-- is -1, of which the entry takes the low 20 bits.
unfoldable pub set_code_page : (pt pag : ℕ) → Memory → Memory
set_code_page pt pag m =
    let (new_ph_pag, map) = alloc_frame m.phys_mem in
    record {
      phys_mem = map;
      entries =
          write_entry pt (pag_log_init_code + pag)
            (record zero_entry {
              pbase_addr = to_unsigned new_ph_pag % 2 ^ 20;
              user = 1;
              present = 1;
            })
            m.entries;
    }

unfoldable pub set_data_page : (pt pag : ℕ) → Memory → Memory
set_data_page pt pag m =
    let (new_ph_pag, map) = alloc_frame m.phys_mem in
    record {
      phys_mem = map;
      entries =
          write_entry pt (pag_log_init_data + pag)
            (record zero_entry {
              pbase_addr = to_unsigned new_ph_pag % 2 ^ 20;
              user = 1;
              rw = 1;
              present = 1;
            })
            m.entries;
    }

unfoldable pub set_user_pages : (dir : ℕ) → Memory → Memory
set_user_pages dir m =
    let pt = get_pt dir m.entries in
    rounds num_pag_data 0 (set_data_page pt) (rounds num_pag_code 0 (set_code_page pt) m)

free_user_page : (pt pag : ℕ) → Memory → Memory
free_user_page pt pag m = record {
  phys_mem = free_frame (get_frame pt (pag_log_init_data + pag) m.entries) m.phys_mem;
  entries = write_entry pt (pag_log_init_data + pag) zero_entry m.entries;
}

unfoldable pub free_user_pages : (dir : ℕ) → Memory → Memory
unfolding free_user_page
free_user_pages dir m = let pt = get_pt dir m.entries in rounds num_pag_data 0 (free_user_page pt) m
