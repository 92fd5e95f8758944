-- ===== src/Mm/Paging/Tests.antt =====
-- The paging theorems at one layout.
use soa_ze_os.Prelude.{ℕ, ◌+◌, ◌*◌, ◌<◌, ◌≡◌, ◌≤◌, ◌≢◌, refl, arith, []}
use soa_ze_os.Layout.{Layout, IsLaidOut, page_size, task_addr}
use soa_ze_os.Mm.Frames.{total_pages}
use soa_ze_os.Mm.Paging.{
  Entries, zero_entry, entry_addr, read_entry, get_pt, allocate_dir, set_ss_pag, del_ss_pag,
  get_frame, init_dir_pages, init_table_pages, Memory, set_user_pages, num_pag_code, num_pag_data,
  pag_log_init_code, pag_log_init_data,
}
use soa_ze_os.Mm.Paging.Entries.{set_ss_pag_lem}
use soa_ze_os.Mm.Paging.Boot.{boot_entry, get_pt-init_dir_pages, init_table_pages_lem}
use soa_ze_os.Mm.Paging.UserPages.{UserPage, set_user_pages_lem}

abbrev layout : Layout
layout = record {
  protected_tasks = 0x20000;
  dir_pages = 0x30000;
  pagusr_table = 0x40000;
  freequeue = 0x15000;
  readyqueue = 0x15008;
}

layout-IsLaidOut : IsLaidOut layout
layout-IsLaidOut = omega arith

abbrev blank : Entries
blank a = zero_entry

-- Every directory points to the table at 0x40000.
abbrev memory : Memory
memory = record { phys_mem = []; entries = λ a. record zero_entry { pbase_addr = 0x40 } }

set_ss_pag_lem_example :
    let m' = set_ss_pag 0x40000 300 77 blank in
    let m'' = del_ss_pag 0x40000 300 m' in
    (get_frame 0x40000 300 m' ≡ 77)
    × ((read_entry 0x40000 300 m').present ≡ 1)
    × ((read_entry 0x40000 300 m').user ≡ 1)
    × ((read_entry 0x40000 300 m').rw ≡ 1)
    × (read_entry 0x40000 300 m'' ≡ zero_entry)
    × ((a : ℕ) → a ≢ entry_addr 0x40000 300 → (m' a ≡ blank a) × (m'' a ≡ blank a))
set_ss_pag_lem_example = set_ss_pag_lem 0x40000 300 77 blank (omega arith)

get_pt-init_dir_pages_example :
    get_pt (allocate_dir layout (task_addr layout 3)) (init_dir_pages layout blank)
    ≡ 0x40000 + page_size * 3
get_pt-init_dir_pages_example = get_pt-init_dir_pages layout layout-IsLaidOut blank 3 (omega arith)

-- Page 32 stands before the tasks and is hidden, page 33 is mapped.
hidden_page : ((boot_entry layout 32).present ≡ 0) × ((boot_entry layout 33).present ≡ 1)
hidden_page = (refl, refl)

init_table_pages_lem_example :
    read_entry (0x40000 + page_size * 9) 33 (init_table_pages layout blank) ≡ boot_entry layout 33
init_table_pages_lem_example =
    init_table_pages_lem layout layout-IsLaidOut blank 9 33 (omega arith) (omega arith)

set_user_pages_lem_example :
    let m' = set_user_pages 0x30000 memory in
    ((i : ℕ)
      → i < num_pag_code
      → UserPage 0 (read_entry (get_pt 0x30000 memory.entries) (pag_log_init_code + i) m'.entries))
    × ((i : ℕ)
        → i < num_pag_data
        → UserPage 1
            (read_entry (get_pt 0x30000 memory.entries) (pag_log_init_data + i) m'.entries))
    × ((i : ℕ)
        → i < pag_log_init_code
        → read_entry (get_pt 0x30000 memory.entries) i m'.entries
          ≡ read_entry (get_pt 0x30000 memory.entries) i memory.entries)
    × ((i : ℕ)
        → pag_log_init_data + num_pag_data ≤ i
        → i < total_pages
        → read_entry (get_pt 0x30000 memory.entries) i m'.entries
          ≡ read_entry (get_pt 0x30000 memory.entries) i memory.entries)
set_user_pages_lem_example = set_user_pages_lem 0x30000 memory (unfold get_pt in omega arith)
