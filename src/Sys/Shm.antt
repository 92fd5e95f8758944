-- ===== src/Sys/Shm.antt =====
-- The shared memory calls of practica/zeos/sys.c.
pub mod Attach
pub mod Detach
use soa_ze_os.Prelude.{
  ℕ, zero, suc, ◌+◌, ◌-◌, ◌*◌, ◌/◌, ◌%◌, ◌^◌, Bool, true, false, not, ◌&&◌, ◌||◌, Option, none,
  some, List, [], ◌∷◌, ltb, leb, ◌==◌, if◌then◌else◌, rounds, get_or, set, length,
}
use soa_ze_os.Prelude.Int.{ℤ, pos, negsuc, pos_part, ◌-ℤ◌, ◌+ℤ◌, ltb_ℤ, eqb_ℤ}
use soa_ze_os.Layout.{page_size}
use soa_ze_os.Mm.Frames.{total_pages}
use soa_ze_os.Mm.Paging.{
  Entries, Memory, get_frame, set_ss_pag, del_ss_pag, to_unsigned, read_entry,
}
use soa_ze_os.Utils.{Bytes}
use soa_ze_os.Kernel.{Kernel, ShmMem, current}
use soa_ze_os.Sys.{err, einval, ecanceled, current_pt}

abbrev pub shm_count : ℕ
shm_count = 10

abbrev pub no_region : ShmMem
no_region = record { shm_mem_frame_addr = pos 0; referencias = pos 0; a_borrar = pos 0 }

abbrev pub region : ℕ → Kernel → ShmMem
region id k = get_or k.shm_mem id no_region

-- `(int)addr >> 12`, an arithmetic shift, as an unsigned number.
abbrev pub page_index : ℕ → ℕ
page_index addr = if ltb addr (2 ^ 31) then addr / 2 ^ 12 else addr / 2 ^ 12 + (2 ^ 32 - 2 ^ 20)

abbrev pub is_present : (pt page : ℕ) → Entries → Bool
is_present pt page m = not ((read_entry pt page m).present == 0)

-- `while (access < TOTAL_PAGES)`: the first page from `access` on that is not present. As many rounds
-- as there are pages are enough.
unfoldable pub find_free : (fuel pt access : ℕ) → Entries → Option ℕ
find_free zero pt access m = none
find_free (suc fuel) pt access m =
    let rest = find_free fuel pt (access + 1) m in
    if ltb access total_pages then (if is_present pt access m then rest else some access) else none

-- Maps the region at the page and counts the reference.
unfoldable pub attach : (pt id access : ℕ) → Kernel → ℤ × Kernel
attach pt id access k = (
  pos (access * 2 ^ 12 % 2 ^ 32),
  record k {
    memory = record k.memory {
      entries =
          set_ss_pag pt access (to_unsigned (region id k).shm_mem_frame_addr) k.memory.entries;
    };
    shm_mem =
        set k.shm_mem id
          (record (region id k) { referencias = (region id k).referencias +ℤ pos 1 });
  },
)

abbrev pub attach_found : (pt id : ℕ) → Kernel → Option ℕ → ℤ × Kernel
attach_found pt id k none = (err einval, k)
attach_found pt id k (some access) = attach pt id access k

unfoldable pub sys_shmat : (id : ℤ) (addr : ℕ) → Kernel → ℤ × Kernel
sys_shmat id addr k =
    if not (addr % page_size == 0)
    then (err ecanceled, k)
    else if ltb_ℤ id (pos 0) || not (ltb_ℤ id (pos shm_count))
    then (err einval, k)
    else if is_present (current_pt k) (page_index addr) k.memory.entries
    then attach_found (current_pt k) (pos_part id) k
        (find_free total_pages (current_pt k) (page_index addr) k.memory.entries)
    else attach (current_pt k) (pos_part id) (page_index addr) k

-- The loop that looks for the region of a frame, from region `i` on.
unfoldable pub find_region : (fuel : ℕ) (frame : ℤ) (i : ℕ) → Kernel → Option ℕ
find_region zero frame i k = none
find_region (suc fuel) frame i k =
    let rest = find_region fuel frame (i + 1) k in
    if eqb_ℤ frame (region i k).shm_mem_frame_addr then some i else rest

-- `*j = 0` on an `unsigned long long`.
unfoldable pub clear_word : (j : ℕ) → Bytes → Bytes
clear_word j m a = if leb j a && ltb a (j + 8) then 0 else m a

-- `j` goes from `page` to `page + PAGE_SIZE / 8`, eight bytes at a time: 64 rounds.
unfoldable pub clear_page : (page : ℕ) → Bytes → Bytes
clear_page page = rounds 64 0 (λ i. clear_word (page + 8 * i))

-- A reference to region `i` less; the last one of a region that is to be deleted clears it and takes
-- the page off the table.
unfoldable pub detach : (pt access page i : ℕ) → Kernel → ℤ × Kernel
detach pt access page i k =
    let r : ShmMem = record (region i k) { referencias = (region i k).referencias -ℤ pos 1 } in
    if eqb_ℤ r.a_borrar (pos 0) || not (eqb_ℤ r.referencias (pos 0))
    then (pos 0, record k { shm_mem = set k.shm_mem i r })
    else (
      pos 0,
      record k {
        shm_mem = set k.shm_mem i (record r { a_borrar = pos 0 });
        bytes = clear_page page k.bytes;
        memory = record k.memory { entries = del_ss_pag pt access k.memory.entries };
        cr3 = (k.task (current k)).dir_pages_base_addr;
      },
    )

abbrev pub detach_found : (pt access page : ℕ) → Kernel → Option ℕ → ℤ × Kernel
detach_found pt access page k none = (err ecanceled, k)
detach_found pt access page k (some i) = detach pt access page i k

unfoldable pub sys_shmdt : (addr : ℕ) → Kernel → ℤ × Kernel
sys_shmdt addr k =
    let access = addr / 2 ^ 12 in
    if not (ltb access total_pages)
    then (err ecanceled, k)
    else if not (is_present (current_pt k) access k.memory.entries)
    then (err ecanceled, k)
    else detach_found (current_pt k) access (addr - addr % page_size) k
        (find_region shm_count (pos (get_frame (current_pt k) access k.memory.entries)) 0 k)

-- `shm_mem[10]` passes the test; what a write to it reaches is no part of the model.
unfoldable pub sys_shmrm : (id : ℤ) → Kernel → ℤ × Kernel
sys_shmrm id k = if ltb_ℤ (pos 10) id || ltb_ℤ id (pos 0) then (err einval, k) else (
  pos 0,
  record k {
    shm_mem = set k.shm_mem (pos_part id) (record (region (pos_part id) k) { a_borrar = pos 1 });
  },
)
