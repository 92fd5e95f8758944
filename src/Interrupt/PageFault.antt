-- ===== src/Interrupt/PageFault.antt =====
-- `pagefault_routine` of practica/zeos/interrupt.c, the copy on write. Here memory is physical: the
-- routine maps frames, and reads and writes through what it has mapped.
pub mod Unshare
pub mod MovePage
pub mod Routine
mod Tests
use soa_ze_os.Prelude.{ℕ, ◌+◌, ◌*◌, ◌/◌, ◌%◌, ◌^◌, List, [], ◌∷◌, ◌==◌, if◌then◌else◌, get_or}
use soa_ze_os.Prelude.Int.{ℤ, pos, negsuc, eqb_ℤ}
use soa_ze_os.Layout.{page_size}
use soa_ze_os.Mm.Frames.{PhysMem, num_pag_kernel, alloc_frame, unshare_frame}
use soa_ze_os.Mm.Paging.{
  Memory, Entries, get_frame, set_ss_pag, del_ss_pag, read_entry, write_entry, to_unsigned,
  num_pag_code, num_pag_data,
}
use soa_ze_os.Utils.{Bytes, copy_data}
use soa_ze_os.Io.{Screen, printk}

-- `ram` is memory by physical address.
pub record Machine : Type 0 where
  pub memory : Memory
  pub ram : ℕ → ℕ
  pub screen : Screen
  pub cr3 : ℕ

-- The routine returns, or it prints and loops for ever.
pub data FaultEnd : Type 0 where
  resumed halted : Machine → FaultEnd

-- Memory by logical address, through the table at `pt`.
abbrev pub view : (pt : ℕ) → Machine → Bytes
view pt s a = s.ram (get_frame pt (a / page_size) s.memory.entries * page_size + a % page_size)

-- The bytes of a logical page, as they are after writes to it, in the frame that it is mapped to.
unfoldable pub store_page : (pt page : ℕ) → Bytes → Machine → Machine
store_page pt page bytes s = record s {
  ram = λ x.
      if x / page_size == get_frame pt page s.memory.entries
      then bytes (page * page_size + x % page_size)
      else s.ram x;
}

-- `copy_data(posicion << 12, page << 12, PAGE_SIZE)`
unfoldable pub copy_frame : (pt posicion page : ℕ) → Machine → Machine
copy_frame pt posicion page s =
    store_page pt page
      (copy_data (posicion * page_size) (page * page_size) (pos page_size) (view pt s)) s

-- The page through which the routine reaches the new frame.
abbrev pub pagina_a_usar : ℕ
pagina_a_usar = num_pag_code + num_pag_kernel + num_pag_data + 1

abbrev pub with_entries : Entries → Machine → Machine
with_entries e s = record s { memory = record s.memory { entries = e } }

-- The frame of that page, or -1 if it is not present.
abbrev pub saved_frame : (pt : ℕ) → Entries → ℤ
saved_frame pt m =
    if (read_entry pt pagina_a_usar m).present == 1
    then pos (get_frame pt pagina_a_usar m)
    else negsuc 0

abbrev pub restore_frame : (pt : ℕ) → ℤ → Entries → Entries
restore_frame pt frameaux m =
    if eqb_ℤ frameaux (negsuc 0) then m else set_ss_pag pt pagina_a_usar (to_unsigned frameaux) m

-- The table after the copy: the page that served for it as it was, and the page itself on the new frame.
unfoldable pub remap : (pt posicion : ℕ) → (frame frameaux : ℤ) → Entries → Entries
remap pt posicion frame frameaux m =
    set_ss_pag pt posicion (to_unsigned frame)
      (del_ss_pag pt posicion (restore_frame pt frameaux (del_ss_pag pt pagina_a_usar m)))

-- The page goes to a frame, which is -1 when there is none, with a copy of its data.
unfoldable pub move_page : (pt dir posicion : ℕ) → (frame : ℤ) → PhysMem → Machine → Machine
move_page pt dir posicion frame phys_mem s =
    let m = s.memory.entries in
    let mapped : Machine = record s {
      memory = record {
        phys_mem = phys_mem;
        entries = set_ss_pag pt pagina_a_usar (to_unsigned frame) m;
      };
    } in
    let copied = copy_frame pt posicion pagina_a_usar mapped in
    record (with_entries (remap pt posicion frame (saved_frame pt m) copied.memory.entries)
      copied) { cr3 = dir }

-- The process gets a frame of its own.
unfoldable pub unshare_page : (pt dir posicion : ℕ) → Machine → Machine
unshare_page pt dir posicion s =
    let (frame, phys_mem) =
      alloc_frame (unshare_frame (get_frame pt posicion s.memory.entries) s.memory.phys_mem) in
    move_page pt dir posicion frame phys_mem s

unfoldable pub allow_writes : (pt posicion : ℕ) → Machine → Machine
allow_writes pt posicion s =
    let m = s.memory.entries in
    with_entries (write_entry pt posicion (record (read_entry pt posicion m) { rw = 1 }) m) s

-- "PAGE FAULT"
abbrev pub message : List ℕ
message = 80 ∷ 65 ∷ 71 ∷ 69 ∷ 32 ∷ 70 ∷ 65 ∷ 85 ∷ 76 ∷ 84 ∷ []

-- With the current task's table and directory, and the address that faulted.
unfoldable pub pagefault_routine : (pt dir cr2 : ℕ) → Machine → FaultEnd
pagefault_routine pt dir cr2 s =
    let posicion = cr2 / 2 ^ 12 in
    let value = get_or s.memory.phys_mem (get_frame pt posicion s.memory.entries) 0 in
    if value == 0
    then halted (record s { screen = printk message s.screen })
    else if value == 1
    then resumed (allow_writes pt posicion s)
    else resumed (unshare_page pt dir posicion s)
