-- ===== src/Boot.antt =====
-- The start of the kernel, `main` of practica/zeos/system.c: paging and the segment tables of mm.c, and
-- the shared memory of sched.c.
pub mod Region
pub mod Shared
mod Tests
use Prim.Native.Nat.{bit_or}
use soa_ze_os.Prelude.{
  ℕ, zero, suc, ◌+◌, ◌-◌, ◌*◌, ◌/◌, ◌%◌, ◌^◌, Bool, true, false, Option, none, some, List, [], ◌∷◌,
  ◌==◌, if◌then◌else◌, rounds, get_or, set, length,
}
use soa_ze_os.Prelude.Int.{ℤ, pos, negsuc, eqb_ℤ}
use soa_ze_os.Layout.{Layout, task_addr}
use soa_ze_os.Mm.Frames.{init_frames, alloc_frame}
use soa_ze_os.Mm.Paging.{
  Memory, allocate_dir, init_dir_pages, init_table_pages, l_user_start, num_pag_code, num_pag_data,
}
use soa_ze_os.Io.{printk}
use soa_ze_os.Kernel.{Kernel, ShmMem, Cmd, ◌>>=◌, ◌>>◌, modify, put_task}
use soa_ze_os.Sched.{kernel_stack_size}
use soa_ze_os.Sched.Boot.{init_sched, init_idle, init_task1}
use soa_ze_os.Sys.Shm.{no_region, region}

-- `Descriptor` and `Register`
pub record Descriptor : Type 0 where
  pub limit : ℕ
  pub low_base : ℕ
  pub mid_base : ℕ
  pub flags1 : ℕ
  pub flags2 : ℕ
  pub high_base : ℕ

pub record Register : Type 0 where
  pub limit : ℕ
  pub base : ℕ

abbrev pub kernel_tss : ℕ
kernel_tss = 0x30

abbrev pub gdt_start : ℕ
gdt_start = 0x901b3

-- `setGdt`: the base of the task state segment in its descriptor, and the register; a descriptor has 8
-- bytes.
unfoldable pub set_gdt : (tss : ℕ) → (ℕ → Descriptor) → (ℕ → Descriptor) × Register
set_gdt tss gdt = (
  λ i.
      if i == kernel_tss / 2 ^ 3
      then record (gdt i) {
        low_base = tss % 2 ^ 16;
        mid_base = tss / 2 ^ 16 % 2 ^ 8;
        high_base = tss / 2 ^ 24 % 2 ^ 8;
      }
      else gdt i,
  record { limit = 256 * 8; base = gdt_start },
)

-- `TSS`; its fields for padding are left out.
pub record Tss : Type 0 where
  pub previous_task_link : ℕ
  pub esp0 : ℕ
  pub ss0 : ℕ
  pub esp1 : ℕ
  pub ss1 : ℕ
  pub esp2 : ℕ
  pub ss2 : ℕ
  pub cr3 : ℕ
  pub eip : ℕ
  pub e_flags : ℕ
  pub eax : ℕ
  pub ecx : ℕ
  pub edx : ℕ
  pub ebx : ℕ
  pub esp : ℕ
  pub ebp : ℕ
  pub esi : ℕ
  pub edi : ℕ
  pub es : ℕ
  pub cs : ℕ
  pub ss : ℕ
  pub ds : ℕ
  pub fs : ℕ
  pub gs : ℕ
  pub ldt_segment_selector : ℕ
  pub debug_trap : ℕ
  pub io_map_base_address : ℕ

abbrev pub kernel_ds : ℕ
kernel_ds = 0x18

abbrev pub user_cs : ℕ
user_cs = 0x23

abbrev pub user_ds : ℕ
user_ds = 0x2B

-- `USER_ESP`
abbrev pub user_esp : ℕ
user_esp = l_user_start + (num_pag_code + num_pag_data) * 0x1000 - 16

-- `setTSS`; the stack of the kernel is that of task 1. The task register gets `KERNEL_TSS`.
unfoldable pub set_tss : Layout → Tss
set_tss l = record {
  previous_task_link = 0;
  esp0 = task_addr l 1 + 4 * kernel_stack_size;
  ss0 = kernel_ds;
  esp1 = 0;
  ss1 = 0;
  esp2 = 0;
  ss2 = 0;
  cr3 = 0;
  eip = 0;
  e_flags = 0x200;
  eax = 0;
  ecx = 0;
  edx = 0;
  ebx = 0;
  esp = user_esp;
  ebp = user_esp;
  esi = 0;
  edi = 0;
  es = user_ds;
  cs = user_cs;
  ss = user_ds;
  ds = user_ds;
  fs = 0;
  gs = 0;
  ldt_segment_selector = kernel_tss;
  debug_trap = 0;
  io_map_base_address = 0;
}

-- `set_pe_flag`, on the register cr0.
unfoldable pub set_pe_flag : ℕ → ℕ
set_pe_flag cr0 = bit_or cr0 0x80000000

-- `init_mm` but for the flag in cr0.
unfoldable pub init_mm : Layout → Kernel → Kernel
init_mm l k =
    let t = task_addr l 0 in
    let dir = allocate_dir l t in
    record (put_task t (record (k.task t) { dir_pages_base_addr = dir }) k) {
      memory = record {
        phys_mem = init_frames k.memory.phys_mem;
        entries = init_dir_pages l (init_table_pages l k.memory.entries);
      };
      cr3 = dir;
    }

-- "Error al alocatar las paginas"
abbrev pub message : List ℕ
message =
    69 ∷ 114 ∷ 114 ∷ 111 ∷ 114 ∷ 32 ∷ 97 ∷ 108 ∷ 32 ∷ 97 ∷ 108 ∷ 111 ∷ 99 ∷ 97 ∷ 116 ∷ 97 ∷ 114 ∷ 32
    ∷ 108 ∷ 97 ∷ 115 ∷ 32 ∷ 112 ∷ 97 ∷ 103 ∷ 105 ∷ 110 ∷ 97 ∷ 115 ∷ []

abbrev pub put_region : (i : ℕ) → ShmMem → Kernel → Kernel
put_region i r k = record k { shm_mem = set k.shm_mem i r }

-- What region `i` gets of a call of `alloc_frame`.
unfoldable pub take_frame : (i : ℕ) → (new_ph_pag : ℤ) → Kernel → Kernel
take_frame i new_ph_pag k =
    if eqb_ℤ new_ph_pag (negsuc 0)
    then record k { screen = printk message k.screen }
    else put_region i (record (region i k) { shm_mem_frame_addr = new_ph_pag; referencias = pos 0 })
        k

-- One round of `init_shared_memory`.
unfoldable pub init_region : (i : ℕ) → Kernel → Kernel
init_region i k =
    let cleared = put_region i (record (region i k) { shm_mem_frame_addr = pos 0 }) k in
    let (new_ph_pag, phys_mem) = alloc_frame k.memory.phys_mem in
    take_frame i new_ph_pag (record cleared { memory = record k.memory { phys_mem = phys_mem } })

unfoldable pub init_shared_memory : Kernel → Kernel
init_shared_memory k = rounds (length k.shm_mem) 0 init_region k
