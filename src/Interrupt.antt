-- ===== src/Interrupt.antt =====
-- The interrupt service routines and the gates of practica/zeos/interrupt.c.
pub mod Keyboard
pub mod Clock
pub mod Gates
pub mod PageFault
mod Tests
use Prim.Native.Nat.{bit_or}
use soa_ze_os.Prelude.{
  ℕ, suc, ◌+◌, ◌-◌, ◌*◌, ◌/◌, ◌%◌, ◌^◌, Bool, true, false, Option, List, [], ◌∷◌, ltb, leb, ◌==◌,
  if◌then◌else◌, get_or,
}
use soa_ze_os.Layout.{Layout, task_addr}
use soa_ze_os.CBuffer.{CircularBuffer, init_buffer, enqueue}
use soa_ze_os.Io.{Screen}
use soa_ze_os.Kernel.{Kernel, Cmd, ◌>>=◌, ◌>>◌, modify}
use soa_ze_os.Sched.{schedule, kernel_stack_size}

-- The characters of the keys, as bytes. The constants that hold three bytes, for the letters out of
-- ASCII, leave the last of them.
abbrev pub char_map : List ℕ
char_map =
    0 ∷ 0 ∷ 49 ∷ 50 ∷ 51 ∷ 52 ∷ 53 ∷ 54 ∷ 55 ∷ 56 ∷ 57 ∷ 48 ∷ 39 ∷ 189 ∷ 0 ∷ 0 ∷ 113 ∷ 119 ∷ 101
    ∷ 114 ∷ 116 ∷ 121 ∷ 117 ∷ 105 ∷ 111 ∷ 112 ∷ 96 ∷ 43 ∷ 0 ∷ 0 ∷ 97 ∷ 115 ∷ 100 ∷ 102 ∷ 103 ∷ 104
    ∷ 106 ∷ 107 ∷ 108 ∷ 189 ∷ 0 ∷ 189 ∷ 0 ∷ 189 ∷ 122 ∷ 120 ∷ 99 ∷ 118 ∷ 98 ∷ 110 ∷ 109 ∷ 44 ∷ 46
    ∷ 45 ∷ 0 ∷ 42 ∷ 0 ∷ 0 ∷ 0 ∷ 0 ∷ 0 ∷ 0 ∷ 0 ∷ 0 ∷ 0 ∷ 0 ∷ 0 ∷ 0 ∷ 0 ∷ 0 ∷ 0 ∷ 55 ∷ 56 ∷ 57 ∷ 45
    ∷ 52 ∷ 53 ∷ 54 ∷ 43 ∷ 49 ∷ 50 ∷ 51 ∷ 48 ∷ 0 ∷ 0 ∷ 0 ∷ 60 ∷ 0 ∷ 0 ∷ 0 ∷ 0 ∷ 0 ∷ 0 ∷ 0 ∷ 0 ∷ 0 ∷ 0
    ∷ 0 ∷ []

-- The keyboard buffer is set up when the first byte comes.
unfoldable pub set_up : Kernel → Kernel
set_up k = if k.is_defined then k else record k { cb = init_buffer k.cb; is_defined = true }

-- `keyboard_routine`, from the byte `c` of the keyboard's port. The index goes up to 127: `beyond`
-- stands for the memory behind the 98 characters of the map.
unfoldable pub keyboard_routine : (beyond : ℕ → ℕ) (c : ℕ) → Kernel → Kernel
unfolding set_up
keyboard_routine beyond c k =
    let ready : Kernel = set_up k in
    let key = c % 0x80 in
    if leb 0x80 (c % 2 ^ 8)
    then record ready {
      cb = enqueue ready.cb (if ltb key 98 then get_or char_map key 0 else beyond key);
    }
    else ready

-- `clock_routine`; `zeos_show_clock` is a function of a library, on the screen.
unfoldable pub clock_routine :
    (l : Layout) (zeos_show_clock : Screen → Screen) (ebp : ℕ) → Cmd (Unit {0})
clock_routine l zeos_show_clock ebp = do
  modify λ k. record k { screen = zeos_show_clock k.screen }
  modify λ k. record k { zeos_ticks = k.zeos_ticks + 1 }
  schedule l ebp

-- `Gate`
pub record Gate : Type 0 where
  pub low_offset : ℕ
  pub segment_selector : ℕ
  pub flags : ℕ
  pub high_offset : ℕ

abbrev pub low_word : ℕ → ℕ
low_word address = address % 2 ^ 16

abbrev pub high_word : ℕ → ℕ
high_word address = address / 2 ^ 16 % 2 ^ 16

abbrev pub kernel_cs : ℕ
kernel_cs = 0x10

-- `setInterruptHandler`, on the table `idt`.
unfoldable pub set_interrupt_handler :
    (vector handler max_accessible_from_pl : ℕ) → (ℕ → Gate) → ℕ → Gate
set_interrupt_handler vector handler max_accessible_from_pl idt v =
    if v == vector
    then record {
      low_offset = low_word handler;
      segment_selector = kernel_cs;
      flags = bit_or (max_accessible_from_pl * 2 ^ 13 % 2 ^ 16) 0x8E00;
      high_offset = high_word handler;
    }
    else idt v

-- `setTrapHandler` fills the gate like an interrupt's.
unfoldable pub set_trap_handler :
    (vector handler max_accessible_from_pl : ℕ) → (ℕ → Gate) → ℕ → Gate
set_trap_handler vector handler max_accessible_from_pl idt v =
    if v == vector
    then record {
      low_offset = low_word handler;
      segment_selector = kernel_cs;
      flags = bit_or (max_accessible_from_pl * 2 ^ 13 % 2 ^ 16) 0x8E00;
      high_offset = high_word handler;
    }
    else idt v

-- `setSysenter`, on the low words of the model specific registers; their high words are 0. The stack is
-- the kernel's of task 1.
unfoldable pub set_sysenter : Layout → (system_call_handler : ℕ) → (ℕ → ℕ) → ℕ → ℕ
set_sysenter l system_call_handler msr r =
    if r == 0x174
    then kernel_cs
    else if r == 0x175
    then task_addr l 1 + 4 * kernel_stack_size
    else if r == 0x176
    then system_call_handler
    else msr r

-- `setIdt`: the library's handlers, the addresses of the routines' entries, without `setSysenter`.
unfoldable pub set_idt :
    (set_handlers : (ℕ → Gate) → ℕ → Gate) (clock_handler keyboard_handler pagefault_handler : ℕ)
    → (ℕ → Gate)
    → ℕ
    → Gate
unfolding set_interrupt_handler
set_idt set_handlers clock_handler keyboard_handler pagefault_handler idt =
    set_interrupt_handler 14 pagefault_handler 0 (
      set_interrupt_handler 33 keyboard_handler 0
        (set_interrupt_handler 32 clock_handler 0 (set_handlers idt)))
