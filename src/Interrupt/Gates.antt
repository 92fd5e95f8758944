-- ===== src/Interrupt/Gates.antt =====
-- What stands in the gates that `setIdt` fills.
use soa_ze_os.Prelude.{ℕ, ◌+◌, ◌*◌, ◌/◌, ◌%◌, ◌^◌, ◌<◌, ◌≡◌, ◌≢◌, refl, true, arith, ◌==◌}
use soa_ze_os.Interrupt.{Gate, kernel_cs, low_word, high_word, set_interrupt_handler, set_idt}

-- The processor's reading of a gate: the handler's address and its fields.
abbrev pub handler_of : Gate → ℕ
handler_of g = g.high_offset * 2 ^ 16 + g.low_offset

abbrev pub dpl_of : Gate → ℕ
dpl_of g = g.flags / 2 ^ 13 % 4

abbrev pub is_present : Gate → ℕ
is_present g = g.flags / 2 ^ 15

-- A present interrupt gate of 32 bits to the handler in the kernel's code, for the kernel's own use.
pub record IsKernelGate (handler : ℕ) (g : Gate) : Type 0 where
  pub to : handler_of g ≡ handler
  pub segment : g.segment_selector ≡ kernel_cs
  pub present : is_present g ≡ 1
  pub dpl : dpl_of g ≡ 0
  pub kind : g.flags / 2 ^ 8 % 2 ^ 5 ≡ 0x0E

word_split :
    (handler : ℕ) → handler < 2 ^ 32 → high_word handler * 2 ^ 16 + low_word handler ≡ handler
word_split handler h = omega arith

set_interrupt_handler-IsKernelGate :
    (vector handler : ℕ) (idt : ℕ → Gate)
    → handler < 2 ^ 32
    → IsKernelGate handler (set_interrupt_handler vector handler 0 idt vector)
unfolding set_interrupt_handler
set_interrupt_handler-IsKernelGate vector handler idt h =
    let here : (vector == vector) ≡ true = ground arith in
    rw (here)
      record { to = word_split handler h; segment = refl; present = refl; dpl = refl; kind = refl }

-- After `setIdt` the vectors 14, 32 and 33 lead to the handlers of page faults, the clock and the
-- keyboard, by present 32-bit interrupt gates of privilege 0 in the kernel's code; every other vector
-- is as the library's `set_handlers` left it.
pub set_idt_lem :
    (set_handlers : (ℕ → Gate) → ℕ → Gate) (clock_handler keyboard_handler pagefault_handler : ℕ)
    (idt : ℕ → Gate)
    → clock_handler < 2 ^ 32
    → keyboard_handler < 2 ^ 32
    → pagefault_handler < 2 ^ 32
    → let idt' = set_idt set_handlers clock_handler keyboard_handler pagefault_handler idt in
      IsKernelGate pagefault_handler (idt' 14)
      × IsKernelGate clock_handler (idt' 32)
      × IsKernelGate keyboard_handler (idt' 33)
      × ((v : ℕ) → v ≢ 14 → v ≢ 32 → v ≢ 33 → idt' v ≡ set_handlers idt v)
unfolding set_idt set_interrupt_handler
set_idt_lem set_handlers clock_handler keyboard_handler pagefault_handler idt hc hk hp = (
  set_interrupt_handler-IsKernelGate 14 pagefault_handler idt hp,
  set_interrupt_handler-IsKernelGate 32 clock_handler idt hc,
  set_interrupt_handler-IsKernelGate 33 keyboard_handler idt hk,
  λ v a b c. ground arith,
)
