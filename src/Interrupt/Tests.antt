-- ===== src/Interrupt/Tests.antt =====
-- The interrupt theorems at small kernels.
use soa_ze_os.Prelude.{ℕ, ◌≡◌, ◌≢◌, refl, inl, true, [], arith, replicate}
use soa_ze_os.CBuffer.Inv.{IsValid}
use soa_ze_os.CBuffer.Refine.{contents, push}
use soa_ze_os.Kernel.{Kernel}
use soa_ze_os.Sched.Tests.{kernel}
use soa_ze_os.Interrupt.{Gate, keyboard_routine, set_idt}
use soa_ze_os.Interrupt.Keyboard.{IsReady, keyboard_routine_lem}
use soa_ze_os.Interrupt.Gates.{IsKernelGate, set_idt_lem}

-- No byte has come from the keyboard yet.
abbrev fresh : Kernel
fresh = record kernel {
  cb = record { buffer = replicate 2048 0; read_index = 0; write_index = 0; count = 0 };
}

fresh-IsReady : IsReady fresh
fresh-IsReady = record { valid = inl refl; storage = refl }

-- The release of the key `q`, number 16.
keyboard_routine_lem_example :
    IsValid (keyboard_routine (λ i. 0) 0x90 fresh).cb
    × (contents (keyboard_routine (λ i. 0) 0x90 fresh).cb ≡ push [] 113)
    × ((keyboard_routine (λ i. 0) 0x90 fresh).is_defined ≡ true)
keyboard_routine_lem_example = keyboard_routine_lem (λ i. 0) 0x90 fresh fresh-IsReady

abbrev no_gate : Gate
no_gate = record { low_offset = 0; segment_selector = 0; flags = 0; high_offset = 0 }

abbrev gates : ℕ → Gate
gates = set_idt (λ idt. idt) 0x12345 0x22345 0x32345 (λ v. no_gate)

set_idt_lem_example :
    IsKernelGate 0x32345 (gates 14)
    × IsKernelGate 0x12345 (gates 32)
    × IsKernelGate 0x22345 (gates 33)
    × ((v : ℕ) → v ≢ 14 → v ≢ 32 → v ≢ 33 → gates v ≡ no_gate)
set_idt_lem_example =
    set_idt_lem (λ idt. idt) 0x12345 0x22345 0x32345 (λ v. no_gate) (omega arith) (omega arith)
      (omega arith)
