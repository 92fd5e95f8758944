-- ===== src/Interrupt/PageFault/Routine.antt =====
-- The page fault's routine: what becomes of the page, its frame and the other processes' data.
use soa_ze_os.Prelude.{ℕ, ◌-◌, ◌^◌, ◌≤◌, ◌<◌, ◌≡◌, ◌≢◌, ◌⊎◌, get_or}
use soa_ze_os.Mm.Frames.{PhysMem, unshare_frame}
use soa_ze_os.Mm.Frames.Alloc.{IsUserFrame}
use soa_ze_os.Mm.Paging.{entry_addr, read_entry}
use soa_ze_os.Interrupt.PageFault.{Machine, FaultEnd, resumed, halted, pagina_a_usar, message}
use soa_ze_os.Interrupt.PageFault.Unshare.{user_entry}
use soa_ze_os.Io.{printk}
use soa_ze_os.Interrupt.PageFault.MovePage.{frame_of, sharers, Unshared}

-- The page's entry allows writes, and nothing else has changed.
pub record Allowed (pt p : ℕ) (s t : Machine) : Type 0 where
  pub entry :
      read_entry pt p t.memory.entries ≡ record (read_entry pt p s.memory.entries) { rw = 1 }
  pub others : (a : ℕ) → a ≢ entry_addr pt p → t.memory.entries a ≡ s.memory.entries a
  pub frames : t.memory.phys_mem ≡ s.memory.phys_mem
  pub same_ram : t.ram ≡ s.ram

-- How the routine ends, by the number of sharers of the page's frame.
abbrev pub Outcome : (pt dir p : ℕ) → (s : Machine) → FaultEnd → Type 0
Outcome pt dir p s r =
    ((sharers pt p s ≡ 0) × (r ≡ halted (record s { screen = printk message s.screen })))
    ⊎ ((sharers pt p s ≡ 1) × (t : Machine) × (r ≡ resumed t) × Allowed pt p s t)
    ⊎ ((2 ≤ sharers pt p s) × (f : ℕ) × (t : Machine) × (r ≡ resumed t) × Unshared pt dir p f s t)
    ⊎ ((2 ≤ sharers pt p s)
        × ((j : ℕ) → IsUserFrame j → get_or s.memory.phys_mem j 0 ≢ 0)
        × (t : Machine) × (r ≡ resumed t)
        × (read_entry pt p t.memory.entries ≡ user_entry (2 ^ 32 - 1)))

module _ (pt dir p : ℕ) (s : Machine) (lt : p < 2 ^ 20) (apart : p ≢ pagina_a_usar) where
  abbrev unshared_frames : PhysMem
  unshared_frames = unshare_frame (frame_of pt p s) s.memory.phys_mem
