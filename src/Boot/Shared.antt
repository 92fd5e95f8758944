-- ===== src/Boot/Shared.antt =====
-- `init_shared_memory` of practica/zeos/sched.c gives every region a frame of its own.
use soa_ze_os.Prelude.{ℕ, ◌<◌, ◌≡◌, ◌⊎◌, length}
use soa_ze_os.Prelude.Int.{pos}
use soa_ze_os.Kernel.{Kernel}
use soa_ze_os.Boot.Region.{frame_addr, InUse, Holds, Unserved}

-- The regions before `i` have been served, in a kernel that was `k₀`.
pub record Served (k₀ : Kernel) (i : ℕ) (k : Kernel) : Type 0 where
  pub size : length k.shm_mem ≡ length k₀.shm_mem
  pub frames : length k.memory.phys_mem ≡ length k₀.memory.phys_mem
  pub entries : k.memory.entries ≡ k₀.memory.entries
  pub grows : (f : ℕ) → InUse f k₀.memory.phys_mem → InUse f k.memory.phys_mem
  pub served : (j : ℕ) → j < i → Unserved j k ⊎ Holds j k₀.memory.phys_mem k
  pub apart : (a b : ℕ) → a < b → b < i → frame_addr a k ≡ frame_addr b k → frame_addr a k ≡ pos 0
  pub links : k.links ≡ k₀.links
