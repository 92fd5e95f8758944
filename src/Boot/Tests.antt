-- ===== src/Boot/Tests.antt =====
-- The shared memory's theorem at a kernel with two regions.
use soa_ze_os.Prelude.{[], ◌∷◌, replicate}
use soa_ze_os.Mm.Frames.{total_pages}
use soa_ze_os.Kernel.{Kernel}
use soa_ze_os.Sys.Shm.{no_region}
use soa_ze_os.Sched.Tests.{kernel}

abbrev two_regions : Kernel
two_regions = record kernel {
  shm_mem = no_region ∷ no_region ∷ [];
  memory = record kernel.memory { phys_mem = replicate total_pages 0 };
}
