-- ===== src/Sys/Tests.antt =====
-- The system calls' theorems at small kernels.
use soa_ze_os.Prelude.{ℕ, ◌≡◌, refl, some, ◌⊎◌, inl, inr, true, [], ◌∷◌, arith, replicate}
use soa_ze_os.Prelude.Int.{pos}
use soa_ze_os.CBuffer.Inv.{IsValid}
use soa_ze_os.Mm.Paging.{zero_entry}
use soa_ze_os.Utils.{verify_write, access_ok}
use soa_ze_os.Kernel.{Kernel}
use soa_ze_os.Sched.Inv.{IsSched}
use soa_ze_os.Sched.Tests.{layout, ten, kernel, kernel-IsSched}
use soa_ze_os.Sys.Process.{sys_exit}
use soa_ze_os.Sys.Process.Exit.{sys_exit_lem}
use soa_ze_os.Sys.{sys_write, sys_read, sys_gotoxy, accepts, err, einval}
use soa_ze_os.Sys.Write
use soa_ze_os.Sys.Write.{sys_write_lem}
use soa_ze_os.Sys.Read.{Delivered, sys_read_lem}
use soa_ze_os.Sys.Place.{Placed, IsOff, sys_gotoxy_lem}
use soa_ze_os.Sys.Console.{Confined, write, gotoxy, set_color, calls, calls-Confined}
use soa_ze_os.Sys.Shm.{sys_shmat, sys_shmdt}
use soa_ze_os.Sys.Stats.{sys_get_stats}
use soa_ze_os.Sys.Stats.Found
use soa_ze_os.Sys.Stats.Found.{IsSmall, reported, sys_get_stats_lem}
use soa_ze_os.Sys.Shm.Detach
use soa_ze_os.Sys.Shm.Detach.{sys_shmdt_lem}
use soa_ze_os.Sys.Shm.Attach
use soa_ze_os.Sys.Shm.Attach.{sys_shmat_lem}

-- Every page is on frame 300, and two characters wait.
abbrev mapped : Kernel
mapped = record kernel {
  memory = record {
    phys_mem = [];
    entries = λ a. record zero_entry { present = 1; pbase_addr = 300 };
  };
  cb = record { buffer = 97 ∷ 98 ∷ replicate 2046 0; read_index = 0; write_index = 2; count = 2 };
}

-- 1300 bytes go to the console in three pieces.
sys_write_lem_example :
    Write.Outcome 0x11800 0x108000
      (pos 1)
      (pos 1300)
      mapped
      (sys_write 0x11800 (pos 1) 0x108000 (pos 1300) mapped)
sys_write_lem_example =
    sys_write_lem 0x11800 0x108000 (pos 1) (pos 1300) mapped (inr (omega arith))
      record { column = omega arith; row = omega arith }

mapped-IsValid : IsValid mapped.cb
mapped-IsValid = record {
  storage = refl;
  read_in = omega arith;
  write_in = omega arith;
  count_in = omega arith;
  apart = refl;
}

accepted : accepts verify_write 0x109000 (pos 5) mapped ≡ true
unfolding accepts access_ok
accepted = refl

sys_read_lem_example :
    ((sys_read 0 0x11800 0x109000 (pos 5) mapped).0 ≡ pos 2)
    × Delivered 0x11800 0x109000 2 mapped (sys_read 0 0x11800 0x109000 (pos 5) mapped).1
sys_read_lem_example =
    sys_read_lem 0 0x11800 0x109000 5 mapped (inl (omega arith)) mapped-IsValid accepted

sys_gotoxy_lem_example :
    Placed (pos 79) (pos 24) (sys_gotoxy (pos 79) (pos 24) kernel)
    ⊎ (IsOff (pos 79) (pos 24) × (sys_gotoxy (pos 79) (pos 24) kernel ≡ (err einval, kernel)))
sys_gotoxy_lem_example = sys_gotoxy_lem (pos 79) (pos 24) kernel

-- A text in red, with two calls that are refused.
calls-Confined_example :
    let after =
      calls
        (gotoxy (pos 79) (pos 24)
          ∷ set_color (pos 4) (pos 0)
          ∷ write 0x11800 (pos 1) 0x108000 (pos 1300)
          ∷ gotoxy (pos 80) (pos 0)
          ∷ set_color (pos 16) (pos 0)
          ∷ [])
        mapped in
    Confined mapped.screen after.screen
calls-Confined_example =
    calls-Confined
      (gotoxy (pos 79) (pos 24)
        ∷ set_color (pos 4) (pos 0)
        ∷ write 0x11800 (pos 1) 0x108000 (pos 1300)
        ∷ gotoxy (pos 80) (pos 0)
        ∷ set_color (pos 16) (pos 0)
        ∷ [])
      mapped record { column = omega arith; row = omega arith }

-- Ten regions, and no page that is present.
abbrev regions : Kernel
regions = record kernel {
  shm_mem =
      replicate 10 (record { shm_mem_frame_addr = pos 400; referencias = pos 0; a_borrar = pos 0 });
}

sys_shmat_lem_example : Attach.Outcome (pos 3) 0x12C000 regions (sys_shmat (pos 3) 0x12C000 regions)
sys_shmat_lem_example = sys_shmat_lem (pos 3) 0x12C000 regions (omega arith) refl

-- Task 0x11000 leaves, and 0x12000 goes on.
sys_exit_lem_example :
    (k' : Kernel) × (sys_exit layout 0x11F00 kernel ≡ some (tt, k'))
    × IsSched layout ten
        (0x14000 ∷ 0x11000 ∷ [])
        (record { running = 0x12000; ready = 0x13000 ∷ []; quantum = pos 10 })
        k'
sys_exit_lem_example = sys_exit_lem 0x11F00 kernel-IsSched

-- Task 0x14000 is the only free one; all frames are free.
abbrev with_frames : Kernel
with_frames = record kernel {
  memory = record { phys_mem = replicate 1024 0; entries = λ a. zero_entry };
}

-- Every region has frame 300, one reference, and is to be deleted.
abbrev doomed : Kernel
doomed = record mapped {
  shm_mem =
      replicate 10 (record { shm_mem_frame_addr = pos 300; referencias = pos 1; a_borrar = pos 1 });
}

sys_shmdt_lem_example : Detach.Outcome 300 0x12C000 doomed (sys_shmdt 0x12C010 doomed)
sys_shmdt_lem_example = sys_shmdt_lem 0x12C010 doomed refl

counters-IsSmall : (t : ℕ) → IsSmall (reported layout t mapped)
counters-IsSmall t = record {
  user_ticks = omega arith;
  system_ticks = omega arith;
  blocked_ticks = omega arith;
  ready_ticks = omega arith;
  elapsed_total_ticks = omega arith;
  total_trans = omega arith;
  remaining_ticks = omega arith;
}

-- All tasks of the sample have number 1.
sys_get_stats_lem_example :
    Found.Outcome layout (pos 1) 0x109000 mapped (sys_get_stats layout (pos 1) 0x109000 mapped)
sys_get_stats_lem_example = sys_get_stats_lem layout (pos 1) 0x109000 mapped counters-IsSmall
