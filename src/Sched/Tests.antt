-- ===== src/Sched/Tests.antt =====
-- The scheduler's theorems at a kernel with three tasks.
use soa_ze_os.Prelude.{
  ℕ, ◌+◌, ◌≡◌, refl, true, false, some, [], ◌∷◌, arith, ◌==◌, if◌then◌else◌, ◌⊎◌, inl, inr,
}
use soa_ze_os.Prelude.Int.{ℤ, pos}
use soa_ze_os.Links.{Links}
use soa_ze_os.Links.Chain.{has}
use soa_ze_os.Layout.{Layout}
use soa_ze_os.Mm.Paging.{zero_entry}
use soa_ze_os.Kernel.{◌>>◌, Kernel, Task, st_run, st_ready, current}
use soa_ze_os.Sched.{schedule}
use soa_ze_os.Sched.Spec.{Robin, tick}
use soa_ze_os.Sched.Inv.{IsResumable, IsSched}
use soa_ze_os.Sched.Tick.{schedule_lem}
use soa_ze_os.Sched.Fair.{Ticks, waits_lem}

abbrev pub layout : Layout
layout = record {
  protected_tasks = 0x10000;
  dir_pages = 0x20000;
  pagusr_table = 0x30000;
  freequeue = 0x40000;
  readyqueue = 0x40100;
}

-- Tasks 0x12000 and 0x13000 are ready, 0x11000 runs, and 0x14000 is free.
abbrev pub links : Links
links = record {
  next = λ a.
      if a == 0x40100
      then 0x12008
      else if a == 0x12008
      then 0x13008
      else if a == 0x13008
      then 0x40100
      else if a == 0x40000
      then 0x14008
      else if a == 0x14008
      then 0x40000
      else 0;
  prev = λ a.
      if a == 0x40100
      then 0x13008
      else if a == 0x12008
      then 0x40100
      else if a == 0x13008
      then 0x12008
      else if a == 0x40000
      then 0x14008
      else if a == 0x14008
      then 0x40000
      else 0;
}

abbrev pub task_at : ℕ → Task
task_at t = record {
  pid = pos 1;
  dir_pages_base_addr = t + 0x10000;
  register_esp = t + 4000;
  state = if t == 0x11000 then st_run else st_ready;
  total_quantum = pos 10;
  p_stats = record {
    user_ticks = 0;
    system_ticks = 0;
    blocked_ticks = 0;
    ready_ticks = 0;
    elapsed_total_ticks = 0;
    total_trans = 0;
    remaining_ticks = 0;
  };
}

abbrev pub kernel : Kernel
kernel = record {
  links = links;
  task = task_at;
  bytes = λ a. 0;
  remaining_quantum = pos 3;
  idle_task = 0x1A000;
  global_pid = pos 1000;
  zeos_ticks = 0;
  shm_mem = [];
  memory = record { phys_mem = []; entries = λ a. zero_entry };
  cb = record { buffer = []; read_index = 0; write_index = 0; count = 0 };
  is_defined = false;
  screen = record { x = 0; y = 0; color = 0; vga = λ i. 0; log = [] };
  stack_page = 0x11000;
  esp0 = 0x12000;
  msr_esp = 0x12000;
  cr3 = 0x21000;
  tsc = λ n. (n, 0);
  tsc_reads = 0;
}

abbrev pub robin : Robin
robin = record { running = 0x11000; ready = 0x12000 ∷ 0x13000 ∷ []; quantum = pos 3 }

abbrev pub ten : ℕ → ℤ
ten t = pos 10

ready_place : (t : ℕ) → has t (0x12000 ∷ 0x13000 ∷ []) ≡ true → (t ≡ 0x12000) ⊎ (t ≡ 0x13000)
ready_place t m = ground arith

at-IsResumable : (t : ℕ) → has t (0x12000 ∷ 0x13000 ∷ []) ≡ true → IsResumable t kernel
at-IsResumable t m = record {
  aligned = elim (ready_place t m) [ inl e ↦ omega arith | inr e ↦ omega arith ];
  own_stack = elim (ready_place t m) [ inl e ↦ omega arith | inr e ↦ omega arith ];
  state_ready = ground arith;
}

pub kernel-IsSched : IsSched layout ten (0x14000 ∷ []) robin kernel
kernel-IsSched = record {
  ready_queue = record {
    chain = (refl, refl, (refl, refl, (refl, refl)));
    distinct = (refl, (refl, (refl, tt)));
    not_null = refl;
  };
  free_queue = record {
    chain = (refl, refl, (refl, refl));
    distinct = (refl, (refl, tt));
    not_null = refl;
  };
  apart = λ a m. ground arith;
  not_ready = refl;
  not_free = refl;
  on_stack = refl;
  aligned = refl;
  state_run = refl;
  quanta = λ t. refl;
  quantum = refl;
  resumable = at-IsResumable;
}

schedule_lem_example :
    (k' : Kernel) × (schedule layout 0x11F00 kernel ≡ some (tt, k'))
    × IsSched layout ten (0x14000 ∷ []) (tick ten robin) k'
schedule_lem_example = schedule_lem 0x11F00 kernel-IsSched refl

-- Task 0x13000 runs after 3 + 10 ticks.
waits_lem_example :
    ((k' : Kernel) × Ticks layout 13 kernel k')
    × ((k' : Kernel) → Ticks layout 13 kernel k' → current k' ≡ 0x13000)
waits_lem_example =
    waits_lem (λ t. 9) 2 (0x12000 ∷ []) [] 0x13000 0x11000 (λ x. refl) kernel-IsSched

-- The processor stands on the stack of task 1.
abbrev at_boot : Kernel
at_boot = record kernel { stack_page = 0x12000 }
