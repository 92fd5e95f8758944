-- ===== src/Kernel/Tasks.antt =====
-- What charging time to a task leaves alone.
use soa_ze_os.Prelude.{ℕ, ◌+◌, ◌≡◌, refl, some, arith}
use soa_ze_os.Kernel.{Kernel, Task, Stats, read_ticks, put_task, charge}
use soa_ze_os.Utils.{get_ticks}

-- What `charge` makes of the kernel.
unfoldable pub charged : (ℕ → Stats → Stats) → ℕ → Kernel → Kernel
charged account t k =
    let now = get_ticks (k.tsc k.tsc_reads).0 (k.tsc k.tsc_reads).1 in
    put_task t (record (k.task t) { p_stats = account now (k.task t).p_stats })
      (record k { tsc_reads = k.tsc_reads + 1 })

pub charge-charged :
    (account : ℕ → Stats → Stats) (t : ℕ) (k : Kernel)
    → charge account t k ≡ some (tt, charged account t k)
unfolding charge charged read_ticks
charge-charged account t k = refl

-- The fields of a task that the scheduler goes by.
pub record SameTask (a b : Task) : Type 0 where
  pub pid : a.pid ≡ b.pid
  pub dir : a.dir_pages_base_addr ≡ b.dir_pages_base_addr
  pub esp : a.register_esp ≡ b.register_esp
  pub state : a.state ≡ b.state
  pub quantum : a.total_quantum ≡ b.total_quantum

pub charged-SameTask :
    (account : ℕ → Stats → Stats) (t : ℕ) (k : Kernel) (x : ℕ)
    → SameTask ((charged account t k).task x) (k.task x)
unfolding charged put_task
charged-SameTask account t k x = record {
  pid = ground arith;
  dir = ground arith;
  esp = ground arith;
  state = ground arith;
  quantum = ground arith;
}
