-- ===== src/Sys/Stats.antt =====
-- `sys_get_stats` of practica/zeos/sys.c.
pub mod Words
pub mod Found
use soa_ze_os.Prelude.{
  ℕ, zero, suc, ◌+◌, ◌*◌, Bool, true, false, not, Option, none, some, if◌then◌else◌,
}
use soa_ze_os.Prelude.Int.{ℤ, pos, ltb_ℤ, eqb_ℤ}
use soa_ze_os.Layout.{Layout, task_addr, nr_tasks}
use soa_ze_os.Mm.Paging.{to_unsigned}
use soa_ze_os.Utils.{Bytes, verify_write}
use soa_ze_os.Kernel.{Kernel, Stats, put_task}
use soa_ze_os.Sched.Boot.{put_dword}
use soa_ze_os.Sys.{accepts, err, efault, einval}

abbrev pub esrch : ℕ
esrch = 3

-- `sizeof(struct stats)`
abbrev pub stats_size : ℕ
stats_size = 28

-- The seven words of a `struct stats`, as `copy_to_user` leaves them.
unfoldable pub write_stats : (st : ℕ) → Stats → Bytes → Bytes
write_stats st s m = put_dword (st + 24) s.remaining_ticks (
    put_dword (st + 20) s.total_trans (
      put_dword (st + 16) s.elapsed_total_ticks (
        put_dword (st + 12) s.ready_ticks (
          put_dword (st + 8) s.blocked_ticks
            (put_dword (st + 4) s.system_ticks (put_dword st s.user_ticks m))))))

-- What the call does for the task that it has found.
unfoldable pub report : (st t : ℕ) → Kernel → ℤ × Kernel
report st t k =
    let stats : Stats = record (k.task t).p_stats {
      remaining_ticks = to_unsigned k.remaining_quantum;
    } in
    (
      pos 0,
      put_task t (record (k.task t) { p_stats = stats })
          (record k { bytes = write_stats st stats k.bytes }),
    )

abbrev pub report_found : (st : ℕ) → Kernel → Option ℕ → ℤ × Kernel
report_found st k none = (err esrch, k)
report_found st k (some t) = report st t k

module _ (l : Layout) where
  -- The loop over the tasks from number `i` on.
  unfoldable pub find_task : (rounds i : ℕ) (pid : ℤ) → Kernel → Option ℕ
  find_task zero i pid k = none
  find_task (suc n) i pid k =
      let rest = find_task n (i + 1) pid k in
      if eqb_ℤ (k.task (task_addr l i)).pid pid then some (task_addr l i) else rest

  unfoldable pub sys_get_stats : (pid : ℤ) (st : ℕ) → Kernel → ℤ × Kernel
  sys_get_stats pid st k =
      if not (accepts verify_write st (pos stats_size) k)
      then (err efault, k)
      else if ltb_ℤ pid (pos 0)
      then (err einval, k)
      else report_found st k (find_task nr_tasks 0 pid k)
