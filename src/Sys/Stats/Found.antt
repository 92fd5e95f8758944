-- ===== src/Sys/Stats/Found.antt =====
-- What `sys_get_stats` reports, and of which task.
use soa_ze_os.Prelude.{
  ℕ, zero, suc, ◌+◌, ◌*◌, ◌^◌, ◌≤◌, ◌<◌, ◌≡◌, refl, ap, sym, subst, ◌∙◌, ◌⊎◌, inl, inr, Bool-cases,
  Bool, true, false, Option, none, some, arith, ◌==◌,
}
use soa_ze_os.Prelude.Int.{ℤ, pos, neg_part, ltb_ℤ, eqb_ℤ}
use soa_ze_os.Layout.{Layout, task_addr, nr_tasks}
use soa_ze_os.Mm.Paging.{to_unsigned}
use soa_ze_os.Utils.{Bytes, verify_write}
use soa_ze_os.Kernel.{Kernel, Stats, put_task}
use soa_ze_os.Sched.Boot.{put_dword}
use soa_ze_os.Sys.{accepts, err, efault, einval}
use soa_ze_os.Sys.Fork.{get_dword}
use soa_ze_os.Sys.Stats.{
  esrch, stats_size, write_stats, report, report_found, find_task, sys_get_stats,
}
use soa_ze_os.Sys.Stats.Words.{get_dword-put_dword, get_dword-put_dword_ne}

-- Every counter fits an `unsigned long`.
pub record IsSmall (s : Stats) : Type 0 where
  pub user_ticks : s.user_ticks < 2 ^ 32
  pub system_ticks : s.system_ticks < 2 ^ 32
  pub blocked_ticks : s.blocked_ticks < 2 ^ 32
  pub ready_ticks : s.ready_ticks < 2 ^ 32
  pub elapsed_total_ticks : s.elapsed_total_ticks < 2 ^ 32
  pub total_trans : s.total_trans < 2 ^ 32
  pub remaining_ticks : s.remaining_ticks < 2 ^ 32

-- The words at `st` are those of the statistics, in the order of the struct.
pub record IsReport (st : ℕ) (s : Stats) (m : Bytes) : Type 0 where
  pub user_ticks : get_dword st m ≡ s.user_ticks
  pub system_ticks : get_dword (st + 4) m ≡ s.system_ticks
  pub blocked_ticks : get_dword (st + 8) m ≡ s.blocked_ticks
  pub ready_ticks : get_dword (st + 12) m ≡ s.ready_ticks
  pub elapsed_total_ticks : get_dword (st + 16) m ≡ s.elapsed_total_ticks
  pub total_trans : get_dword (st + 20) m ≡ s.total_trans
  pub remaining_ticks : get_dword (st + 24) m ≡ s.remaining_ticks

write_stats-IsReport :
    (st : ℕ) (s : Stats) (m : Bytes) → IsSmall s → IsReport st s (write_stats st s m)
unfolding write_stats
write_stats-IsReport st s m small =
    let skip : (j i v : ℕ) (m' : Bytes)
        → j < i
        → get_dword (st + 4 * j) (put_dword (st + 4 * i) v m') ≡ get_dword (st + 4 * j) m' =
      λ j i v m' lt. get_dword-put_dword_ne (st + 4 * j) (st + 4 * i) v m' (inl (omega arith)) in
    let first : (i v : ℕ) (m' : Bytes)
        → 0 < i
        → get_dword st (put_dword (st + 4 * i) v m') ≡ get_dword st m' =
      λ i v m' lt. get_dword-put_dword_ne st (st + 4 * i) v m' (inl (omega arith)) in
    record {
      user_ticks =
          first 6 s.remaining_ticks _ (omega arith)
          ∙ first 5 s.total_trans _ (omega arith)
          ∙ first 4 s.elapsed_total_ticks _ (omega arith)
          ∙ first 3 s.ready_ticks _ (omega arith)
          ∙ first 2 s.blocked_ticks _ (omega arith)
          ∙ first 1 s.system_ticks _ (omega arith)
          ∙ get_dword-put_dword st s.user_ticks _ small.user_ticks;
      system_ticks =
          skip 1 6 s.remaining_ticks _ (omega arith)
          ∙ skip 1 5 s.total_trans _ (omega arith)
          ∙ skip 1 4 s.elapsed_total_ticks _ (omega arith)
          ∙ skip 1 3 s.ready_ticks _ (omega arith)
          ∙ skip 1 2 s.blocked_ticks _ (omega arith)
          ∙ get_dword-put_dword (st + 4) s.system_ticks _ small.system_ticks;
      blocked_ticks =
          skip 2 6 s.remaining_ticks _ (omega arith)
          ∙ skip 2 5 s.total_trans _ (omega arith)
          ∙ skip 2 4 s.elapsed_total_ticks _ (omega arith)
          ∙ skip 2 3 s.ready_ticks _ (omega arith)
          ∙ get_dword-put_dword (st + 8) s.blocked_ticks _ small.blocked_ticks;
      ready_ticks =
          skip 3 6 s.remaining_ticks _ (omega arith)
          ∙ skip 3 5 s.total_trans _ (omega arith)
          ∙ skip 3 4 s.elapsed_total_ticks _ (omega arith)
          ∙ get_dword-put_dword (st + 12) s.ready_ticks _ small.ready_ticks;
      elapsed_total_ticks =
          skip 4 6 s.remaining_ticks _ (omega arith)
          ∙ skip 4 5 s.total_trans _ (omega arith)
          ∙ get_dword-put_dword (st + 16) s.elapsed_total_ticks _ small.elapsed_total_ticks;
      total_trans =
          skip 5 6 s.remaining_ticks _ (omega arith)
          ∙ get_dword-put_dword (st + 20) s.total_trans _ small.total_trans;
      remaining_ticks = get_dword-put_dword (st + 24) s.remaining_ticks _ small.remaining_ticks;
    }

module _ (l : Layout) where
  abbrev pub has_pid : (pid : ℤ) (i : ℕ) → Kernel → Bool
  has_pid pid i k = eqb_ℤ (k.task (task_addr l i)).pid pid

  -- What the loop finds: the first task with the number, from task `i` on.
  abbrev pub FirstTask : (pid : ℤ) (i : ℕ) → Kernel → Option ℕ → Type 0
  FirstTask pid i k none = (j : ℕ) → i ≤ j → j < nr_tasks → has_pid pid j k ≡ false
  FirstTask pid i k (some t) =
      (j : ℕ) × (t ≡ task_addr l j)
      × (i ≤ j)
      × (j < nr_tasks)
      × (has_pid pid j k ≡ true)
      × ((m : ℕ) → i ≤ m → m < j → has_pid pid m k ≡ false)

  FirstTask-step :
      (pid : ℤ) (i : ℕ) (k : Kernel) (o : Option ℕ)
      → has_pid pid i k ≡ false
      → FirstTask pid (i + 1) k o
      → FirstTask pid i k o
  FirstTask-step pid i k none other f = λ j ge lt. elim (Bool-cases (j == i)) [
    | inl here ↦ let e : j ≡ i = ground arith in ap (λ x. has_pid pid x k) e ∙ other
    | inr on ↦ f j (ground arith) lt
  ]
  FirstTask-step pid i k (some t) other (j, e, ge, lt, has, before) = (
    j,
    e,
    omega (arith, ge),
    lt,
    has,
    λ m ge' lt'. elim (Bool-cases (m == i)) [
      | inl here ↦ let e' : m ≡ i = ground arith in ap (λ x. has_pid pid x k) e' ∙ other
      | inr on ↦ before m (ground arith) lt'
    ],
  )

  find_task-FirstTask :
      (fuel i : ℕ) (pid : ℤ) (k : Kernel)
      → i + fuel ≡ nr_tasks
      → FirstTask pid i k (find_task l fuel i pid k)
  unfolding find_task
  find_task-FirstTask zero i pid k e = λ j ge lt. absurd (omega arith)
  find_task-FirstTask (suc fuel) i pid k e = elim (Bool-cases (has_pid pid i k)) [
    | inl found ↦
        rw (found) (i, refl, omega arith, omega arith, found, λ m ge lt. absurd (omega arith))
    | inr other ↦
        rw (other)
          (FirstTask-step pid i k _ other (find_task-FirstTask fuel (i + 1) pid k (omega arith)))
  ]

  -- The statistics of task `t` as they are reported: the quantum that is left stands with them.
  abbrev pub reported : (t : ℕ) → Kernel → Stats
  reported t k = record (k.task t).p_stats { remaining_ticks = to_unsigned k.remaining_quantum }

  abbrev pub Outcome : (pid : ℤ) (st : ℕ) → Kernel → ℤ × Kernel → Type 0
  Outcome pid st k r =
      ((accepts verify_write st (pos stats_size) k ≡ false) × (r ≡ (err efault, k)))
      ⊎ ((0 < neg_part pid) × (r ≡ (err einval, k)))
      ⊎ (FirstTask pid 0 k none × (r ≡ (err esrch, k)))
      ⊎ ((t : ℕ) × FirstTask pid 0 k (some t)
          × (r.0 ≡ pos 0)
          × IsReport st (reported t k) r.1.bytes
          × ((r.1.task t).p_stats ≡ reported t k))

  found-Outcome :
      (pid : ℤ) (st : ℕ) (k : Kernel) (o : Option ℕ)
      → ((t : ℕ) → IsSmall (reported t k))
      → FirstTask pid 0 k o
      → Outcome pid st k (report_found st k o)
  unfolding report put_task
  found-Outcome pid st k none small f = inr (inr (inl (f, refl)))
  found-Outcome pid st k (some t) small f = inr (
      inr
        (inr (t, f, refl, write_stats-IsReport st (reported t k) k.bytes (small t), ground arith)))

  -- When all counters fit their words, `sys_get_stats` refuses an address that `access_ok` does not
  -- accept with -EFAULT, a negative number with -EINVAL, and a number that no task has with -ESRCH, and
  -- then changes nothing; or it returns 0, puts what is left of the quantum with the statistics of the
  -- first task of that number, and leaves their seven words at `st`.
  pub sys_get_stats_lem :
      (pid : ℤ) (st : ℕ) (k : Kernel)
      → ((t : ℕ) → IsSmall (reported t k))
      → Outcome pid st k (sys_get_stats l pid st k)
  unfolding sys_get_stats
  sys_get_stats_lem pid st k small =
      elim (Bool-cases (accepts verify_write st (pos stats_size) k)) [
        | inr refused ↦ inl (refused, rw (refused) refl)
        | inl ok ↦ elim (Bool-cases (ltb_ℤ pid (pos 0))) [
          | inl negative ↦ inr (inl (ground arith, rw (ok, negative) refl))
          | inr natural ↦
              let run : sys_get_stats l pid st k
                  ≡ report_found st k (find_task l nr_tasks 0 pid k) =
                rw (ok, natural) refl in
              subst (Outcome pid st k) (sym run) (
                found-Outcome pid st k _ small (find_task-FirstTask nr_tasks 0 pid k (omega arith)))
        ]
      ]
