-- ===== src/Layout.antt =====
-- The addresses that the linker gives to the kernel's tables (practica/zeos/system.lds places
-- `.data.task` at a page boundary): a parameter of every part that computes with pointers.
use soa_ze_os.Prelude.{ℕ, ◌+◌, ◌*◌, ◌%◌, ◌≤◌, ◌<◌, ◌≡◌, ◌≢◌, ◌⊎◌}

abbrev pub page_size : ℕ
page_size = 0x1000

abbrev pub nr_tasks : ℕ
nr_tasks = 10

pub record Layout : Type 0 where
  -- `protected_tasks`, one page for each of its twelve `task_union`s
  pub protected_tasks : ℕ
  -- `dir_pages` and `pagusr_table`, one page for each task
  pub dir_pages : ℕ
  pub pagusr_table : ℕ
  -- the list heads `freequeue` and `readyqueue`
  pub freequeue : ℕ
  pub readyqueue : ℕ

-- `task = &protected_tasks[1]`, and the address of `task[i]`.
abbrev pub task_base : Layout → ℕ
task_base l = l.protected_tasks + page_size

abbrev pub task_addr : Layout → ℕ → ℕ
task_addr l i = task_base l + page_size * i

-- `&t->list`: the field stands behind `PID` and `dir_pages_baseAddr`.
abbrev pub list_node : ℕ → ℕ
list_node t = t + 8

-- What the linker script and the compiler guarantee: tables at page boundaries that do not overlap,
-- within the pages that the kernel maps to themselves, and list heads that are apart from one another and from the tasks.
pub record IsLaidOut (l : Layout) : Type 0 where
  pub aligned_tasks : l.protected_tasks % page_size ≡ 0
  pub aligned_dirs : l.dir_pages % page_size ≡ 0
  pub aligned_tables : l.pagusr_table % page_size ≡ 0
  pub mapped : 0 < l.protected_tasks
  pub fits : l.protected_tasks + page_size * 12 ≤ l.dir_pages
  pub tables : l.dir_pages + page_size * nr_tasks ≤ l.pagusr_table
  pub small : l.pagusr_table + page_size * nr_tasks ≤ 0x100000
  pub free_set : 0 < l.freequeue
  pub ready_set : 0 < l.readyqueue
  pub heads_apart : l.freequeue ≢ l.readyqueue
  pub free_apart :
      (l.freequeue < l.protected_tasks) ⊎ (l.protected_tasks + page_size * 12 ≤ l.freequeue)
  pub ready_apart :
      (l.readyqueue < l.protected_tasks) ⊎ (l.protected_tasks + page_size * 12 ≤ l.readyqueue)
