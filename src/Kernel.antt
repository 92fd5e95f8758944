-- ===== src/Kernel.antt =====
-- The state of the kernel: the globals of practica/zeos/sched.c, sys.c, mm.c, interrupt.c and io.c,
-- the task structs and stacks, and the registers that the code sets. Commands over it may fault, as
-- the list operations do on a null pointer.
pub mod Tasks
use mathlib.Core.Bool.{Bool}
use soa_ze_os.Prelude.{
  ℕ, ◌+◌, ◌-◌, ◌*◌, ◌/◌, ◌%◌, ◌^◌, Option, none, some, List, ◌==◌, if◌then◌else◌,
}
use soa_ze_os.Prelude.Int.{ℤ}
use soa_ze_os.Links
use soa_ze_os.Links.{Links}
use soa_ze_os.Layout.{page_size}
use soa_ze_os.Mm.Paging.{Memory}
use soa_ze_os.Utils.{Bytes, get_ticks}
use soa_ze_os.CBuffer.{CircularBuffer}
use soa_ze_os.Io.{Screen}

-- `enum state_t`
pub data TaskState : Type 0 where
  st_run st_ready st_blocked : TaskState

-- `struct stats`
pub record Stats : Type 0 where
  pub user_ticks : ℕ
  pub system_ticks : ℕ
  pub blocked_ticks : ℕ
  pub ready_ticks : ℕ
  pub elapsed_total_ticks : ℕ
  pub total_trans : ℕ
  pub remaining_ticks : ℕ

-- `struct task_struct`; its `list` field stands in the links, and no code uses `pag_log_shm`.
pub record Task : Type 0 where
  pub pid : ℤ
  pub dir_pages_base_addr : ℕ
  pub register_esp : ℕ
  pub state : TaskState
  pub total_quantum : ℤ
  pub p_stats : Stats

-- `struct shm_mem_struct`
pub record ShmMem : Type 0 where
  pub shm_mem_frame_addr : ℤ
  pub referencias : ℤ
  pub a_borrar : ℤ

pub record Kernel : Type 0 where
  pub links : Links
  -- task structs by address
  pub task : ℕ → Task
  -- memory as the running process and the kernel on its stack see it
  pub bytes : Bytes
  pub remaining_quantum : ℤ
  pub idle_task : ℕ
  pub global_pid : ℤ
  pub zeos_ticks : ℕ
  pub shm_mem : List ShmMem
  pub memory : Memory
  pub cb : CircularBuffer
  -- `isDefined`: whether the keyboard buffer has been set up
  pub is_defined : Bool
  pub screen : Screen
  -- the page of the kernel stack that the processor is on
  pub stack_page : ℕ
  pub esp0 : ℕ
  pub msr_esp : ℕ
  pub cr3 : ℕ
  -- the halves of the time stamp counter at each read to come, and how often it has been read
  pub tsc : ℕ → ℕ × ℕ
  pub tsc_reads : ℕ

abbrev pub Cmd : Type 0 → Type 0
Cmd A = Kernel → Option (A × Kernel)

abbrev pub pure : {A : Type 0} → A → Cmd A
pure a k = some (a, k)

abbrev pub and_then : {A B : Type 0} → Option (A × Kernel) → (A → Cmd B) → Option (B × Kernel)
and_then none f = none
and_then (some (a, k)) f = f a k

infixl 5 ◌>>=◌ ◌>>◌
abbrev pub ◌>>=◌ : {A B : Type 0} → Cmd A → (A → Cmd B) → Cmd B
◌>>=◌ m f k = and_then (m k) f

abbrev pub ◌>>◌ : {B : Type 0} → Cmd (Unit {0}) → Cmd B → Cmd B
m >> n = m >>= λ _. n

abbrev pub modify : (Kernel → Kernel) → Cmd (Unit {0})
modify f k = some (tt, f k)

abbrev pub gets : {A : Type 0} → (Kernel → A) → Cmd A
gets f k = some (f k, k)

abbrev pub relink : {A : Type 0} → Kernel → Option (A × Links) → Option (A × Kernel)
relink k none = none
relink k (some (a, h)) = some (a, record k { links = h })

-- A list operation of the kernel.
abbrev pub on_links : {A : Type 0} → Links.Cmd A → Cmd A
on_links m k = relink k (m k.links)

unfoldable pub put_task : (t : ℕ) → Task → Kernel → Kernel
put_task t v k = record k { task = λ a. if a == t then v else k.task a }

-- `x & 0xfffff000`
abbrev pub page_of : ℕ → ℕ
page_of x = x - x % page_size

-- `current()` masks the address of a local variable, which stands on the current kernel stack.
abbrev pub current : Kernel → ℕ
current k = k.stack_page

-- `get_ticks()`: the next value of the counter.
unfoldable pub read_ticks : Cmd ℕ
read_ticks k =
    let (eax, edx) = k.tsc k.tsc_reads in
    some (get_ticks eax edx, record k { tsc_reads = k.tsc_reads + 1 })

-- `update_stats(v, elapsed)`: the time since `elapsed` is added to `v`, on unsigned longs.
unfoldable pub update_stats : (now v elapsed : ℕ) → ℕ × ℕ
update_stats now v elapsed = ((v + (now + 2 ^ 32 - elapsed)) % 2 ^ 32, now)

abbrev pub charge_user : ℕ → Stats → Stats
charge_user now s =
    let (v, elapsed) = update_stats now s.user_ticks s.elapsed_total_ticks in
    record s { user_ticks = v; elapsed_total_ticks = elapsed }

abbrev pub charge_system : ℕ → Stats → Stats
charge_system now s =
    let (v, elapsed) = update_stats now s.system_ticks s.elapsed_total_ticks in
    record s { system_ticks = v; elapsed_total_ticks = elapsed }

abbrev pub charge_ready : ℕ → Stats → Stats
charge_ready now s =
    let (v, elapsed) = update_stats now s.ready_ticks s.elapsed_total_ticks in
    record s { ready_ticks = v; elapsed_total_ticks = elapsed }

-- Charges the time since the last charge to one of the counters of task `t`.
unfoldable pub charge : (ℕ → Stats → Stats) → (t : ℕ) → Cmd (Unit {0})
charge account t = do
  now ← read_ticks
  modify λ k. put_task t (record (k.task t) { p_stats = account now (k.task t).p_stats }) k
