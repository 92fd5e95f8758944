-- ===== src/Sched/Inv.antt =====
-- What holds between two calls of the scheduler of practica/zeos/sched.c: how the kernel stands for
-- a round robin.
use soa_ze_os.Prelude.{ℕ, ◌%◌, ◌≡◌, true, false, List, ◌∷◌, map}
use soa_ze_os.Prelude.Int.{ℤ}
use soa_ze_os.Links.Chain.{has}
use soa_ze_os.Links.Queue.{IsQueue, Disjoint}
use soa_ze_os.Layout.{Layout, list_node, page_size}
use soa_ze_os.Kernel.{Kernel, st_run, st_ready, page_of}
use soa_ze_os.Sched.Spec.{Robin}

abbrev pub nodes : List ℕ → List ℕ
nodes ts = map list_node ts

-- A task that can be switched to: its saved stack position lies on its own kernel stack.
pub record IsResumable (t : ℕ) (k : Kernel) : Type 0 where
  pub aligned : t % page_size ≡ 0
  pub own_stack : page_of (k.task t).register_esp ≡ t
  pub state_ready : (k.task t).state ≡ st_ready

-- The kernel stands for the round robin `s`, with the tasks `free` in the free queue.
pub record IsSched (l : Layout) (quantum_of : ℕ → ℤ) (free : List ℕ) (s : Robin) (k : Kernel)
    : Type 0 where
  pub ready_queue : IsQueue k.links l.readyqueue (nodes s.ready)
  pub free_queue : IsQueue k.links l.freequeue (nodes free)
  pub apart : Disjoint (l.freequeue ∷ nodes free) (l.readyqueue ∷ nodes s.ready)
  pub not_ready : has (list_node s.running) (l.readyqueue ∷ nodes s.ready) ≡ false
  pub not_free : has (list_node s.running) (l.freequeue ∷ nodes free) ≡ false
  pub on_stack : k.stack_page ≡ s.running
  pub aligned : s.running % page_size ≡ 0
  pub state_run : (k.task s.running).state ≡ st_run
  pub quanta : (t : ℕ) → (k.task t).total_quantum ≡ quantum_of t
  pub quantum : k.remaining_quantum ≡ s.quantum
  pub resumable : (t : ℕ) → has t s.ready ≡ true → IsResumable t k
