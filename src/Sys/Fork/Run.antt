-- ===== src/Sys/Fork/Run.antt =====
-- `sys_fork` on every branch.
use soa_ze_os.Prelude.{ℕ, ◌≡◌, ◌⊎◌, true, false, List, [], ◌∷◌, ◌++◌}
use soa_ze_os.Prelude.Int.{ℤ, pos, ◌+ℤ◌}
use soa_ze_os.Links.{Links}
use soa_ze_os.Layout.{Layout}
use soa_ze_os.Kernel.{Kernel}
use soa_ze_os.Sched.Spec.{Robin}
use soa_ze_os.Sched.Inv.{IsSched}
use soa_ze_os.Sys.{err}
use soa_ze_os.Sys.Fork.{enomem, eagain}
use soa_ze_os.Sys.Fork.Child.{data_frames}
use soa_ze_os.Sys.Fork.Outcome.{forked}

-- The outcomes of `sys_fork`, by the free tasks: none; or the first of them becomes the child, or goes
-- back to the end of the free queue for want of frames.
abbrev pub Forked :
    Layout → (quantum_of : ℕ → ℤ) (free : List ℕ) → Robin → Kernel → ℤ → Kernel → Type 0
Forked l quantum_of [] s k res k' = (res ≡ err enomem) × (k' ≡ k)
Forked l quantum_of (c ∷ free) s k res k' =
    (((data_frames l c k.memory).0 ≡ true)
      × (res ≡ k.global_pid +ℤ pos 1)
      × ((k'.task c).pid ≡ k.global_pid +ℤ pos 1)
      × IsSched l (forked s.running c quantum_of) free (record s { ready = s.ready ++ (c ∷ []) })
          k')
    ⊎ (((data_frames l c k.memory).0 ≡ false)
        × (res ≡ err eagain)
        × IsSched l (forked s.running c quantum_of) (free ++ (c ∷ [])) s k')
