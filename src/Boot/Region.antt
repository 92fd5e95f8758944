-- ===== src/Boot/Region.antt =====
-- One round of `init_shared_memory` of practica/zeos/sched.c.
use soa_ze_os.Prelude.{
  ℕ, ◌<◌, ◌≡◌, ◌≢◌, refl, ap, ◌∙◌, sym, subst, ◌⊎◌, inl, inr, Bool-cases, false, arith, ◌==◌,
  get_or, set, length, length-set, get_or-set_self, get_or-set_ne,
}
use soa_ze_os.Prelude.Int.{ℤ, pos}
use soa_ze_os.Mm.Frames.{PhysMem, total_pages, num_pag_kernel}
use soa_ze_os.Mm.Frames.Alloc.{IsUserFrame, Allocated, found, exhausted, alloc_frame-Allocated}
use soa_ze_os.Kernel.{Kernel, ShmMem}
use soa_ze_os.Sys.Shm.{no_region, region}
use soa_ze_os.Boot.{put_region, take_frame, init_region}

abbrev pub frame_addr : (j : ℕ) → Kernel → ℤ
frame_addr j k = (region j k).shm_mem_frame_addr

abbrev pub InUse : (f : ℕ) → PhysMem → Type 0
InUse f m = get_or m f 0 ≢ 0

-- Region `j` has a frame that was free in `m`, and no references.
abbrev pub Holds : (j : ℕ) → PhysMem → Kernel → Type 0
Holds j m k =
    (f : ℕ) × IsUserFrame f
    × (frame_addr j k ≡ pos f)
    × ((region j k).referencias ≡ pos 0)
    × (get_or m f 0 ≡ 0)
    × InUse f k.memory.phys_mem

-- Region `j` has no frame, and none is left.
abbrev pub Unserved : (j : ℕ) → Kernel → Type 0
Unserved j k = (frame_addr j k ≡ pos 0) × ((f : ℕ) → IsUserFrame f → InUse f k.memory.phys_mem)

set-InUse : (m : PhysMem) (f g : ℕ) → f < length m → InUse g m → InUse g (set m f 1)
set-InUse m f g lt used z = elim (Bool-cases (f == g)) [
  | inl here ↦
      let e : f ≡ g = ground arith in
      let one = get_or-set_self m f 1 0 lt in
      let z' = subst (λ h. get_or (set m f 1) h 0 ≡ 0) (sym e) z in absurd (omega arith)
  | inr other ↦ used (sym (get_or-set_ne m 1 0 (λ e. ground arith)) ∙ z)
]

module _ (i : ℕ) (r : ShmMem) (k : Kernel) where
  region_put_self : i < length k.shm_mem → region i (put_region i r k) ≡ r
  region_put_self lt = get_or-set_self k.shm_mem i r no_region lt

  region_put_ne : (j : ℕ) → j ≢ i → region j (put_region i r k) ≡ region j k
  region_put_ne j ne = get_or-set_ne k.shm_mem r no_region (λ e. ne (sym e))

-- What a round makes of the regions other than `i` and of the frames.
pub record Step (i : ℕ) (k k' : Kernel) : Type 0 where
  pub size : length k'.shm_mem ≡ length k.shm_mem
  pub frames : length k'.memory.phys_mem ≡ length k.memory.phys_mem
  pub entries : k'.memory.entries ≡ k.memory.entries
  pub links : k'.links ≡ k.links
  pub same : (a : ℕ) → a ≢ i → region a k' ≡ region a k
  pub grows : (f : ℕ) → InUse f k.memory.phys_mem → InUse f k'.memory.phys_mem
  pub own :
      ((frame_addr i k' ≡ pos 0) × ((f : ℕ) → IsUserFrame f → InUse f k'.memory.phys_mem))
      ⊎ ((f : ℕ) × IsUserFrame f
          × (frame_addr i k' ≡ pos f)
          × ((region i k').referencias ≡ pos 0)
          × (get_or k.memory.phys_mem f 0 ≡ 0)
          × InUse f k'.memory.phys_mem)

-- The kernel of a round before its region is given the frame.
abbrev cleared : (i : ℕ) → PhysMem → Kernel → Kernel
cleared i m k = record (put_region i (record (region i k) { shm_mem_frame_addr = pos 0 }) k) {
  memory = record k.memory { phys_mem = m };
}

take_frame-Step :
    (i : ℕ) (k : Kernel)
    → i < length k.shm_mem
    → length k.memory.phys_mem ≡ total_pages
    → (r : ℤ × PhysMem) → Allocated num_pag_kernel k.memory.phys_mem r
    → Step i k (take_frame i r.0 (cleared i r.1 k))
unfolding take_frame
take_frame-Step i k lt len r (found f le user free before) =
    let m = k.memory.phys_mem in
    let low : f < length m = omega (arith, user) in
    let k₁ = cleared i (set m f 1) k in
    let e = length-set k.shm_mem i (record (region i k) { shm_mem_frame_addr = pos 0 }) in
    let own : ShmMem = record (region i k₁) { shm_mem_frame_addr = pos f; referencias = pos 0 } in
    let at = region_put_self i own k₁ (omega arith) in
    let big : (f == 0) ≡ false = ground (arith, user) in
    rw (big) record {
      size = length-set k₁.shm_mem i own ∙ e;
      frames = length-set m f 1;
      entries = refl;
      links = refl;
      same = λ a ne. region_put_ne i own k₁ a ne ∙ region_put_ne i _ k a ne;
      grows = λ g used. set-InUse m f g low used;
      own = inr (
        f,
        user,
        ap (λ w. w.shm_mem_frame_addr) at,
        ap (λ w. w.referencias) at,
        free,
        λ z. let one = get_or-set_self m f 1 0 low in absurd (omega arith),
      );
    }
take_frame-Step i k lt len r (exhausted nothing) = record {
  size = length-set k.shm_mem i _;
  frames = refl;
  entries = refl;
  links = refl;
  same = λ a ne. region_put_ne i _ k a ne;
  grows = λ g used. used;
  own =
      inl (
        ap (λ w. w.shm_mem_frame_addr) (region_put_self i _ k lt),
        λ f user. nothing f user.0 user,
      );
}

pub init_region-Step :
    (i : ℕ) (k : Kernel)
    → i < length k.shm_mem
    → length k.memory.phys_mem ≡ total_pages
    → Step i k (init_region i k)
unfolding init_region
init_region-Step i k lt len = take_frame-Step i k lt len _ (alloc_frame-Allocated k.memory.phys_mem)
