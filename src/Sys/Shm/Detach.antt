-- ===== src/Sys/Shm/Detach.antt =====
-- Detaching shared memory.
use soa_ze_os.Prelude.{
  ℕ, zero, suc, ◌+◌, ◌-◌, ◌*◌, ◌/◌, ◌%◌, ◌≤◌, ◌<◌, ◌≡◌, ◌≢◌, refl, ◌∙◌, sym, ap, subst, ◌⊎◌, inl,
  inr, Bool-cases, Bool, true, false, not, ◌&&◌, ◌||◌, Option, none, some, arith, ltb, leb, ◌==◌,
  if◌then◌else◌, length, get_or-set_self, get_or-set_ne, rounds_inv,
}
use soa_ze_os.Prelude.Int.{ℤ, pos, ◌-ℤ◌, eqb_ℤ}
use soa_ze_os.Layout.{page_size}
use soa_ze_os.Mm.Frames.{total_pages}
use soa_ze_os.Mm.Paging.{get_frame, read_entry, zero_entry, entry_addr, del_ss_pag, write_entry}
use soa_ze_os.Utils.{Bytes}
use soa_ze_os.Kernel.{Kernel}
use soa_ze_os.Sys.{err, ecanceled, current_pt}
use soa_ze_os.Sys.Shm.{
  shm_count, no_region, region, is_present, find_region, clear_word, clear_page, detach,
  detach_found, sys_shmdt,
}

-- What `find_region` finds: the first region of the frame.
abbrev pub FirstRegion : (frame : ℤ) (i : ℕ) → Kernel → Option ℕ → Type 0
FirstRegion frame i k none =
    (j : ℕ) → i ≤ j → j < shm_count → eqb_ℤ frame (region j k).shm_mem_frame_addr ≡ false
FirstRegion frame i k (some j) =
    (i ≤ j)
    × (j < shm_count)
    × (eqb_ℤ frame (region j k).shm_mem_frame_addr ≡ true)
    × ((m : ℕ) → i ≤ m → m < j → eqb_ℤ frame (region m k).shm_mem_frame_addr ≡ false)

FirstRegion-step :
    (frame : ℤ) (i : ℕ) (k : Kernel) (o : Option ℕ)
    → eqb_ℤ frame (region i k).shm_mem_frame_addr ≡ false
    → FirstRegion frame (i + 1) k o
    → FirstRegion frame i k o
FirstRegion-step frame i k none other f = λ j ge lt. elim (Bool-cases (j == i)) [
  | inl here ↦
      let e : j ≡ i = ground arith in
      ap (λ x. eqb_ℤ frame (region x k).shm_mem_frame_addr) e ∙ other
  | inr on ↦ f j (ground arith) lt
]
FirstRegion-step frame i k (some j) other f = (
  omega (arith, f.0),
  f.1,
  f.2,
  λ m ge lt. elim (Bool-cases (m == i)) [
    | inl here ↦
        let e : m ≡ i = ground arith in
        ap (λ x. eqb_ℤ frame (region x k).shm_mem_frame_addr) e ∙ other
    | inr on ↦ f.3 m (ground arith) lt
  ],
)

find_region-FirstRegion :
    (fuel : ℕ) (frame : ℤ) (i : ℕ) (k : Kernel)
    → i + fuel ≡ shm_count
    → FirstRegion frame i k (find_region fuel frame i k)
unfolding find_region
find_region-FirstRegion zero frame i k e = λ j ge lt. absurd (omega arith)
find_region-FirstRegion (suc fuel) frame i k e =
    elim (Bool-cases (eqb_ℤ frame (region i k).shm_mem_frame_addr)) [
      | inl found ↦ rw (found) (omega arith, omega arith, found, λ m ge lt. absurd (omega arith))
      | inr other ↦ rw (other) (
          FirstRegion-step frame i k _ other
            (find_region-FirstRegion fuel frame (i + 1) k (omega arith)))
    ]

-- `clear_page` clears 512 bytes, an eighth of the page, and no other.
clear_page_lem :
    (page a : ℕ) (m : Bytes)
    → clear_page page m a ≡ (if leb page a && ltb a (page + 512) then 0 else m a)
unfolding clear_page clear_word
clear_page_lem page a m =
    let step : (i : ℕ) (m' : Bytes)
        → i < 64
        → m' a ≡ (if leb page a && ltb a (page + 8 * i) then 0 else m a)
        → clear_word (page + 8 * i) m' a
          ≡ (if leb page a && ltb a (page + 8 * (i + 1)) then 0 else m a) =
      λ i m' lt e. ground (arith, e) in
    rounds_inv (λ i m'. m' a ≡ (if leb page a && ltb a (page + 8 * i) then 0 else m a))
      (λ i. clear_word (page + 8 * i)) 64 step 64 0 m (omega arith) (ground arith)

-- The region stays, with its mapping: it is not to be deleted, or others refer to it.
abbrev pub stays : ℕ → Kernel → Bool
stays i k =
    eqb_ℤ (region i k).a_borrar (pos 0) || not (eqb_ℤ ((region i k).referencias -ℤ pos 1) (pos 0))

-- The call has returned 0, region `i` has a reference less, and no other region has changed.
pub record Dropped (i : ℕ) (k : Kernel) (r : ℤ × Kernel) : Type 0 where
  pub result : r.0 ≡ pos 0
  pub counted : (region i r.1).referencias ≡ (region i k).referencias -ℤ pos 1
  pub regions_kept : (j : ℕ) → j ≢ i → region j r.1 ≡ region j k

-- The page's entry is cleared and no other, and so are the first 512 bytes of the page; the region is
-- no longer to be deleted.
pub record Deleted (access page i : ℕ) (k k' : Kernel) : Type 0 where
  pub cleared : read_entry (current_pt k) access k'.memory.entries ≡ zero_entry
  pub entries_kept :
      (a : ℕ) → a ≢ entry_addr (current_pt k) access → k'.memory.entries a ≡ k.memory.entries a
  pub bytes : (a : ℕ) → k'.bytes a ≡ (if leb page a && ltb a (page + 512) then 0 else k.bytes a)
  pub unmarked : (region i k').a_borrar ≡ pos 0

-- The outcomes of `sys_shmdt` on a page.
abbrev pub Outcome : (access page : ℕ) → Kernel → ℤ × Kernel → Type 0
Outcome access page k r =
    ((r ≡ (err ecanceled, k))
      × ((total_pages ≤ access)
          ⊎ (is_present (current_pt k) access k.memory.entries ≡ false)
          ⊎ FirstRegion (pos (get_frame (current_pt k) access k.memory.entries)) 0 k none))
    ⊎ ((i : ℕ) × FirstRegion (pos (get_frame (current_pt k) access k.memory.entries)) 0 k (some i)
        × Dropped i k r
        × (((stays i k ≡ true) × (r.1.memory ≡ k.memory) × (r.1.bytes ≡ k.bytes))
            ⊎ ((stays i k ≡ false) × Deleted access page i k r.1)))

detach-Outcome :
    (access page i : ℕ) (k : Kernel)
    → i < length k.shm_mem
    → FirstRegion (pos (get_frame (current_pt k) access k.memory.entries)) 0 k (some i)
    → Outcome access page k (detach (current_pt k) access page i k)
unfolding detach del_ss_pag write_entry
detach-Outcome access page i k lt f = elim (Bool-cases (stays i k)) [
  | inl stay ↦ rw (stay) (
      inr (
        i,
        f,
        record {
          result = refl;
          counted = ap (λ r. r.referencias) (get_or-set_self k.shm_mem i _ no_region lt);
          regions_kept = λ j ne. get_or-set_ne k.shm_mem _ no_region (λ e. ne (sym e));
        },
        inl (stay, refl, refl),
      ))
  | inr last ↦ rw (last) (
      inr (
        i,
        f,
        record {
          result = refl;
          counted = ap (λ r. r.referencias) (get_or-set_self k.shm_mem i _ no_region lt);
          regions_kept = λ j ne. get_or-set_ne k.shm_mem _ no_region (λ e. ne (sym e));
        },
        inr (
          last,
          record {
            cleared = ground arith;
            entries_kept = λ a ne. ground arith;
            bytes = λ a. clear_page_lem page a k.bytes;
            unmarked = ap (λ r. r.a_borrar) (get_or-set_self k.shm_mem i _ no_region lt);
          },
        ),
      ))
]

found-Outcome :
    (access page : ℕ) (k : Kernel) (o : Option ℕ)
    → length k.shm_mem ≡ shm_count
    → FirstRegion (pos (get_frame (current_pt k) access k.memory.entries)) 0 k o
    → Outcome access page k (detach_found (current_pt k) access page k o)
found-Outcome access page k none len f = inl (refl, inr (inr f))
found-Outcome access page k (some i) len f =
    detach-Outcome access page i k (omega (arith, f.1, len)) f

-- `sys_shmdt` refuses an address behind the page table, a page that is not present and one whose frame
-- is no region's with -ECANCELED, and then changes nothing. Otherwise it takes a reference off the first
-- region with the page's frame and returns 0: as long as the region is not to be deleted or others refer
-- to it, the page stays mapped and the memory as it was; else the page's entry goes, the first 512 bytes
-- of the page are cleared, and the region is no longer to be deleted.
pub sys_shmdt_lem :
    (addr : ℕ) (k : Kernel)
    → length k.shm_mem ≡ shm_count
    → Outcome (addr / page_size) (addr - addr % page_size) k (sys_shmdt addr k)
unfolding sys_shmdt
sys_shmdt_lem addr k len =
    let access = addr / page_size in
    let page = addr - addr % page_size in
    let pt = current_pt k in
    let m = k.memory.entries in
    elim (Bool-cases (ltb access total_pages)) [
      | inr far ↦ inl (rw (far) refl, inl (ground arith))
      | inl near ↦ elim (Bool-cases (is_present pt access m)) [
        | inr absent ↦ inl (rw (near, absent) refl, inr (inl absent))
        | inl present ↦
            let run : sys_shmdt addr k
                ≡ detach_found pt access page k
                    (find_region shm_count (pos (get_frame pt access m)) 0 k) =
              rw (near, present) refl in
            subst (Outcome access page k) (sym run) (
              found-Outcome access page k _ len
                (find_region-FirstRegion shm_count (pos (get_frame pt access m)) 0 k (omega arith)))
      ]
    ]
