-- ===== src/Sys/Shm/Attach.antt =====
-- Attaching and detaching shared memory.
use soa_ze_os.Prelude.{
  ℕ, zero, suc, ◌+◌, ◌*◌, ◌/◌, ◌%◌, ◌^◌, ◌≤◌, ◌<◌, ◌≡◌, ◌≢◌, refl, ◌∙◌, sym, ap, subst, ◌⊎◌, inl,
  inr, Bool-cases, true, false, not, ◌||◌, Option, none, some, arith, ltb, ◌==◌, length,
  get_or-set_self, get_or-set_ne,
}
use soa_ze_os.Prelude.Int.{ℤ, pos, pos_part, ◌+ℤ◌, ltb_ℤ}
use soa_ze_os.Layout.{page_size}
use soa_ze_os.Mm.Frames.{total_pages}
use soa_ze_os.Mm.Paging.{Entries, get_frame, set_ss_pag, write_entry, entry_addr, to_unsigned}
use soa_ze_os.Kernel.{Kernel}
use soa_ze_os.Sys.{err, einval, ecanceled, current_pt}
use soa_ze_os.Sys.Shm.{
  shm_count, no_region, region, page_index, is_present, find_free, attach, attach_found, sys_shmat,
}

-- What `find_free` finds.
abbrev pub FirstFree : (pt access : ℕ) → Entries → Option ℕ → Type 0
FirstFree pt access m none = (p : ℕ) → access ≤ p → p < total_pages → is_present pt p m ≡ true
FirstFree pt access m (some q) =
    (access ≤ q)
    × (q < total_pages)
    × (is_present pt q m ≡ false)
    × ((p : ℕ) → access ≤ p → p < q → is_present pt p m ≡ true)

FirstFree-step :
    (pt access : ℕ) (m : Entries) (o : Option ℕ)
    → is_present pt access m ≡ true
    → FirstFree pt (access + 1) m o
    → FirstFree pt access m o
FirstFree-step pt access m none used f = λ p ge lt. elim (Bool-cases (p == access)) [
  | inl here ↦ let e : p ≡ access = ground arith in ap (λ x. is_present pt x m) e ∙ used
  | inr on ↦ f p (ground arith) lt
]
FirstFree-step pt access m (some q) used f = (
  omega (arith, f.0),
  f.1,
  f.2,
  λ p ge lt. elim (Bool-cases (p == access)) [
    | inl here ↦ let e : p ≡ access = ground arith in ap (λ x. is_present pt x m) e ∙ used
    | inr on ↦ f.3 p (ground arith) lt
  ],
)

find_free-FirstFree :
    (fuel pt access : ℕ) (m : Entries)
    → total_pages ≤ access + fuel
    → FirstFree pt access m (find_free fuel pt access m)
unfolding find_free
find_free-FirstFree zero pt access m le = λ p ge lt. absurd (omega arith)
find_free-FirstFree (suc fuel) pt access m le = elim (Bool-cases (ltb access total_pages)) [
  | inr past ↦ rw (past) λ p ge lt. absurd (ground arith)
  | inl inside ↦ elim (Bool-cases (is_present pt access m)) [
    | inr free ↦
        rw (inside, free) (omega arith, ground arith, free, λ p ge lt. absurd (omega arith))
    | inl used ↦
        rw (inside, used)
          (FirstFree-step pt access m _ used
            (find_free-FirstFree fuel pt (access + 1) m (omega arith)))
  ]
]

-- Region `id` is mapped at the page and has a reference more; no other entry or region has changed.
pub record Attached (id page : ℕ) (k : Kernel) (r : ℤ × Kernel) : Type 0 where
  pub result : r.0 ≡ pos (page * page_size)
  pub mapped :
      get_frame (current_pt k) page r.1.memory.entries
      ≡ to_unsigned (region id k).shm_mem_frame_addr % 2 ^ 20
  pub visible : is_present (current_pt k) page r.1.memory.entries ≡ true
  pub entries_kept :
      (a : ℕ) → a ≢ entry_addr (current_pt k) page → r.1.memory.entries a ≡ k.memory.entries a
  pub counted : (region id r.1).referencias ≡ (region id k).referencias +ℤ pos 1
  pub regions_kept : (j : ℕ) → j ≢ id → region j r.1 ≡ region j k

attach-Attached :
    (id page : ℕ) (k : Kernel)
    → page < total_pages
    → id < length k.shm_mem
    → Attached id page k (attach (current_pt k) id page k)
unfolding attach set_ss_pag write_entry get_frame
attach-Attached id page k lt in_range = record {
  result = ap pos (omega arith);
  mapped = ground arith;
  visible = ground arith;
  entries_kept = λ a ne. ground arith;
  counted = ap (λ r. r.referencias) (get_or-set_self k.shm_mem id _ no_region in_range);
  regions_kept = λ j ne. get_or-set_ne k.shm_mem _ no_region (λ e. ne (sym e));
}

-- The outcomes of `sys_shmat` from page `access` on.
abbrev pub Outcome : (id : ℤ) (addr : ℕ) → Kernel → ℤ × Kernel → Type 0
Outcome id addr k r =
    ((addr % page_size ≢ 0) × (r ≡ (err ecanceled, k)))
    ⊎ (((ltb_ℤ id (pos 0) || not (ltb_ℤ id (pos shm_count))) ≡ true) × (r ≡ (err einval, k)))
    ⊎ (FirstFree (current_pt k) (addr / page_size) k.memory.entries none × (r ≡ (err einval, k)))
    ⊎ ((page : ℕ) × FirstFree (current_pt k) (addr / page_size) k.memory.entries (some page)
        × Attached (pos_part id) page k r)

found-Outcome :
    (id : ℤ) (addr : ℕ) (k : Kernel) (o : Option ℕ)
    → pos_part id < length k.shm_mem
    → FirstFree (current_pt k) (addr / page_size) k.memory.entries o
    → Outcome id addr k (attach_found (current_pt k) (pos_part id) k o)
found-Outcome id addr k none lt f = inr (inr (inl (f, refl)))
found-Outcome id addr k (some page) lt f =
    inr (inr (inr (page, f, attach-Attached (pos_part id) page k f.1 lt)))

-- Within the page table `sys_shmat` refuses an address within a page with -ECANCELED, and a region that
-- there is not, or a table with no free page from the address on, with -EINVAL, and then changes
-- nothing; or it maps the region at the first free page from the address on, returns that page's
-- address, and counts the reference.
pub sys_shmat_lem :
    (id : ℤ) (addr : ℕ) (k : Kernel)
    → addr < total_pages * page_size
    → length k.shm_mem ≡ shm_count
    → Outcome id addr k (sys_shmat id addr k)
unfolding sys_shmat
sys_shmat_lem id addr k lt len =
    let pt = current_pt k in
    let m = k.memory.entries in
    let index : page_index addr ≡ addr / page_size = ground arith in
    elim (Bool-cases (addr % page_size == 0)) [
      | inr within ↦ inl (ground arith, rw (within) refl)
      | inl whole ↦ elim (Bool-cases (ltb_ℤ id (pos 0) || not (ltb_ℤ id (pos shm_count)))) [
        | inl wrong ↦ inr (inl (wrong, rw (whole, wrong) refl))
        | inr right ↦
            let in_range : pos_part id < length k.shm_mem = ground (arith, len) in
            elim (Bool-cases (is_present pt (addr / page_size) m)) [
              | inl used ↦
                  let run : sys_shmat id addr k
                      ≡ attach_found pt (pos_part id) k
                          (find_free total_pages pt (addr / page_size) m) =
                    rw (whole, right, index, used) refl in
                  subst (Outcome id addr k) (sym run) (
                    found-Outcome id addr k _ in_range
                      (find_free-FirstFree total_pages pt (addr / page_size) m (omega arith)))
              | inr free ↦
                  let run : sys_shmat id addr k ≡ attach pt (pos_part id) (addr / page_size) k =
                    rw (whole, right, index, free) refl in
                  subst (Outcome id addr k) (sym run) (
                    found-Outcome id addr k (some (addr / page_size)) in_range
                      (omega arith, omega arith, free, λ p ge below. absurd (omega arith)))
            ]
      ]
    ]
