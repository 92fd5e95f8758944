-- ===== src/Mm/Paging/UserPages.antt =====
-- The user pages of the first process, `set_user_pages`: who may do what with each page.
use soa_ze_os.Prelude.{ℕ, ◌+◌, ◌*◌, ◌^◌, ◌≤◌, ◌<◌, ◌≡◌, refl, arith, rounds_inv}
use soa_ze_os.Mm.Frames.{total_pages}
use soa_ze_os.Mm.Paging.{
  PageTableEntry, write_entry, read_entry, get_pt, Memory, num_pag_code, num_pag_data,
  pag_log_init_code, pag_log_init_data, set_code_page, set_data_page, set_user_pages,
}

-- A present user page, writable or not.
abbrev pub UserPage : ℕ → PageTableEntry → Type 0
UserPage w e = (e.present ≡ 1) × (e.user ≡ 1) × (e.rw ≡ w)

module _ (pt : ℕ) (fits : pt + 4 * total_pages ≤ 2 ^ 32) where
  -- The first `k` code pages and the first `d` data pages are set, the rest is that of `m`.
  Set : (k d : ℕ) (m m' : Memory) → Type 0
  Set k d m m' =
      ((i : ℕ)
        → i < k
        → i < num_pag_code
        → UserPage 0 (read_entry pt (pag_log_init_code + i) m'.entries))
      × ((i : ℕ)
          → i < d
          → i < num_pag_data
          → UserPage 1 (read_entry pt (pag_log_init_data + i) m'.entries))
      × ((i : ℕ) → i < pag_log_init_code → read_entry pt i m'.entries ≡ read_entry pt i m.entries)
      × ((i : ℕ)
          → pag_log_init_data + num_pag_data ≤ i
          → i < total_pages
          → read_entry pt i m'.entries ≡ read_entry pt i m.entries)

  Set-code :
      (k : ℕ) (m m' : Memory)
      → k < num_pag_code
      → Set k 0 m m'
      → Set (k + 1) 0 m (set_code_page pt k m')
  unfolding Set set_code_page write_entry
  Set-code k m m' hk s = (
    (λ i lt hi. (ground (arith, s.0 i), ground (arith, s.0 i), ground (arith, s.0 i))),
    (λ i lt hi. absurd (omega arith)),
    (λ i lt. ground (arith, s.2 i)),
    λ i ge lt. ground (arith, s.3 i),
  )

  Set-data :
      (d : ℕ) (m m' : Memory)
      → d < num_pag_data
      → Set num_pag_code d m m'
      → Set num_pag_code (d + 1) m (set_data_page pt d m')
  unfolding Set set_data_page write_entry
  Set-data d m m' hd s = (
    (λ i lt hi. (ground (arith, s.0 i), ground (arith, s.0 i), ground (arith, s.0 i))),
    (λ i lt hi. (ground (arith, s.1 i), ground (arith, s.1 i), ground (arith, s.1 i))),
    (λ i lt. ground (arith, s.2 i)),
    λ i ge lt. ground (arith, s.3 i),
  )

-- `set_user_pages` makes the code pages readable and the data pages writable for the user, and
-- leaves the kernel's pages and the pages above the data as they were.
pub set_user_pages_lem :
    (dir : ℕ) (m : Memory)
    → get_pt dir m.entries + 4 * total_pages ≤ 2 ^ 32
    → let pt = get_pt dir m.entries in
      let m' = set_user_pages dir m in
      ((i : ℕ) → i < num_pag_code → UserPage 0 (read_entry pt (pag_log_init_code + i) m'.entries))
      × ((i : ℕ) → i < num_pag_data → UserPage 1 (read_entry pt (pag_log_init_data + i) m'.entries))
      × ((i : ℕ) → i < pag_log_init_code → read_entry pt i m'.entries ≡ read_entry pt i m.entries)
      × ((i : ℕ)
          → pag_log_init_data + num_pag_data ≤ i
          → i < total_pages
          → read_entry pt i m'.entries ≡ read_entry pt i m.entries)
unfolding set_user_pages Set
set_user_pages_lem dir m fits =
    let pt = get_pt dir m.entries in
    let code =
      rounds_inv (λ k. Set pt fits k 0 m) (set_code_page pt) num_pag_code
        (λ k s hk p. Set-code pt fits k m s hk p) num_pag_code 0 m refl
        (
          (λ i lt hi. absurd (omega arith)),
          (λ i lt hi. absurd (omega arith)),
          (λ i lt. refl),
          λ i ge lt. refl,
        ) in
    let all =
      rounds_inv (λ d. Set pt fits num_pag_code d m) (set_data_page pt) num_pag_data
        (λ d s hd p. Set-data pt fits d m s hd p) num_pag_data 0 _ refl code in
    ((λ i hi. all.0 i hi hi), (λ i hi. all.1 i hi hi), all.2, all.3)
