-- ===== src/Mm/Paging/Entries.antt =====
-- Reading a page table entry after a write.
use soa_ze_os.Prelude.{ℕ, ◌^◌, ◌<◌, ◌≡◌, ◌≢◌, arith}
use soa_ze_os.Mm.Paging.{
  PageTableEntry, Entries, zero_entry, entry_addr, write_entry, read_entry, set_ss_pag, del_ss_pag,
  get_frame,
}

module _ (pt page : ℕ) (e : PageTableEntry) (m : Entries) where
  pub read-write_self : read_entry pt page (write_entry pt page e m) ≡ e
  unfolding write_entry
  read-write_self = ground arith

  pub read-write_ne :
      (pt' page' : ℕ)
      → entry_addr pt' page' ≢ entry_addr pt page
      → read_entry pt' page' (write_entry pt page e m) ≡ read_entry pt' page' m
  unfolding write_entry
  read-write_ne pt' page' ne = ground arith

-- `set_ss_pag` maps the page to the frame, for user reads and writes; `del_ss_pag` then clears the
-- entry; neither touches any other entry.
pub set_ss_pag_lem :
    (pt page frame : ℕ) (m : Entries)
    → frame < 2 ^ 20
    → let m' = set_ss_pag pt page frame m in
      let m'' = del_ss_pag pt page m' in
      (get_frame pt page m' ≡ frame)
      × ((read_entry pt page m').present ≡ 1)
      × ((read_entry pt page m').user ≡ 1)
      × ((read_entry pt page m').rw ≡ 1)
      × (read_entry pt page m'' ≡ zero_entry)
      × ((a : ℕ) → a ≢ entry_addr pt page → (m' a ≡ m a) × (m'' a ≡ m a))
unfolding set_ss_pag del_ss_pag get_frame write_entry
set_ss_pag_lem pt page frame m h =
    (ground arith, ground arith, ground arith, ground arith, ground arith, λ a ne. ground arith)
