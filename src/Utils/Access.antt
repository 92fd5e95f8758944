-- ===== src/Utils/Access.antt =====
-- What `access_ok` lets through.
use soa_ze_os.Prelude.{
  ℕ, zero, suc, ◌+◌, ◌-◌, ◌*◌, ◌%◌, ◌^◌, ◌≤◌, ◌<◌, ◌≡◌, ◌≢◌, ◌⊎◌, inl, inr, Bool-cases, arith, ◌==◌,
  true,
}
use soa_ze_os.Layout.{page_size}
use soa_ze_os.Mm.Frames.{total_pages}
use soa_ze_os.Mm.Paging.{Entries, get_frame}
use soa_ze_os.Utils.{
  AccessType, verify_read, verify_write, all_mapped, user_first_page, first_page, last_page,
  page_count, read_ok, write_ok, access_ok,
}

all_mapped-get_frame :
    (n pt page : ℕ) (m : Entries)
    → all_mapped n pt page m ≡ true
    → (i : ℕ) → page ≤ i
    → i < page + n
    → get_frame pt i m ≢ 0
unfolding all_mapped
all_mapped-get_frame zero pt page m h i ge lt = absurd (omega arith)
all_mapped-get_frame (suc n) pt page m h i ge lt = elim (Bool-cases (i == page)) [
  | inl here ↦ ground arith
  | inr there ↦ all_mapped-get_frame n pt (page + 1) m (ground arith) i (ground arith) (omega arith)
]

-- The loop of `access_ok` reaches the page of every byte of the buffer, unless the buffer starts
-- within a page and is a whole number of pages long: then the last page is left out.
count_lem :
    (addr size a : ℕ)
    → addr + size < total_pages * page_size
    → (addr % page_size ≡ 0) ⊎ (size % page_size ≢ 0)
    → a < addr + size
    → first_page a < first_page addr + page_count addr size
count_lem addr size a hi (inl aligned) lt = ground arith
count_lem addr size a hi (inr partial) lt = ground arith

-- Within the first 4 MB above the kernel, a buffer that `access_ok` accepts for reading stands on
-- pages that all have a frame, if it starts at a page boundary or is no whole number of pages long.
pub access_ok-read :
    (pt addr size : ℕ) (m : Entries)
    → user_first_page ≤ first_page addr
    → addr + size < total_pages * page_size
    → (addr % page_size ≡ 0) ⊎ (size % page_size ≢ 0)
    → access_ok verify_read pt addr size m ≡ true
    → (a : ℕ) → addr ≤ a
    → a < addr + size
    → get_frame pt (first_page a) m ≢ 0
unfolding access_ok read_ok
access_ok-read pt addr size m lo hi tail h a ge lt =
    all_mapped-get_frame (page_count addr size) pt (first_page addr) m (ground arith) (first_page a)
      (omega arith) (count_lem addr size a hi tail lt)

-- Below the user's pages `access_ok` accepts every buffer that does not wrap round the address space,
-- for reading and for writing: the `return 1` of the default case does not stand under its test.
pub access_ok_kernel :
    (type : AccessType) (pt addr size : ℕ) (m : Entries)
    → first_page addr < user_first_page
    → addr + size < 2 ^ 32
    → access_ok type pt addr size m ≡ true
unfolding access_ok read_ok write_ok
access_ok_kernel verify_read pt addr size m lo hi = ground arith
access_ok_kernel verify_write pt addr size m lo hi = ground arith

-- A buffer of one page that starts within a page is accepted on the word of its first page alone.
pub access_ok_unaligned :
    (pt page k : ℕ) (m : Entries)
    → user_first_page ≤ page
    → page + 1 < total_pages
    → 0 < k
    → k < page_size
    → get_frame pt page m ≢ 0
    → access_ok verify_read pt (page * page_size + k) page_size m ≡ true
unfolding access_ok read_ok all_mapped
access_ok_unaligned pt page k m lo hi some_k small ne =
    let first : first_page (page * page_size + k) ≡ page = omega arith in
    let last : last_page (page * page_size + k) page_size ≡ page + 1 = omega arith in
    let one : page + 1 - page + 0 ≡ 1 = omega arith in rw (first, last, one) (ground arith)
