-- ===== src/Mm/Paging/Boot.antt =====
-- The tables as `init_dir_pages` and `init_table_pages` leave them.
use soa_ze_os.Prelude.{
  ℕ, ◌+◌, ◌-◌, ◌*◌, ◌/◌, ◌^◌, ◌<◌, ◌≡◌, ◌≢◌, refl, ◌∙◌, ◌⊎◌, ◌==◌, ◌&&◌, ◌||◌, ltb, if◌then◌else◌,
  arith, rounds, rounds_inv,
}
use soa_ze_os.Layout.{Layout, IsLaidOut, page_size, nr_tasks, task_base, task_addr}
use soa_ze_os.Mm.Frames.{total_pages}
use soa_ze_os.Mm.Paging.{
  PageTableEntry, Entries, zero_entry, entry_addr, write_entry, read_entry, hide_page,
  map_kernel_page, get_pt, allocate_dir, init_dir, init_dir_pages, init_table, init_table_pages,
}

-- Entry `i` of a fresh table: the kernel's pages are mapped to themselves, but for page 0 and the two
-- pages round the tasks.
abbrev pub boot_entry : Layout → ℕ → PageTableEntry
boot_entry l i =
    let base : PageTableEntry =
      if ltb 0 i && ltb i 256
      then record zero_entry { pbase_addr = i; rw = 1; present = 1 }
      else zero_entry in
    if i == l.protected_tasks / 2 ^ 12 || i == (l.protected_tasks + page_size * 11) / 2 ^ 12
    then record base { present = 0 }
    else base

module _ (l : Layout) (ok : IsLaidOut l) where
  table : ℕ → ℕ
  table j = l.pagusr_table + page_size * j

  entry_addr-inj :
      (j i j' i' : ℕ)
      → j < nr_tasks
      → j' < nr_tasks
      → i < total_pages
      → i' < total_pages
      → (j ≢ j') ⊎ (i ≢ i')
      → entry_addr (l.pagusr_table + page_size * j) i
        ≢ entry_addr (l.pagusr_table + page_size * j') i'
  entry_addr-inj j i j' i' hj hj' hi hi' ne = omega arith

  DirEntry : ℕ → ℕ → Entries → Type 0
  DirEntry i k m =
      i < k
      → (read_entry (l.dir_pages + page_size * i) 0 m).pbase_addr
        ≡ (l.pagusr_table + page_size * i) / 2 ^ 12

  DirEntry-init_dir :
      (i k : ℕ) (m : Entries)
      → i < nr_tasks
      → k < nr_tasks
      → DirEntry i k m
      → DirEntry i (k + 1) (init_dir l k m)
  unfolding init_dir DirEntry write_entry
  DirEntry-init_dir i k m hi hk p lt = ground (arith, ok)

  -- `init_dir_pages` gives each task's directory a table of its own.
  pub get_pt-init_dir_pages :
      (m : Entries) (i : ℕ)
      → i < nr_tasks
      → get_pt (allocate_dir l (task_addr l i)) (init_dir_pages l m)
        ≡ l.pagusr_table + page_size * i
  unfolding init_dir_pages get_pt allocate_dir DirEntry
  get_pt-init_dir_pages m i h =
      let e : page_size * ((task_addr l i - task_base l) / page_size) ≡ page_size * i =
        omega arith in
      let p =
        rounds_inv (DirEntry i) (init_dir l) nr_tasks (λ k s hk. DirEntry-init_dir i k s h hk)
          nr_tasks 0 m refl (λ lt. absurd (omega arith)) h in
      rw (e, p) (omega (arith, ok))

  -- Entry `i` of a table whose kernel pages are mapped up to `k`.
  abbrev mapped_entry : ℕ → ℕ → PageTableEntry
  mapped_entry k i =
      if ltb 0 i && ltb i k
      then record zero_entry { pbase_addr = i; rw = 1; present = 1 }
      else zero_entry

  -- Table `j` reads `f` below `k` and table `j'` is that of `m`, if it is another one.
  Filled : (j : ℕ) (f : ℕ → PageTableEntry) (m : Entries) → ℕ → Entries → Type 0
  Filled j f m k m' =
      ((i : ℕ) → i < k → i < total_pages → read_entry (table j) i m' ≡ f i)
      × ((j' i : ℕ)
          → j' < nr_tasks
          → i < total_pages
          → j' ≢ j
          → read_entry (table j') i m' ≡ read_entry (table j') i m)

  cleared_table :
      (j : ℕ) (m : Entries)
      → j < nr_tasks
      → Filled j
          (λ i. zero_entry)
          m
          total_pages
          (rounds total_pages 0 (λ i. write_entry (table j) i zero_entry) m)
  unfolding Filled table write_entry
  cleared_table j m hj =
      rounds_inv (Filled j (λ i. zero_entry) m) (λ i. write_entry (table j) i zero_entry)
        total_pages
        (λ k s hk p. (
          λ i lt hi. ground (arith, p.0 i, ok, entry_addr-inj j i j k hj hj hi hk),
          λ j' i hj' hi ne. ground (arith, p.1 j' i, ok, entry_addr-inj j' i j k hj' hj hi hk),
        ))
        total_pages 0 m refl ((λ i lt hi. absurd (omega arith)), λ j' i hj' hi ne. refl)

  -- Table `j` reads `f`, and every other table reads as in `m`.
  Table : (j : ℕ) (f : ℕ → PageTableEntry) (m m' : Entries) → Type 0
  unfolding Filled
  Table j f m m' = Filled j f m total_pages m'

  mapped_table :
      (j : ℕ) (m m' : Entries)
      → j < nr_tasks
      → Table j (λ i. zero_entry) m m'
      → Table j (mapped_entry 256) m (rounds 255 1 (map_kernel_page (table j)) m')
  unfolding Table table map_kernel_page write_entry
  mapped_table j m m' hj t =
      (rounds_inv (λ k s. (0 < k) × Table j (mapped_entry k) m s) (map_kernel_page (table j)) 256
        (λ k s hk p. (
          omega arith,
          (
            (λ i lt hi. ground (arith, p.1.0 i, ok, entry_addr-inj j i j k hj hj hi (omega arith))),
            λ j' i hj' hi ne.
                ground (arith, p.1.1 j' i, ok, entry_addr-inj j' i j k hj' hj hi (omega arith)),
          ),
        ))
        255 1 m' refl (omega arith, ((λ i lt hi. ground (arith, t.0 i)), t.1))).1

  abbrev hidden : ℕ → (ℕ → PageTableEntry) → ℕ → PageTableEntry
  hidden page f i = if i == page then record (f i) { present = 0 } else f i

  hide_page-Table :
      (j page : ℕ) (f : ℕ → PageTableEntry) (m m' : Entries)
      → j < nr_tasks
      → page < total_pages
      → Table j f m m'
      → Table j (hidden page f) m (hide_page (table j) page m')
  unfolding Table table hide_page write_entry
  hide_page-Table j page f m m' hj hp t = (
    λ i lt hi. ground (arith, t.0 i, ok, entry_addr-inj j i j page hj hj hi hp),
    λ j' i hj' hi ne. ground (arith, t.1 j' i, ok, entry_addr-inj j' i j page hj' hj hi hp),
  )

  boot_entry-hidden :
      (i : ℕ)
      → hidden
          ((l.protected_tasks + page_size * 11) / 2 ^ 12)
          (hidden (l.protected_tasks / 2 ^ 12) (mapped_entry 256))
          i
        ≡ boot_entry l i
  boot_entry-hidden i = ground arith

  init_table-Table :
      (j : ℕ) (m : Entries) → j < nr_tasks → Table j (boot_entry l) m (init_table l j m)
  unfolding init_table Table table
  init_table-Table j m hj =
      let low_page = l.protected_tasks / 2 ^ 12 in
      let high_page = (l.protected_tasks + page_size * 11) / 2 ^ 12 in
      let in_low : low_page < total_pages = omega (arith, ok) in
      let in_high : high_page < total_pages = omega (arith, ok) in
      let cleared = cleared_table j m hj in
      let mapped = mapped_table j m _ hj cleared in
      let low = hide_page-Table j low_page (mapped_entry 256) m _ hj in_low mapped in
      let high =
        hide_page-Table j high_page (hidden low_page (mapped_entry 256)) m _ hj in_high low in
      ((λ i lt hi. high.0 i lt hi ∙ boot_entry-hidden i), high.1)

  -- After `init_table_pages` every task's table maps exactly the kernel's pages, each to the frame of
  -- the same number, without page 0 and without the pages before and after the tasks.
  pub init_table_pages_lem :
      (m : Entries) (j i : ℕ)
      → j < nr_tasks
      → i < total_pages
      → read_entry (l.pagusr_table + page_size * j) i (init_table_pages l m) ≡ boot_entry l i
  unfolding init_table_pages Table table
  init_table_pages_lem m j i hj hi =
      rounds_inv (λ k s. j < k → read_entry (table j) i s ≡ boot_entry l i) (init_table l) nr_tasks
        (λ k s hk p lt. let t = init_table-Table k s hk in ground (arith, t.0 i, t.1 j i, p))
        nr_tasks 0 m refl (λ lt. absurd (omega arith)) hj
