-- ===== src/Interrupt/PageFault/Unshare.antt =====
-- What the page fault's routine makes of a page.
use soa_ze_os.Prelude.{
  ℕ, ◌+◌, ◌*◌, ◌-◌, ◌/◌, ◌%◌, ◌^◌, ◌<◌, ◌≡◌, ◌≢◌, refl, ap, ap₂, ◌∙◌, sym, inl, inr, Bool-cases,
  true, false, ltb, arith, ◌==◌, if◌then◌else◌,
}
use soa_ze_os.Prelude.Int.{ℤ, negsuc, eqb_ℤ}
use soa_ze_os.Layout.{page_size}
use soa_ze_os.Mm.Paging.{
  Entries, PageTableEntry, zero_entry, entry_addr, get_frame, set_ss_pag, del_ss_pag, read_entry,
  write_entry, to_unsigned,
}
use soa_ze_os.Mm.Paging.Entries.{read-write_self, read-write_ne}
use soa_ze_os.Utils.Copy.{Apart, copy_data_lem}
use soa_ze_os.Interrupt.PageFault.{
  remap, Machine, view, store_page, copy_frame, pagina_a_usar, saved_frame, restore_frame,
}

div_at : (f o : ℕ) → o < page_size → (f * page_size + o) / page_size ≡ f
div_at f o lt = omega arith

mod_at : (f o : ℕ) → o < page_size → (f * page_size + o) % page_size ≡ o
mod_at f o lt = omega arith

view_at :
    (pt page o : ℕ) (s : Machine)
    → o < page_size
    → view pt s (page * page_size + o) ≡ s.ram (get_frame pt page s.memory.entries * page_size + o)
view_at pt page o s lt =
    ap₂ (λ p q. s.ram (get_frame pt p s.memory.entries * page_size + q)) (div_at page o lt)
      (mod_at page o lt)

pages-Apart : (p q : ℕ) → p ≢ q → Apart (p * page_size) (q * page_size) page_size
pages-Apart p q ne = elim (Bool-cases (ltb p q)) [
  | inl below ↦ let lt : p < q = ground arith in inl (omega arith)
  | inr above ↦ let lt : q < p = ground arith in inr (omega arith)
]

same_offset : (start dest o : ℕ) → start + (dest + o - dest) ≡ start + o
same_offset start dest o = omega arith

self_eq : (n : ℕ) → (n == n) ≡ true
self_eq n = ground arith

module _ (pt posicion page : ℕ) (s : Machine) (apart : posicion ≢ page) where
  -- The copy fills the frame of `page` with the bytes of the other page's, and changes nothing else.
  pub copy_frame-Copied :
      (o : ℕ)
      → o < page_size
      → (copy_frame pt posicion page s).ram (get_frame pt page s.memory.entries * page_size + o)
        ≡ s.ram (get_frame pt posicion s.memory.entries * page_size + o)
  unfolding copy_frame store_page
  copy_frame-Copied o lt =
      let start = posicion * page_size in
      let dest = page * page_size in
      let f = get_frame pt page s.memory.entries in
      let copied =
        (copy_data_lem start dest page_size (view pt s) (pages-Apart posicion page apart)).0 in
      let same = copied.inside (dest + o) (omega arith) (omega arith) in
      rw (div_at f o lt, mod_at f o lt, self_eq f)
        (same ∙ ap (view pt s) (same_offset start dest o) ∙ view_at pt posicion o s lt)

  pub copy_frame_keeps :
      (x : ℕ)
      → x / page_size ≢ get_frame pt page s.memory.entries
      → (copy_frame pt posicion page s).ram x ≡ s.ram x
  unfolding copy_frame store_page
  copy_frame_keeps x ne = ground arith

-- What `set_ss_pag` writes.
abbrev pub user_entry : (frame : ℕ) → PageTableEntry
user_entry frame = record zero_entry { pbase_addr = frame % 2 ^ 20; user = 1; rw = 1; present = 1 }

-- The page that served for the copy is on its old frame again, or not present.
abbrev pub window : PageTableEntry → PageTableEntry
window e = if e.present == 1 then user_entry (e.pbase_addr % 2 ^ 32) else zero_entry

pub entries_apart :
    (pt p q : ℕ) → p < 2 ^ 20 → q < 2 ^ 20 → p ≢ q → entry_addr pt p ≢ entry_addr pt q
entries_apart pt p q lp lq ne e = ne (omega arith)

restored :
    (pt : ℕ) (m m' : Entries)
    → read_entry pt pagina_a_usar
        (restore_frame pt (saved_frame pt m') (del_ss_pag pt pagina_a_usar m))
      ≡ window (read_entry pt pagina_a_usar m')
unfolding set_ss_pag del_ss_pag get_frame
restored pt m m' = elim (Bool-cases ((read_entry pt pagina_a_usar m').present == 1)) [
  | inl present ↦ rw (present) (elim (Bool-cases (get_frame pt pagina_a_usar m' == 0)) [
    | inl zeroth ↦ rw (zeroth) (read-write_self pt pagina_a_usar _ _)
    | inr other ↦ rw (other) (read-write_self pt pagina_a_usar _ _)
  ])
  | inr absent ↦ rw (absent) (read-write_self pt pagina_a_usar _ _)
]

restore_others :
    (pt : ℕ) (aux : ℤ) (m : Entries) (a : ℕ)
    → a ≢ entry_addr pt pagina_a_usar
    → restore_frame pt aux (del_ss_pag pt pagina_a_usar m) a ≡ m a
unfolding set_ss_pag del_ss_pag write_entry
restore_others pt aux m a ne =
    let other : (a == entry_addr pt pagina_a_usar) ≡ false = ground arith in
    elim (Bool-cases (eqb_ℤ aux (negsuc 0))) [
      | inl none_saved ↦ rw (none_saved, other) refl
      | inr saved ↦ rw (saved, other) refl
    ]

module _ (pt p : ℕ) (frame : ℤ) (m m' : Entries) (lt : p < 2 ^ 20) (apart : p ≢ pagina_a_usar) where
  pub remap_self :
      (aux : ℤ) → read_entry pt p (remap pt p frame aux m) ≡ user_entry (to_unsigned frame)
  unfolding remap set_ss_pag
  remap_self aux = read-write_self pt p _ _

  pub remap-window :
      read_entry pt pagina_a_usar (remap pt p frame (saved_frame pt m') m)
      ≡ window (read_entry pt pagina_a_usar m')
  unfolding remap set_ss_pag del_ss_pag get_frame
  remap-window =
      let ne = entries_apart pt pagina_a_usar p (omega arith) lt (λ e. apart (sym e)) in
      read-write_ne pt p _ _ pt pagina_a_usar ne
      ∙ read-write_ne pt p _ _ pt pagina_a_usar ne
      ∙ restored pt m m'

  pub remap_others :
      (aux : ℤ) (a : ℕ)
      → a ≢ entry_addr pt p
      → a ≢ entry_addr pt pagina_a_usar
      → remap pt p frame aux m a ≡ m a
  unfolding remap set_ss_pag del_ss_pag write_entry
  remap_others aux a np nq =
      let here : (a == entry_addr pt p) ≡ false = ground arith in
      rw (here) (restore_others pt aux m a nq)
