-- ===== src/Interrupt/PageFault/MovePage.antt =====
-- A page goes to a new frame.
use soa_ze_os.Prelude.{
  ℕ, ◌+◌, ◌-◌, ◌*◌, ◌/◌, ◌^◌, ◌<◌, ◌≡◌, ◌≢◌, refl, ap, ◌∙◌, subst, arith, get_or, set,
}
use soa_ze_os.Prelude.Int.{pos, negsuc}
use soa_ze_os.Layout.{page_size}
use soa_ze_os.Mm.Frames.{PhysMem, unshare_frame}
use soa_ze_os.Mm.Frames.Alloc.{IsUserFrame}
use soa_ze_os.Mm.Paging.{entry_addr, get_frame, set_ss_pag, read_entry, write_entry, to_unsigned}
use soa_ze_os.Mm.Paging.Entries.{read-write_self, read-write_ne}
use soa_ze_os.Interrupt.PageFault.{
  Machine, copy_frame, store_page, pagina_a_usar, saved_frame, move_page,
}
use soa_ze_os.Interrupt.PageFault.Unshare.{
  copy_frame-Copied, copy_frame_keeps, entries_apart, user_entry, window, remap_self, remap-window,
  remap_others,
}

-- The frame of a page, and how many tables share it.
abbrev pub frame_of : (pt page : ℕ) → Machine → ℕ
frame_of pt page s = get_frame pt page s.memory.entries

abbrev pub sharers : (pt page : ℕ) → Machine → ℕ
sharers pt page s = get_or s.memory.phys_mem (frame_of pt page s) 0

-- Page `p` is on the new frame `f`, with a copy of its data; its old frame has one sharer less and its
-- data as before. The page that served for the copy is as it was, and no other entry has changed.
pub record Unshared (pt dir p f : ℕ) (s t : Machine) : Type 0 where
  pub user_frame : IsUserFrame f
  pub was_free : get_or s.memory.phys_mem f 0 ≡ 0
  pub new : f ≢ frame_of pt p s
  pub mapped : read_entry pt p t.memory.entries ≡ user_entry f
  pub content :
      (o : ℕ) → o < page_size → t.ram (f * page_size + o) ≡ s.ram (frame_of pt p s * page_size + o)
  pub kept : (x : ℕ) → x / page_size ≢ f → t.ram x ≡ s.ram x
  pub counts : t.memory.phys_mem ≡ set (unshare_frame (frame_of pt p s) s.memory.phys_mem) f 1
  pub served :
      read_entry pt pagina_a_usar t.memory.entries
      ≡ window (read_entry pt pagina_a_usar s.memory.entries)
  pub others :
      (a : ℕ)
      → a ≢ entry_addr pt p
      → a ≢ entry_addr pt pagina_a_usar
      → t.memory.entries a ≡ s.memory.entries a
  pub flushed : t.cr3 ≡ dir

module _ (pt dir p : ℕ) (s : Machine) (lt : p < 2 ^ 20) (apart : p ≢ pagina_a_usar) where
  -- The entries of the pages other than the one that serves for the copy.
  served_apart : entry_addr pt p ≢ entry_addr pt pagina_a_usar
  served_apart = entries_apart pt p pagina_a_usar lt (omega arith) apart

  module _ (f : ℕ) (small : f < 2 ^ 20) (phys_mem : PhysMem) where
    abbrev mapped : Machine
    mapped = record s {
      memory = record {
        phys_mem = phys_mem;
        entries = set_ss_pag pt pagina_a_usar (to_unsigned (pos f)) s.memory.entries;
      };
    }

    low : to_unsigned (pos f) ≡ f
    low = omega arith

    mapped_new : frame_of pt pagina_a_usar mapped ≡ f
    unfolding set_ss_pag get_frame
    mapped_new = ap (λ e. e.pbase_addr) (read-write_self pt pagina_a_usar _ _) ∙ omega arith

    mapped_old : frame_of pt p mapped ≡ frame_of pt p s
    unfolding set_ss_pag get_frame
    mapped_old = ap (λ e. e.pbase_addr) (read-write_ne pt pagina_a_usar _ _ pt p served_apart)

    copied : Machine
    copied = copy_frame pt p pagina_a_usar mapped

    copied_content :
        (o : ℕ)
        → o < page_size
        → copied.ram (f * page_size + o) ≡ s.ram (frame_of pt p s * page_size + o)
    unfolding copied
    copied_content o inside =
        let copy = copy_frame-Copied pt p pagina_a_usar mapped apart o inside in
        subst (λ g. copied.ram (g * page_size + o) ≡ s.ram (frame_of pt p s * page_size + o))
          mapped_new (copy ∙ ap (λ g. s.ram (g * page_size + o)) mapped_old)

    copied_kept : (x : ℕ) → x / page_size ≢ f → copied.ram x ≡ s.ram x
    unfolding copied
    copied_kept x ne = copy_frame_keeps pt p pagina_a_usar mapped apart x (λ e. ne (e ∙ mapped_new))

    copied_entries :
        (a : ℕ) → a ≢ entry_addr pt pagina_a_usar → copied.memory.entries a ≡ s.memory.entries a
    unfolding copied copy_frame store_page set_ss_pag write_entry
    copied_entries a ne = ground arith

    copied_frames : copied.memory.phys_mem ≡ phys_mem
    unfolding copied copy_frame store_page
    copied_frames = refl

    pub move_page-Unshared :
        IsUserFrame f
        → get_or s.memory.phys_mem f 0 ≡ 0
        → f ≢ frame_of pt p s
        → phys_mem ≡ set (unshare_frame (frame_of pt p s) s.memory.phys_mem) f 1
        → Unshared pt dir p f s (move_page pt dir p (pos f) phys_mem s)
    unfolding move_page copied
    move_page-Unshared user free new counted =
        let m = copied.memory.entries in
        let m' = s.memory.entries in
        record {
          user_frame = user;
          was_free = free;
          new = new;
          mapped = remap_self pt p (pos f) m m' lt apart (saved_frame pt m') ∙ ap user_entry low;
          content = copied_content;
          kept = copied_kept;
          counts = copied_frames ∙ counted;
          served = remap-window pt p (pos f) m m' lt apart;
          others = λ a np nq.
              remap_others pt p (pos f) m m' lt apart (saved_frame pt m') a np nq
              ∙ copied_entries a nq;
          flushed = refl;
        }

  -- Without a frame the page goes to one that there is not.
  pub lost_frame :
      (phys_mem : PhysMem)
      → read_entry pt p (move_page pt dir p (negsuc 0) phys_mem s).memory.entries
        ≡ user_entry (2 ^ 32 - 1)
  unfolding move_page
  lost_frame phys_mem = remap_self pt p (negsuc 0) _ s.memory.entries lt apart _
