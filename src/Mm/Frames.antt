-- ===== src/Mm/Frames.antt =====
-- The byte map of free frames of practica/zeos/mm.c. `phys_mem[f]` is 0 for a free frame, and
-- otherwise the number of page tables that share it.
pub mod Alloc
mod Tests
use soa_ze_os.Prelude.{
  ℕ, zero, suc, ◌+◌, ◌%◌, List, [], ◌∷◌, ◌++◌, ◌&&◌, ltb, ◌==◌, if◌then◌else◌, set, get_or,
  replicate,
}
use soa_ze_os.Prelude.Int.{ℤ, pos, negsuc}

abbrev pub total_pages : ℕ
total_pages = 1024

abbrev pub num_pag_kernel : ℕ
num_pag_kernel = 256

abbrev pub free_frame_mark : ℕ
free_frame_mark = 0

abbrev pub used_frame_mark : ℕ
used_frame_mark = 1

-- `Byte phys_mem[TOTAL_PAGES]`
abbrev pub PhysMem : Type 0
PhysMem = List ℕ

-- Writes `v` to the `n` entries from index `i` on.
unfoldable pub fill : ℕ → ℕ → ℕ → PhysMem → PhysMem
fill zero i v m = m
fill (suc n) i v m = fill n (i + 1) v (set m i v)

unfoldable pub init_frames : PhysMem → PhysMem
init_frames m = fill num_pag_kernel 0 used_frame_mark (fill total_pages 0 free_frame_mark m)

-- The loop of `alloc_frame` from frame `i` on, which skips every other frame: at most `rounds`
-- rounds, of which the last finds `i` out of range. -1 means that no frame was free.
unfoldable pub alloc_from : ℕ → ℕ → PhysMem → ℤ × PhysMem
alloc_from zero i m = (negsuc 0, m)
alloc_from (suc rounds) i m =
    let rest = alloc_from rounds (i + 2) m in
    if ltb i total_pages
    then if get_or m i 0 == free_frame_mark then (pos i, set m i 1) else rest
    else (negsuc 0, m)

-- From frame 256 the test `i < 1024` fails at the 385th round.
unfoldable pub alloc_frame : PhysMem → ℤ × PhysMem
alloc_frame m = alloc_from 385 num_pag_kernel m

unfoldable pub free_frame : ℕ → PhysMem → PhysMem
free_frame frame m =
    if ltb num_pag_kernel frame && ltb frame total_pages then set m frame free_frame_mark else m

-- `phys_mem[frame]++` and `phys_mem[frame]--` on a `Byte`.
unfoldable pub share_frame : ℕ → PhysMem → PhysMem
share_frame frame m = set m frame ((get_or m frame 0 + 1) % 256)

unfoldable pub unshare_frame : ℕ → PhysMem → PhysMem
unshare_frame frame m = set m frame ((get_or m frame 0 + 255) % 256)
