-- ===== src/Mm/Frames/Tests.antt =====
-- The frame theorems at the map that `init_frames` leaves.
use soa_ze_os.Prelude.{◌≡◌, refl, arith, ◌++◌, get_or, set, replicate}
use soa_ze_os.Prelude.Int.{pos}
use soa_ze_os.Mm.Frames.{PhysMem, num_pag_kernel, init_frames, alloc_from, alloc_frame, free_frame}
use soa_ze_os.Mm.Frames.Alloc.{Allocated, init_frames_lem, alloc_frame-Allocated, free_frame-set}

abbrev blank : PhysMem
blank = replicate 1024 7

-- The kernel's frames are in use, the others free.
abbrev booted : PhysMem
booted = replicate 256 1 ++ replicate 768 0

alloc_first : (alloc_frame booted).0 ≡ pos 256
unfolding alloc_frame alloc_from
alloc_first = refl

init_frames_lem_example : get_or (init_frames blank) 300 0 ≡ 0
init_frames_lem_example = init_frames_lem blank 300 refl (omega arith)

alloc_frame-Allocated_example : Allocated num_pag_kernel booted (alloc_frame booted)
alloc_frame-Allocated_example = alloc_frame-Allocated booted

free_frame-set_example : free_frame 258 (set booted 258 1) ≡ booted
free_frame-set_example = free_frame-set booted 258 1 refl (omega arith) (omega arith) refl

free_frame-first_example : free_frame 256 booted ≡ booted
unfolding free_frame
free_frame-first_example = refl
