-- ===== src/Mm/Frames/Alloc.antt =====
-- What `init_frames`, `alloc_frame` and `free_frame` promise.
use soa_ze_os.Prelude.{
  ℕ, zero, suc, ◌+◌, ◌*◌, ◌%◌, ◌≤◌, ◌<◌, ◌≡◌, ◌≢◌, refl, ap, ◌∙◌, ◌⊎◌, inl, inr, [], ◌∷◌, ◌==◌, ltb,
  leb, sym, ◌&&◌, arith, if◌then◌else◌, length, length-set, set, get_or, get_or-set_self,
  get_or-set_ne, Bool-cases,
}
use soa_ze_os.Prelude.Int.{ℤ, pos, negsuc}
use soa_ze_os.Mm.Frames.{
  PhysMem, total_pages, num_pag_kernel, fill, init_frames, alloc_from, alloc_frame, free_frame,
}

-- The frames that `alloc_frame` hands out: every other one above the kernel's.
abbrev pub IsUserFrame : ℕ → Type 0
IsUserFrame f = (num_pag_kernel ≤ f) × (f < total_pages) × (f % 2 ≡ 0)

-- What a search from frame `i` on returns: the first free frame, now marked, or -1 if none is free.
pub data Allocated (i : ℕ) (m : PhysMem) : ℤ × PhysMem → Type 0 where
  found :
      (f : ℕ)
      → i ≤ f
      → IsUserFrame f
      → get_or m f 0 ≡ 0
      → ((j : ℕ) → i ≤ j → j < f → j % 2 ≡ 0 → get_or m j 0 ≢ 0)
      → Allocated i m (pos f, set m f 1)
  exhausted : ((j : ℕ) → i ≤ j → IsUserFrame j → get_or m j 0 ≢ 0) → Allocated i m (negsuc 0, m)

next_even : (i j : ℕ) → i ≤ j → i % 2 ≡ 0 → j % 2 ≡ 0 → (i ≡ j) ⊎ (i + 2 ≤ j)
next_even i j le ei ej = elim (Bool-cases (i == j)) [
  | inl same ↦ inl (ground arith)
  | inr ne ↦ inr (ground arith)
]

alloc_from-Allocated :
    (rounds i : ℕ) (m : PhysMem)
    → num_pag_kernel ≤ i
    → i % 2 ≡ 0
    → total_pages < i + 2 * rounds
    → Allocated i m (alloc_from rounds i m)
unfolding alloc_from
alloc_from-Allocated zero i m lo even ends = exhausted (λ j le u. absurd (omega arith))
alloc_from-Allocated (suc rounds) i m lo even ends = elim (Bool-cases (ltb i total_pages)) [
  | inr out ↦ rw out (exhausted (λ j le u. ground arith))
  | inl go ↦ rw go (elim (Bool-cases (get_or m i 0 == 0)) [
    | inl hit ↦
        rw hit
          (found i (omega arith) (ground arith) (ground arith) (λ j le lt. absurd (omega arith)))
    | inr miss ↦ rw miss (
        later (alloc_from rounds (i + 2) m) (ground arith)
          (alloc_from-Allocated rounds (i + 2) m (omega arith) (omega arith) (omega arith)))
  ])
]
  where
    later : (r : ℤ × PhysMem) → get_or m i 0 ≢ 0 → Allocated (i + 2) m r → Allocated i m r
    later r ne (found f le u z below) = found f (omega arith) u z λ j a b e.
        elim (next_even i j a even e) [ inl same ↦ rw same at ne | inr past ↦ below j past b e ]
    later r ne (exhausted none) = exhausted λ j a u. elim (next_even i j a even u.2) [
      | inl same ↦ rw same at ne
      | inr past ↦ none j past u
    ]

-- `alloc_frame` searches all the frames that it can hand out: it returns the first free one and
-- marks it, or -1 when none is free and nothing changes.
pub alloc_frame-Allocated : (m : PhysMem) → Allocated num_pag_kernel m (alloc_frame m)
unfolding alloc_frame
alloc_frame-Allocated m = alloc_from-Allocated 385 num_pag_kernel m (omega arith) refl (omega arith)

set_get : (m : PhysMem) (f : ℕ) → f < length m → set m f (get_or m f 0) ≡ m
set_get [] f h = refl
set_get (x ∷ m) zero h = refl
set_get (x ∷ m) (suc f) h = ap (λ l. x ∷ l) (set_get m f (omega arith))

set-set : (m : PhysMem) (f a b : ℕ) → set (set m f a) f b ≡ set m f b
set-set [] f a b = refl
set-set (x ∷ m) zero a b = refl
set-set (x ∷ m) (suc f) a b = ap (λ l. x ∷ l) (set-set m f a b)

-- A frame above the first user frame that was free is free again after `free_frame`, and the map is
-- as it was before it was taken.
pub free_frame-set :
    (m : PhysMem) (f v : ℕ)
    → length m ≡ total_pages
    → num_pag_kernel < f
    → f < total_pages
    → get_or m f 0 ≡ 0
    → free_frame f (set m f v) ≡ m
unfolding free_frame
free_frame-set m f v len lo hi z =
    let e : set (set m f v) f 0 ≡ m =
      set-set m f v 0 ∙ (ap (λ k. set m f k) (sym z) ∙ set_get m f (omega arith)) in
    ground arith

-- The first user frame is handed out by `alloc_frame`, but `free_frame` never gives it back.
pub free_frame-first : (m : PhysMem) → free_frame num_pag_kernel m ≡ m
unfolding free_frame
free_frame-first m = refl

length-fill : (n i v : ℕ) (m : PhysMem) → length (fill n i v m) ≡ length m
unfolding fill
length-fill zero i v m = refl
length-fill (suc n) i v m = length-fill n (i + 1) v (set m i v) ∙ length-set m i v

-- `fill` writes exactly the entries `i`, `i + 1`, …, `i + n - 1`.
fill_get :
    (n i v : ℕ) (m : PhysMem) (j : ℕ)
    → i + n ≤ length m
    → get_or (fill n i v m) j 0 ≡ (if leb i j && ltb j (i + n) then v else get_or m j 0)
unfolding fill
fill_get zero i v m j h = ground arith
fill_get (suc n) i v m j h = ground (
  arith,
  fill_get n (i + 1) v (set m i v) j,
  length-set m i v,
  get_or-set_self m i v 0,
  get_or-set_ne m {i = i} {j = j} v 0,
)

-- After `init_frames` exactly the kernel's frames are in use.
pub init_frames_lem :
    (m : PhysMem) (j : ℕ)
    → length m ≡ total_pages
    → j < total_pages
    → get_or (init_frames m) j 0 ≡ (if ltb j num_pag_kernel then 1 else 0)
unfolding init_frames
init_frames_lem m j len h =
    let cleared = fill total_pages 0 0 m in
    ground (
      arith,
      fill_get num_pag_kernel 0 1 cleared j,
      fill_get total_pages 0 0 m j,
      length-fill total_pages 0 0 m,
    )
