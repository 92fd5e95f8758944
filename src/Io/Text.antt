-- ===== src/Io/Text.antt =====
-- What a run of characters leaves on the screen and on the debug port.
use mathlib.Core.List.{append_assoc, append-nil}
use soa_ze_os.Prelude.{
  ℕ, zero, suc, ◌+◌, ◌-◌, ◌%◌, ◌≤◌, ◌<◌, ◌≡◌, ◌≢◌, inl, inr, Bool-cases, refl, ◌∙◌, ap, sym, List,
  [], ◌∷◌, ◌++◌, false, ◌==◌, ltb, if◌then◌else◌, arith, length, get_or, rounds,
}
use soa_ze_os.Io.{Screen, newline, cell_of, printc, printk, sys_write_console}
use soa_ze_os.Io.Cursor.{OnScreen, place, cells, printc_lem, printc-OnScreen, log-printc}

-- A text with no terminator and no newline in it.
abbrev pub IsLine : List ℕ → Type 0
IsLine [] = Unit {0}
IsLine (c ∷ cs) = (c ≢ 0) × (c ≢ newline) × IsLine cs

-- How far cell `i` is behind the cursor, going round the screen.
abbrev pub offset : ℕ → Screen → ℕ
offset i s = (i + cells - place s) % cells

-- `printk` of a line writes its characters to the cells from the cursor on, in the current colour,
-- round the screen, and changes no other cell; the cursor ends up behind the line.
pub printk_lem :
    (cs : List ℕ) (s : Screen)
    → OnScreen s
    → IsLine cs
    → length cs ≤ cells
    → OnScreen (printk cs s)
      × (place (printk cs s) ≡ (place s + length cs) % cells)
      × ((i : ℕ)
          → i < cells
          → (printk cs s).vga i ≡ (
              if ltb (offset i s) (length cs)
              then cell_of s.color (get_or cs (offset i s) 0)
              else s.vga i))
unfolding printk
printk_lem [] s o l h = (o, omega (arith, o), λ i lt. ground arith)
printk_lem (c ∷ cs) s o l h =
    let rest = printk_lem cs (printc c s) (printc-OnScreen c o) l.2 (omega arith) in
    let first = printc_lem c o l.1 in
    let go : (c == 0) ≡ false = ground arith in
    rw go (
      rest.0,
      omega (arith, rest.1, first.0),
      λ i lt. elim (Bool-cases (i == place s)) [
        | inl same ↦
            let here : offset i s ≡ 0 = ground (arith, o) in
            let past : offset i (printc c s) ≡ 1999 = ground (arith, o, first.0) in
            rw here (ground (arith, rest.2 i, first.3 i, first.2, past))
        | inr other ↦
            let step : offset i s ≡ suc (offset i (printc c s)) = ground (arith, o, first.0) in
            rw step (ground (arith, rest.2 i, first.3 i, first.2))
      ],
    )

-- The characters `b[i]` to `b[i + n - 1]`.
abbrev pub text : (ℕ → ℕ) → ℕ → ℕ → List ℕ
text b i zero = []
text b i (suc n) = b i ∷ text b (i + 1) n

pub text-append :
    (b : ℕ → ℕ) (i j k n m : ℕ) → j ≡ i + n → k ≡ n + m → text b i n ++ text b j m ≡ text b i k
text-append b i j k zero m ej ek =
    let e : j ≡ i = omega arith in let e' : k ≡ m = omega arith in rw (e, e')
text-append b i j zero (suc n) m ej ek = absurd (omega arith)
text-append b i j (suc k) (suc n) m ej ek =
    ap (λ l. b i ∷ l) (text-append b (i + 1) j k n m (omega arith) (omega arith))

printed :
    (b : ℕ → ℕ) (n i : ℕ) (s : Screen)
    → OnScreen s
    → OnScreen (rounds n i (λ k. printc (b k)) s)
      × ((rounds n i (λ k. printc (b k)) s).log ≡ s.log ++ text b i n)
unfolding rounds
printed b zero i s o = (o, sym (append-nil s.log))
printed b (suc n) i s o =
    let rest = printed b n (i + 1) (printc (b i) s) (printc-OnScreen (b i) o) in
    (
      rest.0,
      rest.1
          ∙ (ap (λ l. l ++ text b (i + 1) n) (log-printc (b i) s).0
              ∙ append_assoc s.log (b i ∷ []) (text b (i + 1) n)),
    )

-- `sys_write_console` sends exactly the first `size` characters to the debug port, in order, keeps
-- the cursor on the screen, and returns `size`.
pub sys_write_console_lem :
    (buffer : ℕ → ℕ) (size : ℕ) (s : Screen)
    → OnScreen s
    → let (n, s') = sys_write_console buffer size s in
      (n ≡ size) × (s'.log ≡ s.log ++ text buffer 0 size) × OnScreen s'
unfolding sys_write_console
sys_write_console_lem buffer size s o =
    let done = printed buffer size 0 s o in (refl, done.1, done.0)
