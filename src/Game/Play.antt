-- ===== src/Game/Play.antt =====
-- The state of the game, the globals of practica/zeos/game.c with the `struct t_game`, and the calls of
-- the kernel that it makes to draw.
use Prim.Native.Char.{code}
use Prim.Native.String.{String}
use soa_ze_os.Prelude.{ℕ, ◌+◌, List, [], ◌∷◌, ◌++◌, ◌==◌, if◌then◌else◌}
use soa_ze_os.Prelude.Int.{ℤ}
use soa_ze_os.Links.{Addr, Links}
use soa_ze_os.Libc.{digits_of}
use soa_ze_os.Game.{TDir, TUnit, TGame}

-- A system call of the game that shows on the screen: `gotoxy`, `set_color`, and `write` to file 1.
pub data Call : Type 0 where
  call_gotoxy : (x y : ℤ) → Call
  call_set_color : (fg bg : ℕ) → Call
  call_write : List ℕ → Call

-- The list of moves to make has its head at `movements`; its only node stands in the local `moviments`
-- of `start_game`, whose direction is `moviment`.
pub record Play : Type 0 where
  pub game : TGame
  pub frames : ℕ
  pub offset_actual : ℤ
  pub lives : ℤ
  pub random : ℕ
  pub total : ℕ
  pub links : Links
  pub moviment : TDir
  -- the calls made so far
  pub calls : List Call
  -- what `gettime` returns at each call to come, and how often it has been called
  pub clock : ℕ → ℕ
  pub clock_reads : ℕ
  -- the characters at the address that the uninitialised `c` of `print_frame` and `v` of `init_game`
  -- and `restart` hold, which these pass for a pointer
  pub stray : List ℕ

-- The addresses of the list's head and of its node.
abbrev pub movements : Addr
movements = 4

abbrev pub moviments_list : Addr
moviments_list = 8

infixr 4 ◌⟫◌
abbrev pub ◌⟫◌ {ℓ} : {A : Type ℓ} → (A → A) → (A → A) → A → A
f ⟫ g = λ p. g (f p)

unfoldable pub emit : Call → Play → Play
emit c p = record p { calls = p.calls ++ c ∷ [] }

abbrev pub gotoxy : (x y : ℤ) → Play → Play
gotoxy x y = emit (call_gotoxy x y)

abbrev pub set_color : (fg bg : ℕ) → Play → Play
set_color fg bg = emit (call_set_color fg bg)

abbrev pub write : List ℕ → Play → Play
write buffer = emit (call_write buffer)

-- `gettime()`, and the state after it.
abbrev pub gettime : Play → ℕ × Play
gettime p = (p.clock p.clock_reads, record p { clock_reads = p.clock_reads + 1 })

-- The characters of a literal.
abbrev pub codes : String → List ℕ
codes String.[] = []
codes (String.◌∷◌ c s) = code c ∷ codes s

-- `itoa(a, buff); write(1, buff, strlen(buff));`
abbrev pub write_number : ℤ → Play → Play
write_number a = write (digits_of a)

unfoldable pub put_phantom : (i : ℕ) → TUnit → TGame → TGame
put_phantom i u g = record g { phantom = λ j. if j == i then u else g.phantom j }
