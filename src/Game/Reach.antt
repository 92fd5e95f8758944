-- ===== src/Game/Reach.antt =====
-- The states that the loop of `start_game` goes through, in practica/zeos/game.c.
use soa_ze_os.Prelude.{ℕ, ◌<◌, ◌≡◌, ◌⊎◌, Bool, true, false, some}
use soa_ze_os.Prelude.Int.{ℤ, pos, ◌≤ℤ◌}
use soa_ze_os.Links.{list_empty}
use soa_ze_os.Game.{TDir, is_null, is_food}
use soa_ze_os.Game.Play.{Play, movements, gettime}
use soa_ze_os.Game.Maze.{init_game}
use soa_ze_os.Game.Turn.{play_round}
use soa_ze_os.Game.Food.{food}
use soa_ze_os.Game.Search.Marks.{InMaze}
use soa_ze_os.Game.Rounds.{IsPlay}
use soa_ze_os.Game.Loop.{IsReading}

-- A key can be taken: there is none, or the list of moves is empty.
abbrev pub Room : TDir → Play → Type 0
Room key p = (is_null key ≡ true) ⊎ (list_empty movements p.links ≡ some (true, p.links))

-- The states at the loop's test, with `curr_time`, when every key comes while there is room for it.
pub data Reach (fuel : ℕ) (offset : ℤ) (start : Play) : Play → ℕ → Type 0 where
  started :
      {p : Play}
      → init_game offset start ≡ some p
      → Reach fuel offset start (gettime p).1 (gettime p).0
  played :
      {p q : Play} {time end_time : ℕ} (key : TDir)
      → Reach fuel offset start p time
      → Room key p
      → play_round fuel key time p ≡ some (end_time, q)
      → Reach fuel offset start q end_time

-- What holds of every such state.
pub record Good (start p : Play) (time : ℕ) : Type 0 where
  pub waits : Bool
  pub in_order : IsPlay p waits
  pub same_clock : p.clock ≡ start.clock
  pub reading : IsReading time p

-- What the loop's test says of a game.
abbrev pub Test : Play → Bool → Type 0
Test p true = (pos 1 ≤ℤ p.lives) × (0 < food p.game.matrix)
Test p false = (p.lives ≤ℤ pos 0) ⊎ ((x y : ℤ) → InMaze x y → is_food (p.game.matrix x y) ≡ false)
