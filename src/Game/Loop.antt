-- ===== src/Game/Loop.antt =====
-- The rounds of `start_game` in practica/zeos/game.c, with the phantoms, the lives and the clock.
use soa_ze_os.Prelude.{
  ℕ, zero, suc, ◌+◌, ◌≤◌, ◌<◌, ◌≡◌, refl, sym, subst, ◌⊎◌, inl, inr, Bool, Bool-cases, true, false,
  arith, ltb, leb, some,
}
use soa_ze_os.Game.{delay, TDir, is_null}
use soa_ze_os.Game.Play.{Play}
use soa_ze_os.Game.Turn.{wait, play_round}
use soa_ze_os.Game.Rounds.{IsPlay, SameClock, take_move-Returns, turn_of_pacman-Returns}
use soa_ze_os.Game.Lives.{IsPlay-same, SameClock-trans, turn_of_phantoms-Returns}

-- Within `fuel` readings the clock moves on by more than `delay`.
abbrev pub Runs : (fuel : ℕ) → (clock : ℕ → ℕ) → Type 0
Runs fuel clock = (j k : ℕ) → j + fuel ≤ k → clock j + delay < clock k

-- `time` is a reading made before.
abbrev pub IsReading : (time : ℕ) → Play → Type 0
IsReading time p = (j : ℕ) × (j < p.clock_reads) × (time ≡ p.clock j)

-- The wait ends when every reading from `fuel` readings on is past the deadline.
wait_lem :
    (fuel deadline : ℕ) (p : Play)
    → 0 < fuel
    → ((k : ℕ) → p.clock_reads + fuel ≤ k + 1 → deadline < p.clock k)
    → (n : ℕ) × (wait fuel deadline p ≡ some (record p { clock_reads = n })) × (p.clock_reads < n)
unfolding wait
wait_lem zero deadline p lt passes = absurd (omega arith)
wait_lem (suc fuel) deadline p lt passes =
    elim (Bool-cases (leb (p.clock p.clock_reads) deadline)) [
      | inr past ↦ (p.clock_reads + 1, rw (past) refl, omega arith)
      | inl early ↦ elim (Bool-cases (ltb 0 fuel)) [
        | inr last ↦ let now = passes p.clock_reads (ground arith) in absurd (ground arith)
        | inl more ↦
            let (n, run, later) =
              wait_lem fuel deadline (record p { clock_reads = p.clock_reads + 1 }) (ground arith)
                (λ k le. passes k (omega arith)) in
            (n, rw (early) run, omega arith)
      ]
    ]

-- A round of the loop from a game in order.
pub record Played (fuel : ℕ) (key : TDir) (time : ℕ) (p : Play) : Type 0 where
  pub end : Play
  pub end_time : ℕ
  pub waits : Bool
  pub run : play_round fuel key time p ≡ some (end_time, end)
  pub in_order : IsPlay end waits
  pub same_clock : end.clock ≡ p.clock
  pub reading : IsReading end_time end

wait-Passes :
    (fuel time : ℕ) (p c : Play)
    → Runs fuel p.clock
    → IsReading time p
    → SameClock p c
    → (k : ℕ) → c.clock_reads + fuel ≤ k + 1
    → time + delay < c.clock k
wait-Passes fuel time p c runs (j, before, now) same k le =
    let reads = same.reads in
    let on = runs j k (omega arith) in
    subst (λ f. time + delay < f k) (sym same.clock)
      (subst (λ t. t + delay < p.clock k) (sym now) on)

-- When the clock runs, and a key comes only when no move is on the list, a round returns and leaves the
-- game in order.
pub play_round_lem :
    (fuel : ℕ) (key : TDir) (time : ℕ) (p : Play) (waits : Bool)
    → 0 < fuel
    → Runs fuel p.clock
    → IsReading time p
    → (is_null key ≡ true) ⊎ (waits ≡ false)
    → IsPlay p waits
    → Played fuel key time p
unfolding play_round
play_round_lem fuel key time p waits lt runs now room h =
    let (a, run_a, wa, ha, ca) = take_move-Returns key p waits room h in
    let (b, run_b, wb, hb, cb) = turn_of_pacman-Returns a wa ha in
    let (c, run_c, wc, hc, cc') = turn_of_phantoms-Returns b wb hb in
    let same = SameClock-trans p a c ca (SameClock-trans a b c cb cc') in
    let (n, run_d, _) =
      wait_lem fuel (time + delay) c lt (wait-Passes fuel time p c runs now same) in
    record {
      end = record c { clock_reads = n + 1 };
      end_time = c.clock n;
      waits = wc;
      run = rw (run_a, run_b, run_c, run_d, play_round) refl;
      in_order = IsPlay-same c _ wc refl refl refl hc;
      same_clock = same.clock;
      reading = (n, omega arith, refl);
    }
