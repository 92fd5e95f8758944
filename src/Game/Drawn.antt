-- ===== src/Game/Drawn.antt =====
-- Drawing leaves the game alone.
use soa_ze_os.Prelude.{
  ℕ, ◌+◌, ◌*◌, ◌≤◌, ◌≡◌, refl, ◌∙◌, arith, Bool, true, false, rounds, rounds_inv, ltb,
  if◌then◌else◌,
}
use soa_ze_os.Prelude.Int.{ℤ, pos}
use soa_ze_os.Game.{TCell, ct_wall, ct_null, ct_food, ct_empty}
use soa_ze_os.Game.Play.{Play, Call, ◌⟫◌, emit}
use soa_ze_os.Game.Draw.{
  print_cell, print_map, print_phantom, print_units, clear_screen, print_frame, print_rate,
  print_stray, print_padding, print_points, print_number_at, imprimir_coordenadas,
}

-- What no drawing changes. It may read the clock.
pub record Drawn (p q : Play) : Type 0 where
  pub game : q.game ≡ p.game
  pub lives : q.lives ≡ p.lives
  pub total : q.total ≡ p.total
  pub links : q.links ≡ p.links
  pub moviment : q.moviment ≡ p.moviment
  pub clock : q.clock ≡ p.clock
  pub reads : p.clock_reads ≤ q.clock_reads

abbrev pub Draws : (Play → Play) → Type 0
Draws f = (p : Play) → Drawn p (f p)

pub Drawn-trans : (p q r : Play) → Drawn p q → Drawn q r → Drawn p r
Drawn-trans p q r a b = record {
  game = b.game ∙ a.game;
  lives = b.lives ∙ a.lives;
  total = b.total ∙ a.total;
  links = b.links ∙ a.links;
  moviment = b.moviment ∙ a.moviment;
  clock = b.clock ∙ a.clock;
  reads = omega (arith, a.reads, b.reads);
}

Drawn-same : (p : Play) → Drawn p p
Drawn-same p = record {
  game = refl;
  lives = refl;
  total = refl;
  links = refl;
  moviment = refl;
  clock = refl;
  reads = omega arith;
}

pub emit-Draws : (c : Call) → Draws (emit c)
unfolding emit
emit-Draws c p = record {
  game = refl;
  lives = refl;
  total = refl;
  links = refl;
  moviment = refl;
  clock = refl;
  reads = omega arith;
}

pub then-Draws : {f g : Play → Play} → Draws f → Draws g → Draws (f ⟫ g)
then-Draws {f} {g} a b p = Drawn-trans p (f p) (g (f p)) (a p) (b (f p))

rounds-Draws :
    (n : ℕ) {body : ℕ → Play → Play} → ((k : ℕ) → Draws (body k)) → Draws (rounds n 0 body)
rounds-Draws n {body} h p =
    rounds_inv (λ _ q. Drawn p q) body n (λ k q _ d. Drawn-trans p q (body k q) d (h k q)) n 0 p
      (omega arith) (Drawn-same p)

print_cell-Draws : (c : TCell) → Draws (print_cell c)
unfolding print_cell
print_cell-Draws ct_wall = then-Draws (emit-Draws _) (emit-Draws _)
print_cell-Draws ct_food = then-Draws (emit-Draws _) (emit-Draws _)
print_cell-Draws ct_empty = then-Draws (emit-Draws _) (emit-Draws _)
print_cell-Draws ct_null = Drawn-same

pub print_map-Draws : Draws print_map
unfolding print_map
print_map-Draws = rounds-Draws 20 λ i.
    then-Draws (emit-Draws _)
      (rounds-Draws 50 λ j p. print_cell-Draws (p.game.matrix (pos i) (pos j)) p)

pub print_units-Draws : Draws print_units
unfolding print_units print_phantom
print_units-Draws p =
    then-Draws (emit-Draws _)
      (then-Draws (emit-Draws _) (
        then-Draws (emit-Draws _) (
          rounds-Draws 4
            λ i q. then-Draws (emit-Draws _) (then-Draws (emit-Draws _) (emit-Draws _)) q)))
      p

pub clear_screen-Draws : Draws clear_screen
unfolding clear_screen
clear_screen-Draws =
    then-Draws (emit-Draws _) (then-Draws (emit-Draws _) (rounds-Draws (25 * 80) λ _. emit-Draws _))

pub if-Draws :
    (b : Bool) {f g : Play → Play}
    → Draws f
    → Draws g
    → (p : Play) → Drawn p (if b then f p else g p)
if-Draws true f g p = f p
if-Draws false f g p = g p

print_number_at-Draws : (y : ℕ) (a : ℤ) → Draws (print_number_at y a)
unfolding print_number_at
print_number_at-Draws y a = then-Draws (emit-Draws _) (emit-Draws _)

number_then : (y : ℕ) (a : ℤ) {f : Play → Play} → Draws f → Draws (print_number_at y a ⟫ f)
number_then y a = then-Draws (print_number_at-Draws y a)

pub imprimir_coordenadas-Draws : Draws imprimir_coordenadas
unfolding imprimir_coordenadas
imprimir_coordenadas-Draws p =
    number_then _ _
      (number_then _ _ (
        number_then _ _ (
          number_then _ _ (
            number_then _ _ (
              number_then _ _ (
                number_then _ _ (
                  number_then _ _
                    (number_then _ _ (number_then _ _ (print_number_at-Draws _ _))))))))))
      p

print_padding-Draws : (fps : ℕ) → Draws (print_padding fps)
unfolding print_padding
print_padding-Draws fps =
    if-Draws (ltb fps 100) (then-Draws (emit-Draws _) (then-Draws (emit-Draws _) (emit-Draws _)))
      Drawn-same

print_stray-Draws : Draws print_stray
unfolding print_stray
print_stray-Draws p = emit-Draws _ p

print_rate-Draws : (fps : ℕ) → Draws (print_rate fps)
unfolding print_rate
print_rate-Draws fps =
    then-Draws (emit-Draws _) (then-Draws print_stray-Draws (print_padding-Draws fps))

print_points-Draws : Draws print_points
unfolding print_points
print_points-Draws p = then-Draws (emit-Draws _) (then-Draws (emit-Draws _) (emit-Draws _)) p

-- A frame is counted and the clock read.
count_frame-Drawn :
    (p : Play) → Drawn p (record p { frames = p.frames + 1; clock_reads = p.clock_reads + 1 })
count_frame-Drawn p = record {
  game = refl;
  lives = refl;
  total = refl;
  links = refl;
  moviment = refl;
  clock = refl;
  reads = omega arith;
}

pub print_frame-Draws : Draws print_frame
unfolding print_frame
print_frame-Draws p =
    let drawn = then-Draws print_map-Draws print_units-Draws p in
    let counted = Drawn-trans p _ _ drawn (count_frame-Drawn _) in
    Drawn-trans p _ _ counted (then-Draws (print_rate-Draws _) print_points-Draws _)
