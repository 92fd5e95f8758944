-- ===== src/Sys/Pieces.antt =====
-- The pieces in which `sys_write` of practica/zeos/sys.c goes to the console.
use mathlib.Core.List.{append_assoc, append-nil}
use soa_ze_os.Prelude.{
  ℕ, zero, suc, ◌+◌, ◌-◌, ◌≤◌, ◌<◌, ◌≡◌, refl, sym, ap, ap₂, ◌∙◌, ◌⊎◌, inl, inr, arith, ◌++◌, ◌∷◌,
}
use soa_ze_os.Prelude.Int.{pos}
use soa_ze_os.Utils.{Bytes, copy_from_user}
use soa_ze_os.Utils.Copy.{Apart, copy_data_lem}
use soa_ze_os.Io.Cursor.{OnScreen}
use soa_ze_os.Io.Text.{text, text-append, sys_write_console_lem}
use soa_ze_os.Kernel.{Kernel}
use soa_ze_os.Sys.{tam_buffer, write_chunk}

-- The user's buffer and the kernel's local one have no byte in common.
abbrev pub Clear : (localbuffer buffer n : ℕ) → Type 0
Clear localbuffer buffer n = (buffer + n ≤ localbuffer) ⊎ (localbuffer + tam_buffer ≤ buffer)

-- The `n` bytes at `buffer` have gone to the console, and of the memory only the local buffer has changed.
pub record Wrote (localbuffer buffer n : ℕ) (k k' : Kernel) : Type 0 where
  pub log : k'.screen.log ≡ k.screen.log ++ text k.bytes buffer n
  pub on_screen : OnScreen k'.screen
  pub kept : (a : ℕ) → (a < localbuffer) ⊎ (localbuffer + tam_buffer ≤ a) → k'.bytes a ≡ k.bytes a

-- Two texts with the same characters.
pub text_same :
    (f g : ℕ → ℕ) (i j n : ℕ) → ((a : ℕ) → a < n → f (i + a) ≡ g (j + a)) → text f i n ≡ text g j n
text_same f g i j zero h = refl
text_same f g i j (suc n) h =
    let shift : (x a : ℕ) → x + 1 + a ≡ x + suc a = λ x a. omega arith in
    let start : (x : ℕ) → x ≡ x + 0 = λ x. omega arith in
    let first : f i ≡ g j = ap f (start i) ∙ h 0 (omega arith) ∙ ap g (sym (start j)) in
    ap₂ ◌∷◌ first (
      text_same f g (i + 1) (j + 1) n
        λ a lt. ap f (shift i a) ∙ h (suc a) (omega arith) ∙ ap g (sym (shift j a)))

pub write_chunk-Wrote :
    (localbuffer buffer n : ℕ) (k : Kernel)
    → n ≤ tam_buffer
    → Clear localbuffer buffer n
    → OnScreen k.screen
    → ((write_chunk localbuffer buffer n k).0 ≡ n)
      × Wrote localbuffer buffer n k (write_chunk localbuffer buffer n k).1
unfolding write_chunk
write_chunk-Wrote localbuffer buffer n k le clear o =
    let apart : Apart buffer localbuffer n = elim clear [
      | inl h ↦ inl h
      | inr h ↦ inr (omega arith)
    ] in
    let (_, _, c, _, _) = copy_data_lem buffer localbuffer n k.bytes apart in
    let bytes : Bytes = (copy_from_user buffer localbuffer (pos n) k.bytes).1 in
    let shown = sys_write_console_lem (λ i. bytes (localbuffer + i)) n k.screen o in
    (
      shown.0,
      record {
        log =
            shown.1
            ∙ ap (λ t. k.screen.log ++ t)
                (text_same (λ i. bytes (localbuffer + i)) k.bytes 0 buffer n
                  λ a lt.
                    let here : localbuffer + (0 + a) ≡ localbuffer + a = omega arith in
                    let there : buffer + (localbuffer + a - localbuffer) ≡ buffer + a =
                      omega arith in
                    ap bytes here
                    ∙ c.inside (localbuffer + a) (omega arith) (omega arith)
                    ∙ ap k.bytes there);
        on_screen = shown.2;
        kept = λ a out. c.outside a (elim out [ inl h ↦ inl h | inr h ↦ inr (omega arith) ]);
      },
    )

-- One piece after the other.
pub Wrote-append :
    (localbuffer buffer m n : ℕ) (k k₁ k₂ : Kernel)
    → Clear localbuffer buffer (m + n)
    → Wrote localbuffer buffer m k k₁
    → Wrote localbuffer (buffer + m) n k₁ k₂
    → Wrote localbuffer buffer (m + n) k k₂
Wrote-append localbuffer buffer m n k k₁ k₂ clear v w =
    let same : text k₁.bytes (buffer + m) n ≡ text k.bytes (buffer + m) n =
      text_same k₁.bytes k.bytes (buffer + m) (buffer + m) n λ a lt.
        v.kept (buffer + m + a)
          (elim clear [ inl h ↦ inl (omega arith) | inr h ↦ inr (omega arith) ]) in
    record {
      log =
          w.log
          ∙ ap (λ t. t ++ text k₁.bytes (buffer + m) n) v.log
          ∙ append_assoc k.screen.log (text k.bytes buffer m) (text k₁.bytes (buffer + m) n)
          ∙ ap (λ t. k.screen.log ++ (text k.bytes buffer m ++ t)) same
          ∙ ap (λ t. k.screen.log ++ t)
              (text-append k.bytes buffer (buffer + m) (m + n) m n refl refl);
      on_screen = w.on_screen;
      kept = λ a out. w.kept a out ∙ v.kept a out;
    }

pub Wrote-zero :
    (localbuffer buffer : ℕ) (k : Kernel) → OnScreen k.screen → Wrote localbuffer buffer 0 k k
Wrote-zero localbuffer buffer k o = record {
  log = sym (append-nil k.screen.log);
  on_screen = o;
  kept = λ a out. refl;
}
