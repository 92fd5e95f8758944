-- ===== src/Interrupt/Keyboard.antt =====
-- What a byte from the keyboard does to the keyboard buffer.
use soa_ze_os.Prelude.{
  ℕ, ◌%◌, ◌^◌, ◌≡◌, refl, ◌∙◌, ◌⊎◌, inl, inr, ap, Bool-cases, true, false, List, [], length, arith,
  ltb, leb, if◌then◌else◌, get_or,
}
use soa_ze_os.CBuffer.{buffer_size, init_buffer}
use soa_ze_os.CBuffer.Inv.{IsValid, init_buffer-IsValid, enqueue-IsValid}
use soa_ze_os.CBuffer.Refine.{contents, push, enqueue_refines}
use soa_ze_os.Kernel.{Kernel}
use soa_ze_os.Interrupt.{char_map, set_up, keyboard_routine}

-- The buffer is set up, or has its array.
pub record IsReady (k : Kernel) : Type 0 where
  pub valid : (k.is_defined ≡ false) ⊎ IsValid k.cb
  pub storage : length k.cb.buffer ≡ buffer_size

-- The characters that are waiting: none before the first byte.
abbrev pub waiting : Kernel → List ℕ
waiting k = if k.is_defined then contents k.cb else []

abbrev pub key_char : (beyond : ℕ → ℕ) (c : ℕ) → ℕ
key_char beyond c = if ltb (c % 0x80) 98 then get_or char_map (c % 0x80) 0 else beyond (c % 0x80)

set_up_lem :
    (k : Kernel)
    → IsReady k
    → IsValid (set_up k).cb × (contents (set_up k).cb ≡ waiting k) × ((set_up k).is_defined ≡ true)
unfolding set_up init_buffer
set_up_lem k r = elim (Bool-cases k.is_defined) [
  | inl set ↦ elim r.valid [ inl unset ↦ absurd (ground arith) | inr v ↦ rw (set) (v, refl, refl) ]
  | inr new ↦ rw (new) (unfold init_buffer in init_buffer-IsValid k.cb r.storage, refl, refl)
]

-- A keyboard buffer that is valid, or is not set up yet and has its array, is valid after a byte. Only
-- the release of a key, whose byte has bit 7 set, puts the key's character behind those waiting (and
-- drops it when they fill the buffer); any other byte changes nothing of what is waiting.
pub keyboard_routine_lem :
    (beyond : ℕ → ℕ) (c : ℕ) (k : Kernel)
    → IsReady k
    → let k' = keyboard_routine beyond c k in
      IsValid k'.cb
      × (contents k'.cb
          ≡ (if leb 0x80 (c % 2 ^ 8) then push (waiting k) (key_char beyond c) else waiting k))
      × (k'.is_defined ≡ true)
unfolding keyboard_routine
keyboard_routine_lem beyond c k r =
    let s = set_up_lem k r in
    elim (Bool-cases (leb 0x80 (c % 2 ^ 8))) [
      | inr press ↦ rw (press) s
      | inl release ↦ rw (release) (
        enqueue-IsValid (key_char beyond c) s.0,
        enqueue_refines (key_char beyond c) s.0 ∙ ap (λ q. push q (key_char beyond c)) s.1,
        s.2,
      )
    ]
