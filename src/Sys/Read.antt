-- ===== src/Sys/Read.antt =====
-- `sys_read` of practica/zeos/sys.c: the characters of the keyboard buffer reach the user in order.
use mathlib.Core.List.{append_assoc}
use soa_ze_os.Prelude.{
  ℕ, zero, suc, ◌+◌, ◌-◌, ◌≤◌, ◌<◌, ◌≡◌, refl, sym, ap, ap₂, ◌∙◌, ◌⊎◌, inl, inr, Bool-cases, true,
  false, arith, ltb, ◌==◌, if◌then◌else◌, List, [], ◌∷◌, ◌++◌, length, length-append, rounds,
  rounds_inv,
}
use soa_ze_os.Prelude.Int.{pos, ltb_ℤ}
use soa_ze_os.CBuffer.{dequeue}
use soa_ze_os.CBuffer.Inv.{IsValid, dequeue-IsValid}
use soa_ze_os.CBuffer.Refine.{contents, length-window, pop, dequeue_refines}
use soa_ze_os.Utils.{verify_write, put_byte}
use soa_ze_os.Utils.Copy.{copy_data_lem}
use soa_ze_os.Io.Text.{text, text-append}
use soa_ze_os.Kernel.{Kernel}
use soa_ze_os.Sys.{accepts, read_char, sys_read}

-- The first characters of the queue that `q` was stand at `b`, in order, and the buffer holds the
-- others; of the memory only `b[0]` to `b[i - 1]` and the local variable have changed.
pub record Delivered (c_dequeue b i : ℕ) (k k' : Kernel) : Type 0 where
  pub valid : IsValid k'.cb
  pub order : text k'.bytes b i ++ contents k'.cb ≡ contents k.cb
  pub kept : (a : ℕ) → (a == c_dequeue) ≡ false → (a < b) ⊎ (b + i ≤ a) → k'.bytes a ≡ k.bytes a

text-snoc : (f : ℕ → ℕ) (i n : ℕ) → text f i (n + 1) ≡ text f i n ++ (f (i + n) ∷ [])
text-snoc f i n = sym (text-append f i (i + n) (n + 1) n 1 refl refl)

length-text : (f : ℕ → ℕ) (i n : ℕ) → length (text f i n) ≡ n
length-text f i zero = refl
length-text f i (suc n) = ap suc (length-text f (i + 1) n)

text_kept :
    (f g : ℕ → ℕ) (i n : ℕ) → ((a : ℕ) → i ≤ a → a < i + n → f a ≡ g a) → text f i n ≡ text g i n
text_kept f g i zero h = refl
text_kept f g i (suc n) h =
    ap₂ ◌∷◌ (h i (omega arith) (omega arith))
      (text_kept f g (i + 1) n λ a ge lt. h a (omega arith) (omega arith))

pop-split : (junk : ℕ) (q : List ℕ) → 0 < length q → (pop junk q).0 ∷ (pop junk q).1 ≡ q
unfolding pop
pop-split junk [] h = absurd (omega arith)
pop-split junk (c ∷ q) h = refl

-- What a round does to the memory.
read_char-bytes :
    (junk c_dequeue b i : ℕ) (k : Kernel)
    → (b + i == c_dequeue) ≡ false
    → ((read_char junk c_dequeue b i k).bytes (b + i) ≡ (dequeue junk k.cb).0)
      × ((a : ℕ)
          → (a == c_dequeue) ≡ false
          → (a == b + i) ≡ false
          → (read_char junk c_dequeue b i k).bytes a ≡ k.bytes a)
unfolding read_char put_byte
read_char-bytes junk c_dequeue b i k ne =
    let c = (dequeue junk k.cb).0 in
    let here : c_dequeue + (b + i - (b + i)) ≡ c_dequeue = omega arith in
    let (_, _, _, _, copied) =
      copy_data_lem c_dequeue (b + i) 1 (put_byte c_dequeue c k.bytes) (ground arith) in
    (
      copied.inside (b + i) (omega arith) (omega arith)
          ∙ (ap (put_byte c_dequeue c k.bytes) here ∙ ground arith),
      λ a na nb. copied.outside a (ground arith) ∙ ground arith,
    )

module _ (junk c_dequeue b n : ℕ) (k : Kernel) (clear : (c_dequeue < b) ⊎ (b + n ≤ c_dequeue)) where
  read_char-Delivered :
      (i : ℕ) (k' : Kernel)
      → i < n
      → n ≤ k.cb.count
      → Delivered c_dequeue b i k k'
      → Delivered c_dequeue b (i + 1) k (read_char junk c_dequeue b i k')
  unfolding read_char
  read_char-Delivered i k' lt le d =
      let k'' = read_char junk c_dequeue b i k' in
      let away : (x : ℕ) → x < n → (b + x == c_dequeue) ≡ false = λ x h. ground arith in
      let out = read_char-bytes junk c_dequeue b i k' (away i lt) in
      let lengths : i + length (contents k'.cb) ≡ k.cb.count =
        ap (λ m. m + length (contents k'.cb)) (sym (length-text k'.bytes b i))
        ∙ sym (length-append (text k'.bytes b i) (contents k'.cb))
        ∙ ap length d.order
        ∙ length-window k.cb.buffer k.cb.read_index k.cb.count in
      let popped = dequeue_refines junk d.valid in
      let front : k''.bytes (b + i) ∷ contents k''.cb ≡ contents k'.cb =
        ap (λ c. c ∷ contents k''.cb) out.0
        ∙ ap (λ p. p.0 ∷ p.1) popped
        ∙ pop-split junk (contents k'.cb) (omega (arith, lengths)) in
      let old : text k''.bytes b i ≡ text k'.bytes b i =
        text_kept k''.bytes k'.bytes b i λ a ge lt'. out.1 a (ground arith) (ground arith) in
      record {
        valid = dequeue-IsValid junk d.valid;
        order =
            ap (λ t. t ++ contents k''.cb) (text-snoc k''.bytes b i)
            ∙ append_assoc (text k''.bytes b i) (k''.bytes (b + i) ∷ []) (contents k''.cb)
            ∙ ap₂ ◌++◌ old front
            ∙ d.order;
        kept = λ a na o. out.1 a na (ground arith) ∙ d.kept a na (ground arith);
      }

  -- Below a length that does not exceed `count`, the loop delivers that many characters.
  delivered_lem :
      IsValid k.cb
      → n ≤ k.cb.count
      → Delivered c_dequeue b n k (rounds n 0 (read_char junk c_dequeue b) k)
  delivered_lem v le =
      rounds_inv (λ i k'. Delivered c_dequeue b i k k') (read_char junk c_dequeue b) n
        (λ i k' lt d. read_char-Delivered i k' lt le d) n 0 k (omega arith)
        (record { valid = v; order = refl; kept = λ a na o. refl })

abbrev pub available : (n : ℕ) → Kernel → ℕ
available n k = if ltb k.cb.count n then k.cb.count else n

-- With a buffer that `access_ok` accepts for writing and a valid keyboard buffer, `sys_read` of `n`
-- characters returns the smaller of `n` and the number of characters held, puts the oldest of them at
-- `b`, in order, leaves the others in the keyboard buffer, and changes no memory but these places and
-- its local variable.
pub sys_read_lem :
    (junk c_dequeue b n : ℕ) (k : Kernel)
    → (c_dequeue < b) ⊎ (b + n ≤ c_dequeue)
    → IsValid k.cb
    → accepts verify_write b (pos n) k ≡ true
    → ((sys_read junk c_dequeue b (pos n) k).0 ≡ pos (available n k))
      × Delivered c_dequeue b (available n k) k (sys_read junk c_dequeue b (pos n) k).1
unfolding sys_read
sys_read_lem junk c_dequeue b n k clear v ok = elim (Bool-cases (ltb k.cb.count n)) [
  | inl short ↦
      let short' : ltb_ℤ (pos k.cb.count) (pos n) ≡ true = ground arith in
      rw (ok, short', short)
        (
          refl,
          delivered_lem junk c_dequeue b k.cb.count k
              (elim clear [ inl h ↦ inl h | inr h ↦ inr (ground arith) ]) v (omega arith),
        )
  | inr long ↦
      let long' : ltb_ℤ (pos k.cb.count) (pos n) ≡ false = ground arith in
      rw (ok, long', long) (refl, delivered_lem junk c_dequeue b n k clear v (ground arith))
]
