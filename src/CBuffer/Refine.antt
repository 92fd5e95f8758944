-- ===== src/CBuffer/Refine.antt =====
-- A valid circular buffer behaves as a first-in first-out queue of at most `buffer_size` characters.
use soa_ze_os.Prelude.{
  ℕ, zero, suc, ◌+◌, ◌-◌, ◌%◌, ◌≤◌, ◌<◌, ◌≡◌, refl, ◌≢◌, ap₂, ap, ◌∙◌, List, [], ◌∷◌, ◌++◌, arith,
  ◌==◌, if◌then◌else◌, length, get_or, set, get_or-set_self, get_or-set_ne,
}
use soa_ze_os.CBuffer.{CircularBuffer, buffer_size, enqueue, dequeue}
use soa_ze_os.CBuffer.Inv.{IsValid, enqueue-IsValid, dequeue-IsValid}

-- The `n` characters from place `r` on, going round at `buffer_size`.
abbrev pub window : List ℕ → ℕ → ℕ → List ℕ
window b r zero = []
window b r (suc n) = get_or b (r % buffer_size) 0 ∷ window b (r + 1) n

-- The queue that the buffer stands for, oldest character first.
abbrev pub contents : CircularBuffer → List ℕ
contents cb = window cb.buffer cb.read_index cb.count

pub length-window : (b : List ℕ) (r n : ℕ) → length (window b r n) ≡ n
length-window b r zero = refl
length-window b r (suc n) = ap suc (length-window b (r + 1) n)

window-mod :
    (b : List ℕ) (r s n : ℕ) → r % buffer_size ≡ s % buffer_size → window b r n ≡ window b s n
window-mod b r s zero h = refl
window-mod b r s (suc n) h =
    ap₂ ◌∷◌ (ap (λ k. get_or b k 0) h) (window-mod b (r + 1) (s + 1) n (omega arith))

-- Writing `m` places past the start leaves a shorter window alone.
window-set :
    (b : List ℕ) (r n m w x : ℕ)
    → w ≡ (r + m) % buffer_size
    → n ≤ m
    → m < buffer_size
    → window (set b w x) r n ≡ window b r n
window-set b r zero m w x e le lt = refl
window-set b r (suc n) m w x e le lt =
    ap₂ ◌∷◌ (get_or-set_ne b x 0 (omega arith))
      (window-set b (r + 1) n (m - 1) w x (omega arith) (omega arith) (omega arith))

window-snoc :
    (b : List ℕ) (r n : ℕ)
    → window b r (suc n) ≡ window b r n ++ (get_or b ((r + n) % buffer_size) 0 ∷ [])
window-snoc b r zero = ap (λ k. get_or b k 0 ∷ []) (omega arith)
window-snoc b r (suc n) =
    ap (λ l. get_or b (r % buffer_size) 0 ∷ l)
      (window-snoc b (r + 1) n ∙ ap (λ k. window b (r + 1) n ++ (get_or b k 0 ∷ [])) (omega arith))

window_pos :
    (b : List ℕ) (r n : ℕ)
    → n ≢ 0
    → window b r n ≡ get_or b (r % buffer_size) 0 ∷ window b (r + 1) (n - 1)
window_pos b r zero h = absurd (h refl)
window_pos b r (suc n) h = ap (λ k. window b r (suc k)) (omega arith)

-- A queue that takes a character only while it is short of `buffer_size`.
unfoldable pub push : List ℕ → ℕ → List ℕ
push q c = if length q == buffer_size then q else q ++ (c ∷ [])

-- Taking from the empty queue gives `junk`.
unfoldable pub pop : ℕ → List ℕ → ℕ × List ℕ
pop junk [] = (junk, [])
pop junk (c ∷ q) = (c, q)

pub enqueue_refines :
    {cb : CircularBuffer} (c : ℕ) → IsValid cb → contents (enqueue cb c) ≡ push (contents cb) c
unfolding enqueue push
enqueue_refines {cb} c v = ground (
  arith,
  length-window b r n,
  window-snoc (set b w c) r n,
  window-set b r n n w c,
  get_or-set_self b w c 0,
)
  where
    open cb use {buffer as b, read_index as r, write_index as w, count as n}

pub dequeue_refines :
    (junk : ℕ) {cb : CircularBuffer}
    → IsValid cb
    → let (c, cb') = dequeue junk cb in (c, contents cb') ≡ pop junk (contents cb)
unfolding dequeue pop
dequeue_refines junk {cb} v =
    ground (arith, window_pos b r n, window-mod b ((r + 1) % buffer_size) (r + 1) (n - 1))
  where
    open cb use {buffer as b, read_index as r, count as n}

-- What the keyboard and the reader do with the buffer.
pub data Op : Type 0 where
  put : ℕ → Op
  take_out : Op

-- The buffer after a sequence of calls, and the characters that the calls returned.
unfoldable pub run : ℕ → CircularBuffer → List Op → CircularBuffer × List ℕ
run junk cb [] = (cb, [])
run junk cb (put c ∷ ops) = run junk (enqueue cb c) ops
run junk cb (take_out ∷ ops) =
    let (c, cb') = dequeue junk cb in let (end, out) = run junk cb' ops in (end, c ∷ out)

-- The same calls on the queue.
unfoldable pub run_queue : ℕ → List ℕ → List Op → List ℕ × List ℕ
unfolding push pop
run_queue junk q [] = (q, [])
run_queue junk q (put c ∷ ops) = run_queue junk (push q c) ops
run_queue junk q (take_out ∷ ops) =
    let (c, q') = pop junk q in let (end, out) = run_queue junk q' ops in (end, c ∷ out)

-- Whatever the sequence of calls, a valid buffer stays valid, returns what the bounded queue of its
-- contents returns, and ends up holding that queue.
pub run_refines :
    (junk : ℕ) (ops : List Op) {cb : CircularBuffer}
    → IsValid cb
    → let (cb', out) = run junk cb ops in
      IsValid cb' × ((contents cb', out) ≡ run_queue junk (contents cb) ops)
unfolding run run_queue
run_refines junk [] v = (v, refl)
run_refines junk (put c ∷ ops) v =
    rw (← enqueue_refines c v) (run_refines junk ops (enqueue-IsValid c v))
run_refines junk (take_out ∷ ops) {cb} v =
    let rest = run_refines junk ops (dequeue-IsValid junk v) in
    (rest.0, ground (arith, dequeue_refines junk v, rest.1))
