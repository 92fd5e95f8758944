-- ===== src/Utils.antt =====
-- Copying, checking and timing, practica/zeos/utils.c and p_stats.c. Memory is a map from addresses
-- to bytes.
pub mod Copy
pub mod Access
pub mod Ticks
mod Tests
use soa_ze_os.Prelude.{
  ℕ, zero, suc, ◌+◌, ◌-◌, ◌*◌, ◌/◌, ◌%◌, ◌^◌, Bool, true, false, ◌&&◌, not, ltb, leb, ◌==◌,
  if◌then◌else◌, rounds,
}
use soa_ze_os.Prelude.Int.{ℤ, pos, negsuc, pos_part}
use soa_ze_os.Layout.{page_size}
use soa_ze_os.Mm.Frames.{total_pages}
use soa_ze_os.Mm.Paging.{Entries, get_frame, l_user_start, num_pag_code, num_pag_data}

abbrev pub Bytes : Type 0
Bytes = ℕ → ℕ

unfoldable pub put_byte : (a v : ℕ) → Bytes → Bytes
put_byte a v m b = if b == a then v else m b

-- `*q = *p` on a `DWord`: four bytes are read, then written.
unfoldable pub copy_word : (p q : ℕ) → Bytes → Bytes
copy_word p q m a = if leb q a && ltb a (q + 4) then m (p + (a - q)) else m a

-- `while (size > 0) { *q1++ = *p1++; size--; }`
unfoldable pub copy_bytes : (size p q : ℕ) → Bytes → Bytes
copy_bytes zero p q m = m
copy_bytes (suc size) p q m = copy_bytes size (p + 1) (q + 1) (put_byte q (m p) m)

-- `while (size > 4) { *q++ = *p++; size -= 4; }` and the loop over the bytes behind it. The size falls
-- in each round, so `size` rounds are enough.
unfoldable pub copy_words : (fuel size p q : ℕ) → Bytes → Bytes
copy_words zero size p q m = copy_bytes size p q m
copy_words (suc fuel) size p q m =
    let rest = copy_words fuel (size - 4) (p + 4) (q + 4) (copy_word p q m) in
    if ltb 4 size then rest else copy_bytes size p q m

-- A size below 0 copies nothing.
unfoldable pub copy_data : (start dest : ℕ) (size : ℤ) → Bytes → Bytes
copy_data start dest size = copy_words (pos_part size) (pos_part size) start dest

-- `copy_from_user` and `copy_to_user` repeat the body of `copy_data`, and return 0.
unfoldable pub copy_from_user : (start dest : ℕ) (size : ℤ) → Bytes → ℕ × Bytes
copy_from_user start dest size m = (0, copy_words (pos_part size) (pos_part size) start dest m)

unfoldable pub copy_to_user : (start dest : ℕ) (size : ℤ) → Bytes → ℕ × Bytes
copy_to_user start dest size m = (0, copy_words (pos_part size) (pos_part size) start dest m)

unfoldable pub memset : (s c : ℕ) (size : ℤ) → Bytes → Bytes
memset s c size = rounds (pos_part size) 0 (λ i. put_byte (s + i) (c % 2 ^ 8))

pub data AccessType : Type 0 where
  verify_read verify_write : AccessType

abbrev pub user_first_page : ℕ
user_first_page = l_user_start / 2 ^ 12

-- The loop over the pages from `page` on: whether none of them has frame 0.
unfoldable pub all_mapped : (pages pt page : ℕ) → Entries → Bool
all_mapped zero pt page m = true
all_mapped (suc pages) pt page m =
    if get_frame pt page m == 0 then false else all_mapped pages pt (page + 1) m

abbrev pub first_page : ℕ → ℕ
first_page addr = addr / 2 ^ 12

-- `addr + size` wraps at 32 bits.
abbrev pub last_page : (addr size : ℕ) → ℕ
last_page addr size = (addr + size) % 2 ^ 32 / 2 ^ 12

abbrev pub page_count : (addr size : ℕ) → ℕ
page_count addr size =
    last_page addr size - first_page addr + (if size % page_size == 0 then 0 else 1)

-- The `default` case. Only the `for` stands under the `if`: outside the range the answer is 1.
unfoldable pub read_ok : (pt addr size : ℕ) → Entries → Bool
read_ok pt addr size m =
    if leb user_first_page (first_page addr) && ltb (last_page addr size) total_pages
    then all_mapped (page_count addr size) pt (first_page addr) m
    else true

-- The case of a write, which falls through to the default.
unfoldable pub write_ok : (pt addr size : ℕ) → Entries → Bool
write_ok pt addr size m =
    if leb (user_first_page + num_pag_code) (first_page addr)
      && leb (last_page addr size) (user_first_page + num_pag_code + num_pag_data)
    then true
    else if ltb (user_first_page + num_pag_code + num_pag_data) (first_page addr)
        && ltb (last_page addr size) total_pages
    then all_mapped (page_count addr size) pt (first_page addr) m
    else read_ok pt addr size m

unfoldable pub type_ok : AccessType → (pt addr size : ℕ) → Entries → Bool
unfolding read_ok write_ok
type_ok verify_read = read_ok
type_ok verify_write = write_ok

-- `access_ok`, with the table of the current task.
unfoldable pub access_ok : AccessType → (pt addr size : ℕ) → Entries → Bool
unfolding type_ok
access_ok type pt addr size m =
    if ltb (last_page addr size) (first_page addr) then false else type_ok type pt addr size m

abbrev pub cycles_per_tick : ℕ
cycles_per_tick = 109000

-- `do_div`: the high word is divided first, and its remainder stands above the low word in the second
-- division. The value is the 64-bit quotient.
unfoldable pub do_div : (low high base : ℕ) → ℕ
do_div low high base =
    let upper : ℕ = if high == 0 then high else high % base in
    let high' : ℕ = if high == 0 then high else high / base in
    high' * 2 ^ 32 + (upper * 2 ^ 32 + low) / base

-- `get_ticks`, from the two halves of the time stamp counter; the result is cut to 32 bits.
unfoldable pub get_ticks : (eax edx : ℕ) → ℕ
get_ticks eax edx =
    let ticks = edx * 2 ^ 32 + eax in
    do_div (ticks % 2 ^ 32) (ticks / 2 ^ 32) cycles_per_tick % 2 ^ 32
