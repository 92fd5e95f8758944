-- ===== src/Sys.antt =====
-- The system calls of practica/zeos/sys.c. A call that returns is a function from the kernel to its
-- result and the kernel after it; addresses of local variables are parameters.
pub mod Pieces
pub mod Write
pub mod Read
pub mod Place
pub mod Console
pub mod Shm
pub mod Process
pub mod Fork
pub mod Stats
mod Tests
use Prim.Native.Nat.{bit_and}
use soa_ze_os.Prelude.{
  ℕ, zero, suc, ◌+◌, ◌-◌, ◌*◌, ◌/◌, ◌%◌, ◌^◌, Bool, true, false, not, ◌&&◌, ◌||◌, List, [], ◌∷◌,
  ltb, leb, ◌==◌, if◌then◌else◌, rounds, get_or, set, length,
}
use soa_ze_os.Prelude.Int.{ℤ, pos, negsuc, pos_part, ◌-ℤ◌, ◌+ℤ◌, ltb_ℤ, eqb_ℤ}
use soa_ze_os.Mm.Frames.{total_pages}
use soa_ze_os.Mm.Paging.{
  Entries, Memory, get_pt, get_frame, set_ss_pag, del_ss_pag, to_unsigned, read_entry,
}
use soa_ze_os.CBuffer.{CircularBuffer, dequeue}
use soa_ze_os.Io.{Screen, set_xy, set_text_color, sys_write_console}
use soa_ze_os.Utils.{
  Bytes, put_byte, AccessType, verify_read, verify_write, copy_from_user, copy_to_user, access_ok,
}
use soa_ze_os.Kernel.{Kernel, ShmMem, current}

-- `-E…` for an error number.
abbrev pub err : ℕ → ℤ
err n = pos 0 -ℤ pos n

abbrev pub ebadf : ℕ
ebadf = 9

abbrev pub eacces : ℕ
eacces = 13

abbrev pub efault : ℕ
efault = 14

abbrev pub einval : ℕ
einval = 22

abbrev pub enosys : ℕ
enosys = 38

abbrev pub ecanceled : ℕ
ecanceled = 125

abbrev pub escriptura : ℤ
escriptura = pos 1

unfoldable pub check_fd : (fd permissions : ℤ) → ℤ
check_fd fd permissions =
    if not (eqb_ℤ fd (pos 1))
    then err ebadf
    else if not (eqb_ℤ permissions escriptura)
    then err eacces
    else pos 0

abbrev pub sys_ni_syscall : ℤ
sys_ni_syscall = err enosys

unfoldable pub sys_getpid : Kernel → ℤ
sys_getpid k = (k.task (current k)).pid

unfoldable pub sys_gettime : Kernel → ℤ
sys_gettime k = pos k.zeos_ticks

-- `get_PT(current())`
abbrev pub current_pt : Kernel → ℕ
current_pt k = get_pt (k.task (current k)).dir_pages_base_addr k.memory.entries

-- `access_ok(type, addr, size)`: the size is an `unsigned long`.
unfoldable pub accepts : AccessType → (addr : ℕ) (size : ℤ) → Kernel → Bool
accepts type addr size k = access_ok type (current_pt k) addr (to_unsigned size) k.memory.entries

abbrev pub tam_buffer : ℕ
tam_buffer = 512

-- One copy into `localbuffer`, and what the console makes of it.
unfoldable pub write_chunk : (localbuffer buffer size : ℕ) → Kernel → ℕ × Kernel
write_chunk localbuffer buffer size k =
    let bytes = (copy_from_user buffer localbuffer (pos size) k.bytes).1 in
    let (ret, screen) = sys_write_console (λ i. bytes (localbuffer + i)) size k.screen in
    (ret, record k { bytes = bytes; screen = screen })

-- The loop of `sys_write`: what is left, where it starts, and the kernel. Each round writes a whole
-- buffer, so as many rounds as there are bytes are enough.
unfoldable pub write_loop : (fuel : ℕ) (localbuffer bytes_left buffer : ℕ) → Kernel → ℕ × ℕ × Kernel
write_loop zero localbuffer bytes_left buffer k = (bytes_left, buffer, k)
write_loop (suc fuel) localbuffer bytes_left buffer k =
    let (ret, k') = write_chunk localbuffer buffer tam_buffer k in
    let rest = write_loop fuel localbuffer (bytes_left - ret) (buffer + ret) k' in
    if ltb tam_buffer bytes_left then rest else (bytes_left, buffer, k)

-- The two writes of `sys_write`, once the arguments are checked.
unfoldable pub write_all : (localbuffer buffer nbytes : ℕ) → Kernel → ℤ × Kernel
unfolding write_loop write_chunk
write_all localbuffer buffer nbytes k =
    let (left, buffer', k') = write_loop nbytes localbuffer nbytes buffer k in
    if ltb 0 left
    then (let (ret, k'') = write_chunk localbuffer buffer' left k' in
        (pos nbytes -ℤ (pos left -ℤ pos ret), k''))
    else (pos nbytes -ℤ pos left, k')

unfoldable pub sys_write :
    (localbuffer : ℕ) (fd : ℤ) (buffer : ℕ) (nbytes : ℤ) → Kernel → ℤ × Kernel
sys_write localbuffer fd buffer nbytes k =
    if not (eqb_ℤ (check_fd fd escriptura) (pos 0))
    then (check_fd fd escriptura, k)
    else if ltb_ℤ nbytes (pos 0)
    then (err einval, k)
    else if not (accepts verify_read buffer nbytes k)
    then (err efault, k)
    else write_all localbuffer buffer (pos_part nbytes) k

-- A round of `sys_read`: a character leaves the keyboard buffer and goes to `b[i]` by way of the
-- local variable `c_dequeue`.
unfoldable pub read_char : (junk c_dequeue b i : ℕ) → Kernel → Kernel
read_char junk c_dequeue b i k =
    let (c, cb) = dequeue junk k.cb in
    record k {
      cb = cb;
      bytes = (copy_to_user c_dequeue (b + i) (pos 1) (put_byte c_dequeue c k.bytes)).1;
    }

unfoldable pub sys_read : (junk c_dequeue b : ℕ) (maxchars : ℤ) → Kernel → ℤ × Kernel
unfolding read_char
sys_read junk c_dequeue b maxchars k =
    if not (accepts verify_write b maxchars k)
    then (err efault, k)
    else let chars = if ltb_ℤ (pos k.cb.count) maxchars then pos k.cb.count else maxchars in
      (chars, rounds (pos_part chars) 0 (read_char junk c_dequeue b) k)

unfoldable pub sys_gotoxy : (x y : ℤ) → Kernel → ℤ × Kernel
sys_gotoxy x y k =
    if not (ltb_ℤ x (pos 80)) || ltb_ℤ x (pos 0)
    then (err einval, k)
    else if not (ltb_ℤ y (pos 25)) || ltb_ℤ y (pos 0)
    then (err einval, k)
    else (pos 1, record k { screen = set_xy (pos_part x) (pos_part y) k.screen })

unfoldable pub sys_set_color : (fg bg : ℤ) → Kernel → ℤ × Kernel
sys_set_color fg bg k =
    if ltb_ℤ fg (pos 0) || ltb_ℤ (pos 15) fg
    then (err einval, k)
    else if ltb_ℤ bg (pos 0) || ltb_ℤ (pos 15) bg
    then (err einval, k)
    else (pos 1, record k { screen = set_text_color (pos_part fg) (pos_part bg) k.screen })
