-- ===== src/Older.antt =====
-- The older version of the kernel, in the directory zeos: `access_ok` of utils.c, `printc` of io.c, and
-- `sys_write` of sys.c with the console of devices.c. What it shares with practica/zeos line by line, like
-- `copy_from_user`, is taken from there.
pub mod Write
mod Tests
use Prim.Native.Nat.{bit_or}
use soa_ze_os.Prelude.{
  ℕ, zero, suc, ◌+◌, ◌-◌, ◌*◌, ◌%◌, ◌^◌, Bool, true, false, not, ◌&&◌, List, [], ◌∷◌, ◌++◌, ltb,
  leb, ◌==◌, if◌then◌else◌, rounds,
}
use soa_ze_os.Prelude.Int.{ℤ, pos, negsuc, pos_part, ltb_ℤ, eqb_ℤ}
use soa_ze_os.Mm.Paging.{to_unsigned, num_pag_code, num_pag_data}
use soa_ze_os.Io.{num_columns, num_rows, newline, put_cell}
use soa_ze_os.Utils.{
  Bytes, AccessType, verify_read, verify_write, copy_from_user, user_first_page, first_page,
  last_page,
}
use soa_ze_os.Sys.{err, ebadf, eacces, efault, einval, escriptura}

-- The `default` case.
abbrev pub read_ok : (addr size : ℕ) → Bool
read_ok addr size =
    leb user_first_page (first_page addr)
    && leb (last_page addr size) (user_first_page + num_pag_code + num_pag_data)

-- The case of a write falls through to the default.
unfoldable pub type_ok : AccessType → (addr size : ℕ) → Bool
type_ok verify_read addr size = read_ok addr size
type_ok verify_write addr size =
    if leb user_first_page (first_page addr)
      && leb (last_page addr size) (user_first_page + num_pag_data)
    then true
    else read_ok addr size

unfoldable pub access_ok : AccessType → (addr size : ℕ) → Bool
unfolding type_ok
access_ok type addr size =
    if ltb (last_page addr size) (first_page addr) then false else type_ok type addr size

-- The globals of io.c, the cells at 0xb8000, the bytes sent to the debug port, and the memory.
pub record Machine : Type 0 where
  pub x : ℕ
  pub y : ℕ
  pub vga : ℕ → ℕ
  pub log : List ℕ
  pub bytes : Bytes

-- The colour is a constant.
unfoldable pub cell_of : (c : ℕ) → ℕ
cell_of c = bit_or (c % 2 ^ 8) 0x200 % 2 ^ 16

abbrev pub next_row : Machine → Machine
next_row s = record s { x = 0; y = (s.y + 1) % num_rows }

unfoldable pub printc : ℕ → Machine → Machine
printc c s =
    let logged : Machine = record s { log = s.log ++ (c ∷ []) } in
    if c == newline
    then next_row logged
    else let drawn : Machine = record logged {
      vga = put_cell s.vga (s.y * num_columns + s.x) (cell_of c);
      x = (s.x + 1) % 2 ^ 8;
    } in
      if leb num_columns drawn.x then next_row drawn else drawn

-- The characters at an address.
unfoldable pub sys_write_console : (buffer size : ℕ) → Machine → ℕ × Machine
sys_write_console buffer size s = (size, rounds size 0 (λ i. printc (s.bytes (buffer + i))) s)

unfoldable pub check_fd : (fd permissions : ℤ) → ℤ
check_fd fd permissions =
    if not (eqb_ℤ fd (pos 1))
    then err ebadf
    else if not (eqb_ℤ permissions escriptura)
    then err eacces
    else pos 0

-- `sizeof(sys_buff)`
abbrev pub tam_buffer : ℕ
tam_buffer = 64

-- `copy_from_user(&buffer[offset], &sys_buff[offset], size); sys_write_console(&sys_buff[offset], size)`
unfoldable pub write_piece : (sys_buff buffer offset size : ℕ) → Machine → ℕ × Machine
write_piece sys_buff buffer offset size s =
    let copied : Machine = record s {
      bytes = (copy_from_user (buffer + offset) (sys_buff + offset) (pos size) s.bytes).1;
    } in
    sys_write_console (sys_buff + offset) size copied

-- The `while` loop, to `bytes_leidos`. Each round writes a byte at least.
unfoldable pub write_loop :
    (fuel sys_buff buffer total offset bytes_leidos : ℕ) → Machine → ℕ × Machine
write_loop zero sys_buff buffer total offset bytes_leidos s = (bytes_leidos, s)
write_loop (suc fuel) sys_buff buffer total offset bytes_leidos s =
    let size = if ltb total tam_buffer then total else tam_buffer in
    let (ret, s') = write_piece sys_buff buffer offset size s in
    let rest =
      write_loop fuel sys_buff buffer (total - size) (offset + size) (bytes_leidos + ret) s' in
    if ltb 0 total then rest else (bytes_leidos, s)

unfoldable pub sys_write : (sys_buff : ℕ) (fd : ℤ) (buffer : ℕ) (size : ℤ) → Machine → ℤ × Machine
sys_write sys_buff fd buffer size s =
    let n = pos_part size in
    let (bytes_leidos, s') = write_loop n sys_buff buffer n 0 0 s in
    if not (eqb_ℤ (check_fd fd escriptura) (pos 0))
    then (check_fd fd escriptura, s)
    else if buffer == 0
    then (err efault, s)
    else if not (access_ok verify_read buffer (to_unsigned size))
    then (err efault, s)
    else if ltb_ℤ size (pos 0)
    then (err einval, s)
    else if eqb_ℤ (pos bytes_leidos) size
    then (pos bytes_leidos, s')
    else (negsuc 0, s')
