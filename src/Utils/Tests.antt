-- ===== src/Utils/Tests.antt =====
-- The theorems of the utilities at small inputs.
use soa_ze_os.Prelude.{◌+◌, ◌*◌, ◌<◌, ◌/◌, ◌%◌, ◌^◌, ◌≡◌, ◌≢◌, refl, inl, inr, true, arith}
use soa_ze_os.Prelude.Int.{pos}
use soa_ze_os.Mm.Paging.{Entries, zero_entry, get_frame}
use soa_ze_os.Utils.{
  Bytes, copy_data, copy_words, copy_bytes, copy_word, put_byte, copy_from_user, copy_to_user,
  verify_read, verify_write, access_ok, all_mapped, do_div, get_ticks, first_page, cycles_per_tick,
}
use soa_ze_os.Utils.Copy.{Copied, copy_data_lem}
use soa_ze_os.Utils.Access.{access_ok-read, access_ok_kernel, access_ok_unaligned}
use soa_ze_os.Utils.Ticks.{do_div_lem, get_ticks_lem}

abbrev bytes : Bytes
bytes a = a

-- Every page of every table has frame 5.
abbrev entries : Entries
entries a = record zero_entry { pbase_addr = 5 }

last_byte : copy_data 100 200 (pos 6) bytes 205 ≡ 105
unfolding copy_data copy_words copy_bytes copy_word put_byte
last_byte = refl

copy_data_lem_example :
    Copied 100 200 6 bytes (copy_data 100 200 (pos 6) bytes)
    × ((copy_from_user 100 200 (pos 6) bytes).0 ≡ 0)
    × Copied 100 200 6 bytes (copy_from_user 100 200 (pos 6) bytes).1
    × ((copy_to_user 100 200 (pos 6) bytes).0 ≡ 0)
    × Copied 100 200 6 bytes (copy_to_user 100 200 (pos 6) bytes).1
copy_data_lem_example = copy_data_lem 100 200 6 bytes (inl (omega arith))

accepted : access_ok verify_read 0 0x100800 0x1001 entries ≡ true
unfolding access_ok get_frame all_mapped
accepted = refl

access_ok-read_example : get_frame 0 (first_page 0x101800) entries ≢ 0
access_ok-read_example =
    access_ok-read 0 0x100800 0x1001 entries (omega arith) (omega arith) (inr (omega arith))
      accepted 0x101800 (omega arith) (omega arith)

access_ok_kernel_example : access_ok verify_write 0 0x10000 64 entries ≡ true
access_ok_kernel_example =
    access_ok_kernel verify_write 0 0x10000 64 entries (omega arith) (omega arith)

access_ok_unaligned_example : access_ok verify_read 0 (300 * 0x1000 + 16) 0x1000 entries ≡ true
access_ok_unaligned_example =
    access_ok_unaligned 0 300 16 entries (omega arith) (omega arith) (omega arith) (omega arith)
      (unfold get_frame in omega arith)

do_div_lem_example :
    (do_div 7 200000 cycles_per_tick ≡ (200000 * 2 ^ 32 + 7) / cycles_per_tick)
    × ((200000 % cycles_per_tick * 2 ^ 32 + 7) / cycles_per_tick < 2 ^ 32)
do_div_lem_example = do_div_lem 7 200000 (omega arith)

get_ticks_lem_example : get_ticks 7 3 ≡ (3 * 2 ^ 32 + 7) / cycles_per_tick % 2 ^ 32
get_ticks_lem_example = get_ticks_lem 7 3 (omega arith)
