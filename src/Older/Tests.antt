-- ===== src/Older/Tests.antt =====
-- `sys_write` of the older version with more bytes than `sys_buff` has.
use soa_ze_os.Prelude.{◌%◌, ◌^◌, ◌≡◌, refl, inr, [], true, arith}
use soa_ze_os.Prelude.Int.{pos}
use soa_ze_os.Utils.{verify_write}
use soa_ze_os.Older.{Machine, access_ok, type_ok, sys_write}
use soa_ze_os.Older.Write.{Outcome, older_write_lem}

abbrev machine : Machine
machine = record { x = 0; y = 0; vga = λ i. 0; log = []; bytes = λ a. a % 2 ^ 8 }

older_write_lem_example :
    Outcome 0x12000
      (pos 1)
      0x108000
      (pos 100)
      machine
      (sys_write 0x12000 (pos 1) 0x108000 (pos 100) machine)
older_write_lem_example =
    older_write_lem 0x12000 (pos 1) 0x108000 (pos 100) machine (inr (omega arith))

-- The last page of the data can be written, the code behind it only be read.
last_page_of_data : access_ok verify_write 0x113ff0 8 ≡ true
unfolding access_ok type_ok
last_page_of_data = refl
