-- ===== src/Interrupt/PageFault/Tests.antt =====
-- The page fault's theorem at a page that two processes share.
use soa_ze_os.Prelude.{◌==◌, if◌then◌else◌, [], set, replicate}
use soa_ze_os.Mm.Paging.{zero_entry, entry_addr}
use soa_ze_os.Interrupt.PageFault.{Machine}
use soa_ze_os.Interrupt.PageFault.Unshare.{user_entry}

-- The table at 0x50000 maps page 300 to frame 260, which two tables share; frame 258 is free.
abbrev shared_page : Machine
shared_page = record {
  memory = record {
    phys_mem = set (replicate 1024 2) 258 0;
    entries = λ a. if a == entry_addr 0x50000 300 then user_entry 260 else zero_entry;
  };
  ram = λ a. a;
  screen = record { x = 0; y = 0; color = 0; vga = λ _. 0; log = [] };
  cr3 = 0;
}
