-- ===== src/Interrupt/Clock.antt =====
-- A tick of the clock.
use soa_ze_os.Layout.{Layout}
use soa_ze_os.Kernel.{Kernel}
