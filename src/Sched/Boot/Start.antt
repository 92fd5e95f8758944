-- ===== src/Sched/Boot/Start.antt =====
-- The kernel that the first task starts in.
use soa_ze_os.Links.{Links}
use soa_ze_os.Layout.{Layout}
use soa_ze_os.Kernel.{Kernel, ◌>>◌}
