-- ===== src/Gc/None.antt =====
-- src/gc-policy/zns-gc-none.c: never collect.
use dm_zns_base.Prelude.{Bool, false}
use dm_zns_base.Kernel.{Errno}
use dm_zns_base.Gc.{GcContext, Victim, none_found}

pub should_gc : GcContext → Bool
should_gc ctx = false

pub select_victim : GcContext → Victim
select_victim ctx = none_found Errno.enospc
