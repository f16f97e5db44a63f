-- ===== src/Allocator/Tests.antt =====
-- The zoned allocator on three zones of 48 sectors, in blocks of 8.
use dm_zns_base.Prelude.{
  ℕ, ◌+◌, ◌≡◌, ◌⊎◌, refl, arith, true, some, List, [], ◌∷◌, get_elem?, if◌then◌else◌, ◌==◌,
}
use dm_zns_base.Kernel.{Errno, ok, err}
use dm_zns_base.Zone.{ZnsZone, Condition, can_append}
use dm_zns_base.Allocator.{
  set_reserve_after_reset, Allocator, AllocatorMode, reset, init_zoned, check_zones, metadata_valid,
  alloc, alloc_zoned, alloc_loop, alloc_gc, resync, recoverable, find_zone, has_space,
}
use dm_zns_base.Allocator.Valid.{IsValid, init_zoned-IsValid}
use dm_zns_base.Allocator.Scan.{Appended}
use dm_zns_base.Allocator.Alloc.{alloc-has_space, alloc-Appended}
use dm_zns_base.Allocator.Reserve.{alloc-IsValid, alloc_gc_lem, moved_gc}
use dm_zns_base.Allocator.Reset.{Reset, set_reserve_after_reset-Reset}
use dm_zns_base.Allocator.Resync.{resync-IsValid, resync_lem, resync_retry, restored}

abbrev zone_at : ℕ → ℕ → ℕ → Condition → ZnsZone
zone_at id start wp condition = record {
  id = id;
  start_sector = start;
  length = 64;
  capacity = 48;
  write_pointer = wp;
  condition = condition;
  active = true;
}

abbrev open_zone : ZnsZone
open_zone = zone_at 0 0 40 Condition.imp_open

abbrev array : List ZnsZone
array = open_zone ∷ zone_at 1 64 64 Condition.empty ∷ zone_at 2 128 128 Condition.empty ∷ []

abbrev fresh : Allocator
fresh = record reset {
  zones = array;
  nr_zones = 3;
  sectors_per_block = 8;
  mode = AllocatorMode.zoned;
}

init_runs : init_zoned true (some reset) (some array) 3 8 ≡ (ok, some fresh)
unfolding init_zoned check_zones metadata_valid
init_runs = refl

init_zoned-IsValid_example : IsValid fresh
init_zoned-IsValid_example =
    init_zoned-IsValid true (some reset) array 3 8 (omega arith) (omega arith) init_runs

fresh-IsValid : IsValid fresh
fresh-IsValid = init_zoned-IsValid true (some reset) array 3 8 (omega arith) (omega arith) init_runs

-- The last slot of the open zone goes out, and the cursor leaves that zone.
abbrev filled : Allocator
filled = record fresh {
  zones =
      zone_at 0 0 48 Condition.imp_open
      ∷ zone_at 1 64 64 Condition.empty
      ∷ zone_at 2 128 128 Condition.empty
      ∷ [];
  active_zone = 1;
}

alloc_runs : alloc (some fresh) (some 0) ≡ (ok, some 40, some filled)
unfolding alloc alloc_zoned alloc_loop can_append
alloc_runs = refl

alloc-has_space_example :
    (alloc (some fresh) (some 0)).0 ≡ (if has_space fresh then ok else err Errno.enospc)
alloc-has_space_example = alloc-has_space fresh 0 fresh-IsValid

alloc-Appended_example : Appended fresh 40 filled
alloc-Appended_example = alloc-Appended fresh 0 40 filled fresh-IsValid alloc_runs

alloc-IsValid_example : IsValid filled
alloc-IsValid_example = alloc-IsValid fresh filled 0 fresh-IsValid alloc_runs

filled-IsValid : IsValid filled
filled-IsValid = alloc-IsValid fresh filled 0 fresh-IsValid alloc_runs

-- The write at sector 40 failed, and the device reports that it never happened.
abbrev report : ZnsZone
report = zone_at 0 0 40 Condition.imp_open

abbrev recovered : Allocator
recovered = record fresh { active_zone = 0 }

resync_runs : resync filled 40 report ≡ (ok, recovered)
unfolding resync find_zone recoverable metadata_valid
resync_runs = refl

resync-IsValid_example : IsValid (resync filled 40 report).1
resync-IsValid_example = resync-IsValid filled 40 report filled-IsValid (omega arith)

resync_lem_example :
    (i : ℕ) × (z : ZnsZone) × (get_elem? filled.zones i ≡ some z)
    × (z.write_pointer ≡ 40 + 8)
    × ((report.write_pointer ≡ 40) ⊎ (report.write_pointer ≡ 40 + 8))
    × ((j : ℕ)
        → get_elem? recovered.zones j
          ≡ (if j == i then some (restored z report) else get_elem? filled.zones j))
resync_lem_example = resync_lem filled recovered 40 report filled-IsValid resync_runs

resync_retry_example :
    (alloc (some recovered) (some 0)).0 ≡ ok × (alloc (some recovered) (some 0)).1 ≡ some 40
resync_retry_example =
    resync_retry filled recovered 40 0 report filled-IsValid (omega arith) resync_runs refl
      (omega arith)

abbrev reserved : Allocator
reserved = record fresh { reserve_zone = 2 }

reserved-IsValid : IsValid reserved
reserved-IsValid = record {
  count = refl;
  some_zone = omega arith;
  small = omega arith;
  block_pos = omega arith;
  in_zones = refl;
  sound = fresh-IsValid.sound;
}

alloc_gc_lem_example : alloc_gc (some reserved) (some 0) ≡ (
    if can_append (zone_at 2 128 128 Condition.empty) 8
    then (ok, some 128, some (moved_gc reserved (zone_at 2 128 128 Condition.empty)))
    else (err Errno.enospc, some 0, some reserved))
alloc_gc_lem_example =
    alloc_gc_lem reserved 0 (zone_at 2 128 128 Condition.empty) (omega arith) refl

set_reserve_after_reset-Reset_example : Reset reserved 0 (set_reserve_after_reset (some reserved) 0)
set_reserve_after_reset-Reset_example = set_reserve_after_reset-Reset reserved 0 reserved-IsValid
