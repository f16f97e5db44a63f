-- ===== src/Lsm/Tests.antt =====
-- The capacity on a device of three zones, and a position in an open zone.
pub mod World
mod Runs
use dm_zns_base.Prelude.{ℕ, ◌+◌, ◌≤◌, ◌≡◌, refl, true, List, [], ◌∷◌, some, get_elem?, arith}
use dm_zns_base.Zone.{BlkZone, ZnsZone, ZoneType, Condition, Device, empty_table, zone_of}
use dm_zns_base.Zone.Table.{deliver, zones_of}
use dm_zns_base.Kernel.{ok}
use dm_zns_base.Allocator.{Allocator, AllocatorMode, reset}
use dm_zns_base.Allocator.Valid.{IsValid}
use dm_zns_base.Lsm.{capacity, usable_sectors, slot_loop, physical_to_gc_slot}
use dm_zns_base.Lsm.Slots.{IsSlot, physical_to_gc_slot-IsSlot}
use dm_zns_base.Lsm.Capacity.{total, whole, IsLargest, capacity-reserve}

abbrev zone_from : ℕ → ℕ → BlkZone
zone_from start capacity = record {
  start = start;
  len = 64;
  capacity = capacity;
  wp = start;
  cond = Condition.empty;
  zone_type = ZoneType.seqwrite_req;
}

abbrev three : List BlkZone
three = zone_from 0 50 ∷ zone_from 64 64 ∷ zone_from 128 64 ∷ []

abbrev device : Device
device = record {
  is_zoned = true;
  nr_zones = 3;
  report_zones = λ S sector nr cb s. deliver S cb 0 three s;
}

capacity-reserve_example :
    (c : ℕ) × (r : ZnsZone) × (capacity true empty_table (some device) ≡ some c)
    × IsLargest 2 (zones_of 0 three) r
    × (c + whole r ≡ total 2 (zones_of 0 three))
capacity-reserve_example =
    capacity-reserve device empty_table three refl (omega arith) refl (λ S cb s. refl) (omega arith)

-- One open zone of six blocks, two of them written.
abbrev open_zone : ZnsZone
open_zone = record {
  id = 0;
  start_sector = 64;
  length = 64;
  capacity = 48;
  write_pointer = 80;
  condition = Condition.imp_open;
  active = true;
}

abbrev one_zone : Allocator
one_zone = record reset {
  zones = open_zone ∷ [];
  nr_zones = 1;
  sectors_per_block = 8;
  mode = AllocatorMode.zoned;
}

one_zone-IsValid : IsValid one_zone
one_zone-IsValid = record {
  count = refl;
  some_zone = omega arith;
  small = omega arith;
  block_pos = omega arith;
  in_zones = refl;
  sound =
      (record { fits = omega arith; from_start = λ w. omega arith; to_end = λ w. omega arith }, tt);
}

slot_runs : physical_to_gc_slot one_zone 8 72 0 0 ≡ (ok, 0, 1)
unfolding physical_to_gc_slot slot_loop
slot_runs = refl
