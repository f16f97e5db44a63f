-- ===== src/Lsm.antt =====
-- src/engines/zns-engine-lsm.c: the log-structured engine. Here: the capacity that it offers, and the
-- position of a physical sector in its reverse map.
pub mod Capacity
pub mod Slots
pub mod Index
pub mod State
pub mod Reading
pub mod Flush
pub mod Publish
pub mod Collect
pub mod Append
pub mod Recover
pub mod Life
pub mod Request
pub mod Worker
mod Tests
use dm_zns_base.Prelude.{
  ℕ, zero, suc, ◌+◌, ◌-◌, ◌%◌, ◌/◌, Bool, not, ◌||◌, ◌&&◌, ◌==◌, Option, none, some, List, [], ◌∷◌,
  ltb, leb, if◌then◌else◌, add64, sub64,
}
use dm_zns_base.Kernel.{Errno, Ret, ok, err, fault, Ptr}
use dm_zns_base.Zone.{ZnsZone, ZnsZoneTable, Device, table_init, zone_end, is_full}
use dm_zns_base.Allocator.{Allocator}
use dm_zns_base.Target.{base_block_sectors}

abbrev pub metadata_zones : ℕ
metadata_zones = 1

abbrev pub gc_reserve_zones : ℕ
gc_reserve_zones = 1

-- The sectors of a zone that whole blocks fill.
abbrev pub usable_sectors : ZnsZone → ℕ
usable_sectors z = z.capacity - z.capacity % base_block_sectors

abbrev pub max : ℕ → ℕ → ℕ
max a b = if ltb a b then b else a

-- The loop over the first `n` descriptors; there is no result where it leaves the array.
pub sum_zones : ℕ → List ZnsZone → ℕ → ℕ → Option ℕ
sum_zones zero zs data_sectors largest = some (sub64 data_sectors largest)
sum_zones (suc n) [] data_sectors largest = none
sum_zones (suc n) (z ∷ zs) data_sectors largest =
    sum_zones n zs (add64 data_sectors (usable_sectors z)) (max largest (usable_sectors z))

abbrev pub array_of : Ptr (List ZnsZone) → List ZnsZone
array_of none = []
array_of (some zs) = zs

-- After `zns_zone_table_init`.
abbrev pub table_capacity : Ret × Ptr ZnsZoneTable → Option ℕ
table_capacity (ok, some table) =
    if leb table.nr_zones (metadata_zones + gc_reserve_zones)
    then some 0
    else sum_zones (table.nr_zones - metadata_zones) (array_of table.zones) 0 0
table_capacity (ok, none) = none
table_capacity (err _, table) = some 0
table_capacity (fault, table) = none

-- The Boolean answers the memory request for the table; `uninit` is the local variable `table`.
pub capacity : Bool → ZnsZoneTable → Ptr Device → Option ℕ
capacity granted uninit bdev = table_capacity (table_init granted (some uninit) bdev)

-- The tests on the zone that has the sector, each of which fails the conversion.
abbrev pub bad_slot : ZnsZone → ℕ → ℕ → Bool
bad_slot z sectors_per_block physical_sector =
    not ((physical_sector - z.start_sector) % sectors_per_block == 0)
    || (ltb (zone_end z - physical_sector) sectors_per_block
        || (leb z.write_pointer physical_sector && not (is_full z.condition)))

-- The loop of `zns_lsm_physical_to_gc_slot` over `n` zones, from zone number `i` on. The results are
-- the return value, `*zone_id` and `*slot`.
pub slot_loop : ℕ → List ZnsZone → ℕ → ℕ → ℕ → ℕ → ℕ → Ret × ℕ × ℕ
slot_loop zero zs i sectors_per_block physical_sector zone_id slot =
    (err Errno.einval, zone_id, slot)
slot_loop (suc n) [] i sectors_per_block physical_sector zone_id slot = (fault, zone_id, slot)
slot_loop (suc n) (z ∷ zs) i sectors_per_block physical_sector zone_id slot =
    let next = slot_loop n zs (i + 1) sectors_per_block physical_sector zone_id slot in
    if ltb physical_sector z.start_sector || leb (zone_end z) physical_sector
    then next
    else if bad_slot z sectors_per_block physical_sector
    then (err Errno.einval, zone_id, slot)
    else (ok, i, (physical_sector - z.start_sector) / sectors_per_block)

pub physical_to_gc_slot : Allocator → ℕ → ℕ → ℕ → ℕ → Ret × ℕ × ℕ
physical_to_gc_slot allocator sectors_per_block physical_sector zone_id slot =
    slot_loop allocator.nr_zones allocator.zones 0 sectors_per_block physical_sector zone_id slot
