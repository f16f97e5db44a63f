-- ===== src/Zone.antt =====
-- src/zns-zone.h and src/zns-zone.c: the zone descriptor, the test whether a zone takes one more
-- block, and the zone table read from the device.
--
-- `blkdev_report_zones`, `bdev_is_zoned` and the zone count are the kernel's: they are the fields of
-- a `Device`. What a report does with its callback is stated by `Reports` in Zone/Table.antt.
pub mod Table
mod Tests
use mathlib.Core.Option
use dm_zns_base.Prelude.{
  ℕ, ◌+◌, ◌-◌, Bool, true, false, not, ◌&&◌, ◌||◌, Option, none, some, List, ltb, leb, ◌==◌,
  if◌then◌else◌, set, replicate, add64,
}
use dm_zns_base.Kernel.{Errno, Ret, ok, err, Ptr, Grants}

-- `BLK_ZONE_COND_*`; `other` is any value of the byte that names no condition.
pub data Condition : Type 0 where
  not_wp empty imp_open exp_open closed readonly full offline : Condition
  other : ℕ → Condition

pub data ZoneType : Type 0 where
  conventional seqwrite_req seqwrite_pref : ZoneType

-- `struct blk_zone`, one entry of a report.
pub record BlkZone : Type 0 where
  pub start : ℕ
  pub len : ℕ
  pub capacity : ℕ
  pub wp : ℕ
  pub cond : Condition
  pub zone_type : ZoneType

pub record ZnsZone : Type 0 where
  pub id : ℕ
  pub start_sector : ℕ
  pub length : ℕ
  pub capacity : ℕ
  pub write_pointer : ℕ
  pub condition : Condition
  pub active : Bool

pub record ZnsZoneTable : Type 0 where
  pub zones : Ptr (List ZnsZone)
  pub nr_zones : ℕ

abbrev pub is_full : Condition → Bool
is_full Condition.full = true
is_full _ = false

abbrev pub is_readonly : Condition → Bool
is_readonly Condition.readonly = true
is_readonly _ = false

abbrev pub is_offline : Condition → Bool
is_offline Condition.offline = true
is_offline _ = false

abbrev pub is_seqwrite_req : ZoneType → Bool
is_seqwrite_req ZoneType.seqwrite_req = true
is_seqwrite_req _ = false

-- `zone->start_sector + zone->capacity`, with the wrap of `sector_t`.
abbrev pub zone_end : ZnsZone → ℕ
zone_end z = add64 z.start_sector z.capacity

-- The subtraction is made only where it cannot go below 0.
unfoldable pub can_append : ZnsZone → ℕ → Bool
can_append z sectors_per_block =
    not (is_full z.condition)
    && (not (is_readonly z.condition)
        && (not (is_offline z.condition)
            && (leb z.write_pointer (zone_end z)
                && leb sectors_per_block (zone_end z - z.write_pointer))))

unfoldable pub zone_is_active : Condition → Bool
zone_is_active Condition.imp_open = true
zone_is_active Condition.exp_open = true
zone_is_active Condition.closed = true
zone_is_active _ = false

-- The result of `blkdev_report_zones`: the number of zones reported, or an error.
pub data Report : Type 0 where
  reported : ℕ → Report
  failed : Errno → Report

-- A callback returns 0 (`none`), or an error that ends the report.
abbrev pub Callback : Type 0 → Type 0
Callback S = BlkZone → ℕ → S → Option Errno × S

-- What the code asks of a `struct block_device` here. The data of the callback is a state that the
-- report passes on.
pub record Device : Type 1 where
  pub is_zoned : Bool
  pub nr_zones : ℕ
  pub report_zones : (S : Type 0) → ℕ → ℕ → Callback S → S → Report × S

-- The fields that both callbacks copy.
abbrev pub zone_of : ℕ → BlkZone → ZnsZone
zone_of index r = record {
  id = index;
  start_sector = r.start;
  length = r.len;
  capacity = r.capacity;
  write_pointer = r.wp;
  condition = r.cond;
  active = zone_is_active r.cond;
}

unfoldable pub report_cb : Callback ZnsZoneTable
report_cb r index table = if leb table.nr_zones index then (some Errno.eoverflow, table) else (
  none,
  record table { zones = Option.map (λ zs. set zs index (zone_of index r)) table.zones },
)

-- `index || reported->type != BLK_ZONE_TYPE_SEQWRITE_REQ` refuses. The id is left alone.
unfoldable pub report_one_cb : Callback ZnsZone
report_one_cb r index zone =
    if not (index == 0) || not (is_seqwrite_req r.zone_type)
    then (some Errno.einval, zone)
    else (none, zone_of zone.id r)

-- A descriptor after `memset(zone, 0, sizeof(*zone))`, or in an array of `kcalloc`.
abbrev pub zeroed_zone : ZnsZone
zeroed_zone = record {
  id = 0;
  start_sector = 0;
  length = 0;
  capacity = 0;
  write_pointer = 0;
  condition = Condition.not_wp;
  active = false;
}

abbrev pub report_one_ret : Report → Ret
report_one_ret (Report.failed e) = err e
report_one_ret (Report.reported n) = if n == 1 then ok else err Errno.eio

unfoldable pub report_one : Device → ℕ → Ret × ZnsZone
report_one bdev sector =
    let (report, zone) = bdev.report_zones ZnsZone sector 1 report_one_cb zeroed_zone in
    (report_one_ret report, zone)

abbrev pub empty_table : ZnsZoneTable
empty_table = record { zones = none; nr_zones = 0 }

unfoldable pub table_destroy : Ptr ZnsZoneTable → Ptr ZnsZoneTable
table_destroy none = none
table_destroy (some table) = some empty_table

-- The end of `zns_zone_table_init`, once the report is made.
abbrev pub table_init_end : ℕ → Report × ZnsZoneTable → Ret × Ptr ZnsZoneTable
table_init_end nr_zones (Report.failed e, table) = (err e, table_destroy (some table))
table_init_end nr_zones (Report.reported n, table) =
    if n == nr_zones then (ok, some table) else (err Errno.eio, table_destroy (some table))

-- The allocation is one memory request.
abbrev pub table_alloc : Bool → Device → Ret × Ptr ZnsZoneTable
table_alloc granted bdev =
    if granted
    then table_init_end bdev.nr_zones (
        bdev.report_zones ZnsZoneTable 0 bdev.nr_zones report_cb
          (record { zones = some (replicate bdev.nr_zones zeroed_zone); nr_zones = bdev.nr_zones }))
    else (err Errno.enomem, some empty_table)

unfoldable pub table_init : Bool → Ptr ZnsZoneTable → Ptr Device → Ret × Ptr ZnsZoneTable
table_init granted none bdev = (err Errno.einval, none)
table_init granted (some table) none = (err Errno.einval, some table)
table_init granted (some table) (some bdev) =
    if not bdev.is_zoned
    then (err Errno.enodev, some empty_table)
    else if bdev.nr_zones == 0
    then (err Errno.enodev, some empty_table)
    else table_alloc granted bdev
