-- ===== src/Zone/Tests.antt =====
-- The zone table and the single report on a device of two zones.
use dm_zns_base.Prelude.{
  ℕ, ◌≡◌, refl, arith, true, List, [], ◌∷◌, some, length, ◌==◌, ltb, if◌then◌else◌,
}
use dm_zns_base.Kernel.{Errno, ok, err}
use dm_zns_base.Zone.{
  BlkZone, ZoneType, Condition, Device, empty_table, table_init, report_cb, table_destroy,
}
use dm_zns_base.Zone.Table.{deliver, Reports, table_of, table_init_lem}

abbrev written : BlkZone
written = record {
  start = 0;
  len = 64;
  capacity = 48;
  wp = 16;
  cond = Condition.imp_open;
  zone_type = ZoneType.seqwrite_req;
}

abbrev untouched : BlkZone
untouched = record {
  start = 64;
  len = 64;
  capacity = 48;
  wp = 64;
  cond = Condition.empty;
  zone_type = ZoneType.seqwrite_req;
}

abbrev both : List BlkZone
both = written ∷ untouched ∷ []

-- A device that reports the given zones, whatever it is asked.
abbrev device : ℕ → List BlkZone → Device
device n zs = record {
  is_zoned = true;
  nr_zones = n;
  report_zones = λ S sector nr cb s. deliver S cb 0 zs s;
}

device-Reports : (n sector nr : ℕ) (zs : List BlkZone) → Reports (device n zs) sector nr zs
device-Reports n sector nr zs S cb s = refl

table_init_lem_example : table_init true (some empty_table) (some (device 2 both)) ≡ (
    if length both == 2
    then (ok, some (table_of both))
    else (err (if ltb 2 (length both) then Errno.eoverflow else Errno.eio), some empty_table))
table_init_lem_example =
    table_init_lem (device 2 both) empty_table both refl (omega arith) (device-Reports 2 0 2 both)

-- A device that reports one zone too many.
overflow_runs :
    table_init true (some empty_table) (some (device 1 both))
    ≡ (err Errno.eoverflow, some empty_table)
unfolding table_init report_cb table_destroy
overflow_runs = refl
