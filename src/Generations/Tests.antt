-- ===== src/Generations/Tests.antt =====
-- The write path over both generations at small inputs.
use dm_zns_base.Prelude.{ℕ, ◌<◌, ◌≡◌, refl, arith, true, none, some}
use dm_zns_base.Kernel.{ok, Grants}
use dm_zns_base.Memtable.{Memtable, empty_memtable, size, find, put_at, put, create}
use dm_zns_base.Memtable.Laws.{IsValid, reading, empty-IsValid, put_table}
use dm_zns_base.Memtable.Tests.{plain, plain-IsRbtree, sample, sample-IsValid}
use dm_zns_base.Generations.{
  Tables, put_active, compact, freeze, lookup_active_immutable, put_fn, create_fn, freeze_prepared,
  freeze_prepared_locked,
}
use dm_zns_base.Generations.Compact.{Compacted, compact-Compacted, AllGranted}
use dm_zns_base.Generations.Active.{
  IsValidTables, tables, tables-IsValidTables, lookup_active_immutable_lem, answer_of, reads,
}
use dm_zns_base.Generations.Freeze.{put_active-bound, freeze_lem, freeze_ret}

abbrev always : Grants
always n = true

always-AllGranted : AllGranted always
always-AllGranted i = refl

-- An active table of one entry before a frozen one of three.
abbrev newer : Memtable
newer = put_table plain empty_memtable 2 200

newer-IsValid : IsValid newer
newer-IsValid =
    dm_zns_base.Memtable.Laws.put_table-IsValid plain plain-IsRbtree empty_memtable 2 200
      empty-IsValid

abbrev both : Tables
both = tables newer (some sample)

both-IsValidTables : IsValidTables both
both-IsValidTables = tables-IsValidTables newer (some sample) newer-IsValid sample-IsValid

compact-Compacted_example :
    Compacted plain plain-IsRbtree always sample newer
      (compact plain always 0 (some sample) (some newer) (some none))
compact-Compacted_example =
    compact-Compacted plain plain-IsRbtree always 0 sample newer none sample-IsValid newer-IsValid

lookup_active_immutable_lem_example :
    lookup_active_immutable (some both) 5 (some 0) ≡ answer_of 0 (reads both 5)
lookup_active_immutable_lem_example = lookup_active_immutable_lem both 5 0 both-IsValidTables

-- The frozen table that a merge leaves, as the code returns it.
abbrev frozen_both : Tables
frozen_both = tables empty_memtable (some newer)

freeze_runs : freeze always 0 (some (tables newer none)) ≡ (ok, some frozen_both, 1)
unfolding freeze create_fn create freeze_prepared freeze_prepared_locked
freeze_runs = refl

freeze_lem_example :
    (ok ≡ freeze_ret true none)
    × IsValidTables frozen_both
    × ((k : ℕ) → reads frozen_both k ≡ reads (tables newer none) k)
freeze_lem_example =
    freeze_lem plain plain-IsRbtree always 0 1 (tables newer none) frozen_both
      (tables-IsValidTables newer none newer-IsValid tt) freeze_runs

put_runs :
    put_active plain always 0 (some (tables empty_memtable none)) 1 2 200
    ≡ (ok, some frozen_both, 2)
unfolding put_active put_fn put create_fn create freeze_prepared_locked put_at size
put_runs = refl

put_active-bound_example : size (some empty_memtable) < 1
put_active-bound_example =
    put_active-bound plain plain-IsRbtree always always-AllGranted 1 (omega arith) 0 2 200 2
      (tables empty_memtable none) frozen_both
      (tables-IsValidTables empty_memtable none empty-IsValid tt) put_runs
