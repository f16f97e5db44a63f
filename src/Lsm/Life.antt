-- ===== src/Lsm/Life.antt =====
-- src/engines/zns-engine-lsm.c: the engine from `zns_engine_init` to `zns_engine_exit`.
use dm_zns_base.Prelude.{
  ℕ, zero, suc, ◌+◌, ◌-◌, ◌/◌, ◌%◌, ◌^◌, false, not, ◌||◌, List, [], ◌∷◌, none, some, ◌==◌,
  if◌then◌else◌, add64,
}
use dm_zns_base.Kernel.{Errno, Ret, ok, err, fault, Ptr}
use dm_zns_base.Zone.{ZnsZoneTable, empty_table, table_init}
use dm_zns_base.Allocator.{Allocator, reset, init_zoned, set_reserve}
use dm_zns_base.Memtable.{Memtable, create}
use dm_zns_base.Sstable.{Sstable, block_sectors, min}
use dm_zns_base.Sstable.Writer.{write_table}
use dm_zns_base.Super.{Super}
use dm_zns_base.Lsm.{max}
use dm_zns_base.Lsm.Index.{GcIndexes, gc_map_init}
use dm_zns_base.Lsm.State.{Env, ZnsLsm, then_do}
use dm_zns_base.Lsm.Recover.{open_metadata, recover_sstables, gc_rebuild}
use dm_zns_base.Lsm.Reading.{is_enodata}

abbrev pub default_threshold : ℕ
default_threshold = 16384

abbrev pub max_gc_memtable_entries : ℕ
max_gc_memtable_entries = 2 ^ 20

-- The default threshold grows with the device, up to a limit; any other one is taken as it is.
pub threshold_of : ℕ → ℕ → ℕ → ℕ
threshold_of param logical_sectors sectors_per_block =
    if param == default_threshold
    then max default_threshold
        (min (add64 (logical_sectors / sectors_per_block) 1) max_gc_memtable_entries)
    else param

abbrev pub zeroed_super : Super
zeroed_super = record {
  uuid = 0;
  logical_sectors = 0;
  zone_size_sectors = 0;
  nr_zones = 0;
  meta_zone_id = 0;
  sectors_per_block = 0;
}

module _ {D X : Type 0} (env : Env D X) where
  -- The structure after `kzalloc` and the assignments that follow it, on a device `disk` after `n`
  -- memory requests.
  abbrev pub fresh : D → ℕ → ℕ → ℕ → ZnsLsm D X
  fresh disk n threshold sectors_per_block = record {
    disk = disk;
    requests = n;
    zone_table = empty_table;
    allocator = record reset { reserve_zone = 0 };
    indexes = record { gc_zones = none; latest = env.xa.empty; valid_blocks = 0 };
    gc_runs = 0;
    gc_moved = 0;
    gc_resets = 0;
    tables = record { active = none; immutable = none };
    flushing = none;
    flush_in_flight = false;
    flush_queued = false;
    memtable_threshold = threshold;
    sectors_per_block = sectors_per_block;
    data_write_attempts = 0;
    gc_move_write_attempts = 0;
    gc_zone_reset_attempts = 0;
    writes_stopped = false;
    sstables = [];
    nr_sstables = 0;
    nr_sst_entries = 0;
    next_sst_seq = 1;
    meta_start = 0;
    meta_wp = 0;
    meta_end = 0;
    super = zeroed_super;
  }

  abbrev pub table_loaded : ZnsLsm D X → Ret × Ptr ZnsZoneTable → Ret × ZnsLsm D X
  table_loaded s (ret, some t) = (ret, record s { zone_table = t })
  table_loaded s (ret, none) = (fault, s)

  abbrev pub load_zone_table : ZnsLsm D X → Ret × ZnsLsm D X
  load_zone_table s =
      table_loaded (record s { requests = s.requests + 1 })
        (table_init (env.grants s.requests) (some s.zone_table) (some (env.bdev s.disk)))

  abbrev pub allocator_made : ZnsLsm D X → Ret × Ptr Allocator → Ret × ZnsLsm D X
  allocator_made s (ret, some a) = (ret, record s { allocator = a })
  allocator_made s (ret, none) = (fault, s)

  -- "Hand the allocator only the zones ahead of" the metadata zone.
  abbrev pub init_allocator : ZnsLsm D X → Ret × ZnsLsm D X
  init_allocator s =
      allocator_made (record s { requests = s.requests + 1 })
        (init_zoned (env.grants s.requests) (some s.allocator) s.zone_table.zones
          (s.zone_table.nr_zones - 1) s.sectors_per_block)

  abbrev pub map_made : ZnsLsm D X → Ret × GcIndexes X × ℕ → Ret × ZnsLsm D X
  map_made s (ret, ix, n) = (ret, record s { indexes = ix; requests = n })

  abbrev pub init_map : ZnsLsm D X → Ret × ZnsLsm D X
  init_map s =
      map_made s (gc_map_init env.grants s.allocator s.sectors_per_block s.indexes s.requests)

  abbrev pub reserve_tried :
      (ZnsLsm D X → Ret × ZnsLsm D X) → ZnsLsm D X → Ret × Ptr Allocator → Ret × ZnsLsm D X
  reserve_tried rest s (ok, some a) = (ok, record s { allocator = a })
  reserve_tried rest s (err e, some a) = rest (record s { allocator = a })
  reserve_tried rest s (_, _) = (fault, s)

  -- The loop that looks for an empty zone, from the last of `id` zones down.
  pub pick_reserve : ℕ → ZnsLsm D X → Ret × ZnsLsm D X
  pick_reserve zero s = (err Errno.enospc, s)
  pick_reserve (suc id) s = reserve_tried (pick_reserve id) s (set_reserve (some s.allocator) id)

  abbrev pub make_memtable : ZnsLsm D X → Ret × ZnsLsm D X
  make_memtable s =
      let s' = record s { requests = s.requests + 1 } in
      elim (create (env.grants s.requests)) [
        | none ↦ (err Errno.enomem, s')
        | some m ↦ (ok, record s' { tables = record s'.tables { active = some m } })
      ]

  -- `alloc_ordered_workqueue`, a memory request.
  abbrev pub make_queue : ZnsLsm D X → Ret × ZnsLsm D X
  make_queue s =
      let s' = record s { requests = s.requests + 1 } in
      if env.grants s.requests then (ok, s') else (err Errno.enomem, s')

  -- The steps after the first allocation; each failure ends the sequence.
  pub bring_up : ℕ → Super → ℕ → ZnsLsm D X → Ret × ZnsLsm D X
  unfolding pick_reserve
  bring_up random uninit logical_sectors s =
      then_do
        (then_do
          (then_do
            (then_do
              (then_do
                (then_do
                  (then_do
                    (then_do
                      (then_do (load_zone_table s)
                        (λ t. open_metadata env t random uninit logical_sectors))
                      init_allocator)
                    init_map)
                  (recover_sstables env))
                (gc_rebuild env))
              (λ t. pick_reserve t.allocator.nr_zones t))
            make_memtable)
          make_queue)
        make_queue

  -- `engine->private` is set only at the end: a failure frees what was made.
  abbrev pub opened : Ptr (ZnsLsm D X) → Ret × ZnsLsm D X → Ret × Ptr (ZnsLsm D X) × D
  opened private (ok, s) = (ok, some s, s.disk)
  opened private (err e, s) = (err e, private, s.disk)
  opened private (fault, s) = (fault, private, s.disk)

  -- For pointers that are not NULL. `private` is `engine->private`, `param` the module parameter,
  -- `n` the number of memory requests made before.
  pub init : Ptr (ZnsLsm D X) → D → ℕ → ℕ → ℕ → Super → ℕ → ℕ → ℕ → Ret × Ptr (ZnsLsm D X) × D
  unfolding bring_up threshold_of
  init private disk n param random uninit logical_sectors physical_sectors sectors_per_block =
      if sectors_per_block == 0
        || ((param == 0)
            || (not (sectors_per_block == block_sectors)
                || (not (logical_sectors % sectors_per_block == 0)
                    || not (physical_sectors % sectors_per_block == 0))))
      then (err Errno.einval, private, disk)
      else if env.grants n
      then opened private (
          bring_up random uninit logical_sectors (
            fresh disk (n + 1) (threshold_of param logical_sectors sectors_per_block)
              sectors_per_block))
      else (err Errno.enomem, private, disk)

  -- After the attempt to write one generation.
  abbrev pub generation_written :
      (ZnsLsm D X → Ret × ZnsLsm D X) → ZnsLsm D X → Ret × Ptr Sstable × ℕ × D → Ret × ZnsLsm D X
  generation_written rest s (ret, sst, consumed, disk) =
      let s' = record s { disk = disk; meta_wp = add64 s.meta_wp consumed } in
      elim ret [
        | ok ↦ rest (record s' { next_sst_seq = add64 s'.next_sst_seq 1 })
        | err e ↦ if is_enodata (err e) then rest s' else (err e, s')
        | fault ↦ (fault, s')
      ]

  -- The loop over the generations; the first result is the error that stopped it, which the code only
  -- prints. A table written here is freed at once: it is not put on the list.
  pub flush_generations : List (Ptr Memtable) → ZnsLsm D X → Ret × ZnsLsm D X
  flush_generations [] s = (ok, s)
  flush_generations (none ∷ rest) s = flush_generations rest s
  flush_generations (some m ∷ rest) s =
      generation_written (flush_generations rest) (record s { requests = s.requests + 2 })
        (write_table env.layer env.crc32_le env.rb (env.grants s.requests)
          (env.grants (s.requests + 1)) s.disk m s.meta_wp s.meta_end s.next_sst_seq)

  -- Oldest generation first.
  pub flush_all_sync : ZnsLsm D X → Ret × ZnsLsm D X
  unfolding flush_generations
  flush_all_sync s = flush_generations (s.flushing ∷ s.tables.immutable ∷ s.tables.active ∷ []) s

  -- `engine->private`, and the state of the device.
  pub exit : Ptr (ZnsLsm D X) → D → Ptr (ZnsLsm D X) × D
  unfolding flush_all_sync
  exit none disk = (none, disk)
  exit (some s) disk = (none, (flush_all_sync s).1.disk)
