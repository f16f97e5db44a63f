-- ===== src/Lsm/Publish.antt =====
-- src/engines/zns-engine-lsm.c: the publication of a written block, and what the collection asks about
-- a zone.
pub mod Agreement
pub mod Fresh
use dm_zns_base.Prelude.{
  ℕ, ◌+◌, ◌-◌, ◌/◌, Bool, true, false, not, ◌&&◌, ◌||◌, List, Option, none, some, ◌==◌, ltb, leb,
  if◌then◌else◌, get_elem?,
}
use dm_zns_base.Kernel.{Errno, Ret, ok, err, fault, Ptr}
use dm_zns_base.Zone.{ZnsZone, is_readonly, is_offline, zone_end, can_append, zeroed_zone}
use dm_zns_base.Allocator.{Allocator}
use dm_zns_base.Gc.{ZoneInfo}
use dm_zns_base.Generations.{Tables, put_active}
use dm_zns_base.Lsm.Index.{GcZone, GcIndexes, update_gc_block_location}
use dm_zns_base.Lsm.State.{Env, ZnsLsm}
use dm_zns_base.Lsm.Flush.{maybe_queue_flush}

abbrev pub gc_zone_of : Ptr (List GcZone) → ℕ → Ptr GcZone
gc_zone_of none id = none
gc_zone_of (some gs) id = get_elem? gs id

abbrev pub valid_of : Ptr GcZone → ℕ
valid_of none = 0
valid_of (some g) = g.nr_valid_blocks

abbrev pub zone_or_zero : Option ZnsZone → ZnsZone
zone_or_zero none = zeroed_zone
zone_or_zero (some z) = z

module _ {D X : Type 0} where
  -- After the update of the indexes.
  abbrev pub index_updated : ZnsLsm D X → Ret × GcIndexes X → Ret × ZnsLsm D X
  index_updated s (ok, ix) = (ok, maybe_queue_flush (record s { indexes = ix }))
  index_updated s (err e, ix) = (err e, record s { indexes = ix; writes_stopped = true })
  index_updated s (fault, ix) = (fault, record s { indexes = ix })

  abbrev pub zone_free_blocks : ZnsLsm D X → ZnsZone → ℕ
  zone_free_blocks s z =
      if ltb z.write_pointer z.start_sector || ltb (zone_end z) z.write_pointer
      then 0
      else (zone_end z - z.write_pointer) / s.sectors_per_block

  -- The policies ask only about zones of the allocator; any other one reads here as zeros.
  pub gc_get_zone_info : ZnsLsm D X → ℕ → ZoneInfo
  gc_get_zone_info s id =
      let z = zone_or_zero (get_elem? s.allocator.zones id) in
      record {
        is_reserve = id == s.allocator.reserve_zone;
        resettable = not (is_readonly z.condition) && not (is_offline z.condition);
        capacity_blocks = z.capacity / s.sectors_per_block;
        free_blocks = if can_append z s.sectors_per_block then zone_free_blocks s z else 0;
        valid_blocks = valid_of (gc_zone_of s.indexes.gc_zones id);
      }

  -- The tests on the two zones.
  abbrev pub validate_zones : ZnsLsm D X → ℕ → Option ZnsZone → Option ZnsZone → Ptr GcZone → Ret
  validate_zones s id (some victim) (some reserve) (some g) =
      if is_readonly victim.condition || is_offline victim.condition
      then err Errno.einval
      else if ltb (zone_free_blocks s reserve) g.nr_valid_blocks
      then err Errno.enospc
      else ok
  validate_zones s id _ _ _ = fault

  unfoldable pub gc_validate_victim : ZnsLsm D X → ℕ → Ret
  gc_validate_victim s id =
      let a = s.allocator in
      if leb a.nr_zones id || ((id == a.reserve_zone) || leb a.nr_zones a.reserve_zone)
      then err Errno.einval
      else validate_zones s id (get_elem? a.zones id) (get_elem? a.zones a.reserve_zone)
          (gc_zone_of s.indexes.gc_zones id)

module _ {D X : Type 0} (env : Env D X) where
  -- After the memory tables have the mapping.
  abbrev pub table_put : ZnsLsm D X → ℕ → ℕ → Ret × Ptr Tables × ℕ → Ret × ZnsLsm D X
  table_put s k p (ok, some t, n) =
      index_updated (record s { tables = t; requests = n })
        (update_gc_block_location env.xa s.allocator s.sectors_per_block k p s.indexes)
  table_put s k p (ok, none, n) = (fault, s)
  table_put s k p (err e, some t, n) = (err e, record s { tables = t; requests = n })
  table_put s k p (err e, none, n) = (err e, record s { requests = n })
  table_put s k p (fault, t, n) = (fault, s)

  -- After `xa_reserve`.
  abbrev pub reserved : ZnsLsm D X → ℕ → ℕ → Ret × X → Ret × ZnsLsm D X
  reserved s k p (ok, x) =
      table_put (record s { indexes = record s.indexes { latest = x } }) k p
        (put_active env.rb env.grants s.requests (some s.tables) s.memtable_threshold k p)
  reserved s k p (err e, x) = (err e, record s { indexes = record s.indexes { latest = x } })
  reserved s k p (fault, x) = (fault, record s { indexes = record s.indexes { latest = x } })

  pub publish_write : ZnsLsm D X → ℕ → ℕ → Ret × ZnsLsm D X
  publish_write s logical_sector physical_sector =
      let k = logical_sector / s.sectors_per_block in
      reserved s k physical_sector (env.xa.reserve s.indexes.latest k)
