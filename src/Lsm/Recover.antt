-- ===== src/Lsm/Recover.antt =====
-- src/engines/zns-engine-lsm.c: the opening of the metadata zone, the adoption of the tables that it
-- holds, and the rebuilding of the indexes of the collection from them.
pub mod Walked
use dm_zns_base.Prelude.{
  ℕ, zero, suc, ◌+◌, ◌-◌, ◌*◌, ◌/◌, ◌%◌, Bool, true, false, not, ◌&&◌, ◌||◌, List, [], ◌∷◌, Option,
  none, some, ◌==◌, ltb, leb, if◌then◌else◌, get_elem?, add64, add32, u64_mod,
}
use dm_zns_base.Kernel.{Errno, Ret, ok, err, fault, Ptr}
use dm_zns_base.Zone.{ZnsZone, ZnsZoneTable, is_full}
use dm_zns_base.Block.{Block, block_bytes, bytes}
use dm_zns_base.Block.Io.{block_read}
use dm_zns_base.Sstable.{Sstable, block_sectors, entries_in_block, key_at, sector_at}
use dm_zns_base.Sstable.Reader.{load_table}
use dm_zns_base.Super.{Super, matches, read, write}
use dm_zns_base.Lsm.{array_of}
use dm_zns_base.Lsm.Index.{GcIndexes, gc_restore_entry}
use dm_zns_base.Lsm.State.{Env, ZnsLsm, then_do}

module _ {D X : Type 0} (env : Env D X) where
  abbrev pub with_indexes : ZnsLsm D X → Ret × GcIndexes X → Ret × ZnsLsm D X
  with_indexes s (ret, ix) = (ret, record s { indexes = ix })

  -- The loop over `n` entries of a block, from entry `j` on.
  pub restore_entries : ℕ → ℕ → Block → ZnsLsm D X → Ret × ZnsLsm D X
  restore_entries zero j block s = (ok, s)
  restore_entries (suc n) j block s =
      then_do
        (with_indexes s (
          gc_restore_entry env.xa s.allocator s.sectors_per_block s.super.logical_sectors
            (key_at block j) (sector_at block j) s.indexes))
        (restore_entries n (j + 1) block)

  -- The end of a table: its checksum.
  abbrev pub check_crc : Sstable → ℕ → ZnsLsm D X → Ret × ZnsLsm D X
  check_crc sst crc s = if crc == sst.payload_crc then (ok, s) else (err Errno.einval, s)

  abbrev pub page_read :
      (ℕ → ZnsLsm D X → Ret × ZnsLsm D X)
      → Sstable
      → ℕ
      → ℕ
      → ZnsLsm D X
      → Ret × Block × D
      → Ret × ZnsLsm D X
  page_read rest sst page crc s (ok, block, disk) =
      then_do
        (restore_entries (entries_in_block sst.nr_entries page) 0 block (record s { disk = disk }))
        (rest (env.crc32_le crc (bytes block 0 block_bytes)))
  page_read rest sst page crc s (err e, block, disk) = (err e, record s { disk = disk })
  page_read rest sst page crc s (fault, block, disk) = (fault, record s { disk = disk })

  -- The loop over `n` payload blocks of a table, from block `page` on.
  pub rebuild_pages : ℕ → ℕ → Sstable → ℕ → ZnsLsm D X → Ret × ZnsLsm D X
  unfolding restore_entries
  rebuild_pages zero page sst crc s = check_crc sst crc s
  rebuild_pages (suc n) page sst crc s = page_read (rebuild_pages n (page + 1) sst) sst page crc s (
      block_read env.layer s.disk (add64 sst.start_sector (add32 page 1 * block_sectors))
        env.uninit)

  pub rebuild_tables : List Sstable → ZnsLsm D X → Ret × ZnsLsm D X
  unfolding rebuild_pages
  rebuild_tables [] s = (ok, s)
  rebuild_tables (sst ∷ rest) s =
      then_do (rebuild_pages (sst.nr_blocks - 1) 0 sst 0 s) (rebuild_tables rest)

  -- The memory request is for the block.
  pub gc_rebuild : ZnsLsm D X → Ret × ZnsLsm D X
  unfolding rebuild_tables
  gc_rebuild s =
      let s' = record s { requests = s.requests + 1 } in
      if env.grants s.requests then rebuild_tables s.sstables s' else (err Errno.enomem, s')

  -- A table that was loaded becomes the newest one.
  abbrev pub adopted : ZnsLsm D X → Sstable → ZnsLsm D X
  adopted s sst = record s {
    sstables = sst ∷ s.sstables;
    nr_sstables = add32 s.nr_sstables 1;
    nr_sst_entries = add64 s.nr_sst_entries sst.nr_entries;
    next_sst_seq = if leb s.next_sst_seq sst.seq then add64 sst.seq 1 else s.next_sst_seq;
  }

  abbrev pub loaded :
      (ℕ → ZnsLsm D X → Ret × ZnsLsm D X)
      → ℕ
      → ZnsLsm D X
      → Ret × Ptr Sstable × D
      → Ret × ZnsLsm D X
  loaded rest cursor s (ok, some sst, disk) =
      rest (add64 cursor (sst.nr_blocks * block_sectors)) (adopted (record s { disk = disk }) sst)
  loaded rest cursor s (ok, none, disk) = (fault, s)
  loaded rest cursor s (err Errno.einval, _, disk) = (ok, record s { disk = disk })
  loaded rest cursor s (err e, _, disk) = (err e, record s { disk = disk })
  loaded rest cursor s (fault, _, disk) = (fault, s)

  -- The walk over the log, by fuel. A load makes at most two memory requests.
  pub recover_loop : ℕ → ℕ → ZnsLsm D X → Ret × ZnsLsm D X
  recover_loop zero cursor s = (fault, s)
  recover_loop (suc n) cursor s =
      let next =
        loaded (recover_loop n) cursor (record s { requests = s.requests + 2 })
          (load_table env.layer (env.grants s.requests) (env.grants (s.requests + 1)) env.uninit
            s.disk cursor s.meta_wp) in
      if ltb cursor s.meta_wp then next else (ok, s)

  pub recover_sstables : ZnsLsm D X → Ret × ZnsLsm D X
  unfolding recover_loop
  recover_sstables s = recover_loop (suc s.meta_wp) (add64 s.meta_start block_sectors) s

  -- The position of the log, and what the superblock should say.
  abbrev pub located : ZnsLsm D X → ℕ → ZnsZone → ZnsLsm D X
  located s logical_sectors meta = record s {
    meta_start = meta.start_sector;
    meta_end = add64 meta.start_sector meta.capacity;
    super = record s.super {
      logical_sectors = logical_sectors;
      zone_size_sectors = meta.length;
      nr_zones = s.zone_table.nr_zones;
      meta_zone_id = meta.id;
      sectors_per_block = s.sectors_per_block;
    };
  }

  abbrev pub matched : ZnsLsm D X → ℕ → Super → Ret → Ret × ZnsLsm D X
  matched s write_pointer on_disk ok = (ok, record s { super = on_disk; meta_wp = write_pointer })
  matched s write_pointer on_disk (err e) = (err e, s)
  matched s write_pointer on_disk fault = (fault, s)

  abbrev pub super_was_read : ZnsLsm D X → ℕ → Ret × Ptr Super × Ptr D → Ret × ZnsLsm D X
  super_was_read s write_pointer (ok, some on_disk, some disk) =
      matched (record s { disk = disk }) write_pointer on_disk
        (matches (some on_disk) (some s.super))
  super_was_read s write_pointer (err e, _, some disk) = (err e, record s { disk = disk })
  super_was_read s write_pointer (_, _, _) = (fault, s)

  abbrev pub super_was_written : ZnsLsm D X → Ret × Ptr D → Ret × ZnsLsm D X
  super_was_written s (ok, some disk) =
      (ok, record s { disk = disk; meta_wp = add64 s.meta_start block_sectors })
  super_was_written s (err e, some disk) = (err e, record s { disk = disk })
  super_was_written s (_, _) = (fault, s)

  -- A log that is not empty starts with a superblock that must match; an empty one is formatted. The
  -- memory request is for the block; `random` is the new identifier, and `uninit` the local variable
  -- `on_disk`.
  abbrev pub adopt_log : ZnsLsm D X → ℕ → Super → ℕ → Ret × ZnsLsm D X
  adopt_log s random uninit write_pointer =
      let s' = record s { requests = s.requests + 1 } in
      if write_pointer == s.meta_start
      then (let t = record s' { super = record s'.super { uuid = random } } in
          super_was_written t (
            write env.crc32_le env.layer (env.grants s.requests) (some t.disk) t.meta_start
              (some t.super)))
      else super_was_read s' write_pointer (
          read env.crc32_le env.layer (env.grants s.requests) env.uninit (some s'.disk)
            s'.meta_start (some uninit))

  -- The write pointer of a full zone lies past its capacity: it counts as the end of the zone.
  abbrev pub open_zone : ZnsLsm D X → ℕ → Super → ℕ → ZnsZone → Ret × ZnsLsm D X
  open_zone s random uninit logical_sectors meta =
      if ltb meta.capacity block_sectors || ltb meta.write_pointer meta.start_sector
      then (err Errno.einval, s)
      else if is_full meta.condition
      then adopt_log (located s logical_sectors meta) random uninit
          (located s logical_sectors meta).meta_end
      else if ltb (add64 meta.start_sector meta.capacity) meta.write_pointer
      then (
        err Errno.einval,
        record s {
          meta_start = meta.start_sector;
          meta_end = add64 meta.start_sector meta.capacity;
        },
      )
      else adopt_log (located s logical_sectors meta) random uninit meta.write_pointer

  -- `zns_lsm_data_zones_dirty` only chooses a message.
  pub open_metadata : ZnsLsm D X → ℕ → Super → ℕ → Ret × ZnsLsm D X
  open_metadata s random uninit logical_sectors =
      if ltb s.zone_table.nr_zones 2
      then (err Errno.einval, s)
      else elim (get_elem? (array_of s.zone_table.zones) (s.zone_table.nr_zones - 1)) [
        | none ↦ (fault, s)
        | some meta ↦ open_zone s random uninit logical_sectors meta
      ]
