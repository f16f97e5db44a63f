-- ===== src/Lsm/Reading.antt =====
-- src/engines/zns-engine-lsm.c: the read path, from the newest memory table to the oldest table on
-- the device.
pub mod Log
pub mod Newest
use dm_zns_base.Prelude.{
  ℕ, ◌+◌, ◌/◌, ◌%◌, Bool, true, false, List, [], ◌∷◌, Option, none, some, ◌==◌, ◌&&◌, if◌then◌else◌,
}
use dm_zns_base.Kernel.{Errno, Ret, ok, err, fault, Ptr}
use dm_zns_base.Memtable.{Memtable, lookup}
use dm_zns_base.Generations.{Tables, lookup_immutable}
use dm_zns_base.Sstable.{Sstable}
use dm_zns_base.Sstable.Reader
use dm_zns_base.Lsm.State.{Env, ZnsLsm}

-- `-ENODATA` sends the lookup to the next table.
abbrev pub is_enodata : Ret → Bool
is_enodata (err Errno.enodata) = true
is_enodata _ = false

-- The argument and the second result are `*physical_sector`.
pub lookup_memtables : Tables → Ptr Memtable → ℕ → ℕ → Ret × Ptr ℕ
lookup_memtables t flushing logical_block cell = elim t.active [
  | none ↦ (err Errno.einval, some cell)
  | some m ↦
      let (r, cell', _) = lookup (some m) logical_block (some cell) none in
      lookup_immutable flushing logical_block
        (lookup_immutable t.immutable logical_block (r, cell'))
]

module _ {D X : Type 0} (env : Env D X) where
  abbrev pub Answer : Type 0
  Answer = Ret × Ptr ℕ × D × ℕ

  -- After the lookup in one table: the next table is asked on -ENODATA only.
  abbrev pub next_table : (D → ℕ → ℕ → Answer) → ℕ → Ret × Ptr ℕ × Ptr D → D → ℕ → Answer
  next_table rest n (ret, some cell, some disk) old old_cell =
      if is_enodata ret then rest disk cell (n + 1) else (ret, some cell, disk, n + 1)
  next_table rest n (ret, cell, _) old old_cell = (ret, cell, old, n + 1)

  -- The walk over the list of tables, newest first. A lookup makes at most one memory request.
  pub lookup_tables : List Sstable → ℕ → D → ℕ → ℕ → Answer
  lookup_tables [] logical_block disk cell n = (err Errno.enodata, some cell, disk, n)
  lookup_tables (sst ∷ rest) logical_block disk cell n =
      next_table (lookup_tables rest logical_block) n
        (Reader.lookup env.layer (env.grants n) env.uninit (some disk) (some sst) logical_block
          (some cell))
        disk cell

  abbrev pub found : ZnsLsm D X → Answer → Ret × Ptr ℕ × ZnsLsm D X
  found s (ret, cell, disk, n) = (ret, cell, record s { disk = disk; requests = n })

  pub lookup_sstables : ZnsLsm D X → ℕ → ℕ → Ret × Ptr ℕ × ZnsLsm D X
  unfolding lookup_tables
  lookup_sstables s logical_block cell =
      found s (lookup_tables s.sstables logical_block s.disk cell s.requests)

  abbrev pub is_aligned_io : ZnsLsm D X → ℕ → ℕ → Bool
  is_aligned_io s logical_sector sectors =
      (sectors == s.sectors_per_block) && (logical_sector % s.sectors_per_block == 0)

  -- After the lookup in the memory tables.
  abbrev pub read_tables : ZnsLsm D X → ℕ → Ret × Ptr ℕ → Ret × Ptr ℕ × ZnsLsm D X
  read_tables s logical_block (ret, some cell) =
      if is_enodata ret then lookup_sstables s logical_block cell else (ret, some cell, s)
  read_tables s logical_block (ret, none) = (ret, none, s)

  pub read : ZnsLsm D X → ℕ → ℕ → ℕ → Ret × Ptr ℕ × ZnsLsm D X
  unfolding lookup_memtables lookup_sstables
  read s logical_sector sectors cell =
      if is_aligned_io s logical_sector sectors
      then read_tables s (logical_sector / s.sectors_per_block)
          (lookup_memtables s.tables s.flushing (logical_sector / s.sectors_per_block) cell)
      else (err Errno.einval, some cell, s)
