-- ===== src/Lsm/State.antt =====
-- src/engines/zns-engine-lsm.c: `struct zns_lsm`, and what the engine takes from outside it.
--
-- The mutexes leave no trace: each of the sections that they guard is one step on the state. A work
-- queue is the flag that the work is queued. `disk` is the state of the device below. The memory
-- requests of a run are numbered; a call that makes at most m of them uses m numbers, whether or not
-- it makes them all.
use dm_zns_base.Prelude.{ℕ, Bool, List}
use dm_zns_base.Kernel.{Ret, ok, err, fault, Ptr, Grants}
use dm_zns_base.Zone.{ZnsZoneTable, Device}
use dm_zns_base.Allocator.{Allocator}
use dm_zns_base.Block.{Block}
use dm_zns_base.Block.Io.{Layer}
use dm_zns_base.Gc.{GcContext, Victim}
use dm_zns_base.Memtable.{Memtable, Rbtree}
use dm_zns_base.Generations.{Tables}
use dm_zns_base.Sstable.{Sstable}
use dm_zns_base.Super.{Super}
use dm_zns_base.Lsm.Index.{XArray, GcIndexes}

-- The kernel (the block layer, the report of the zones in a state of the device, `blkdev_zone_mgmt`
-- for a reset, the checksum, the tree, the XArray, what `kmalloc` leaves in a block), the policy that
-- is linked in, and the three module parameters that make a request fail.
pub record Env (D X : Type 0) : Type 1 where
  pub layer : Layer D
  pub bdev : D → Device
  pub zone_reset : D → ℕ → ℕ → Ret × D
  pub crc32_le : ℕ → List ℕ → ℕ
  pub rb : Rbtree
  pub grants : Grants
  pub uninit : Block
  pub xa : XArray X
  pub should_gc : GcContext → Bool
  pub select_victim : GcContext → Victim
  pub fail_data_write_at : ℕ
  pub fail_gc_move_write_at : ℕ
  pub fail_gc_zone_reset_at : ℕ

pub record ZnsLsm (D X : Type 0) : Type 0 where
  pub disk : D
  pub requests : ℕ
  pub zone_table : ZnsZoneTable
  pub allocator : Allocator
  pub indexes : GcIndexes X
  pub gc_runs : ℕ
  pub gc_moved : ℕ
  pub gc_resets : ℕ
  pub tables : Tables
  pub flushing : Ptr Memtable
  pub flush_in_flight : Bool
  pub flush_queued : Bool
  pub memtable_threshold : ℕ
  pub sectors_per_block : ℕ
  pub data_write_attempts : ℕ
  pub gc_move_write_attempts : ℕ
  pub gc_zone_reset_attempts : ℕ
  pub writes_stopped : Bool
  pub sstables : List Sstable
  pub nr_sstables : ℕ
  pub nr_sst_entries : ℕ
  pub next_sst_seq : ℕ
  pub meta_start : ℕ
  pub meta_wp : ℕ
  pub meta_end : ℕ
  pub super : Super

-- What the engine does next after a call that returned 0, and the return otherwise.
abbrev pub then_do : {S : Type 0} → Ret × S → (S → Ret × S) → Ret × S
then_do (ok, s) rest = rest s
then_do (err e, s) rest = (err e, s)
then_do (fault, s) rest = (fault, s)
