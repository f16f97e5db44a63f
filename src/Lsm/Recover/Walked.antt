-- ===== src/Lsm/Recover/Walked.antt =====
-- src/engines/zns-engine-lsm.c: the walk of `zns_lsm_recover_sstables` over the log ends, with a list of
-- tables that are in the log.
use dm_zns_base.Prelude.{
  ℕ, ◌+◌, ◌*◌, ◌%◌, ◌≤◌, ◌<◌, ◌≡◌, ◌≢◌, List, ◌∷◌, Bool, some, [], length, All, u32_mod, u64_mod,
}
use dm_zns_base.Kernel.{Errno, Ret, ok, err, Ptr}
use dm_zns_base.Block.{Block}
use dm_zns_base.Block.Io.{Layer, IsDevice}
use dm_zns_base.Sstable.{Sstable, nr_blocks, block_sectors}
use dm_zns_base.Sstable.Reader.{load_table}
use dm_zns_base.Lsm.State.{Env, ZnsLsm}

-- Every byte of a block.
abbrev pub IsBytes : Block → Type 0
IsBytes b = (i : ℕ) → b i < 256

-- What the decoding of a header answers.
data Decoded : Ret × Ptr Sstable × Ptr ℕ → Type 0 where
  bad : (e : Errno) (sst : Ptr Sstable) (crc : Ptr ℕ) → Decoded (err e, sst, crc)
  good : (sst : Sstable) (crc : ℕ) → 0 < sst.nr_blocks → Decoded (ok, some sst, some crc)

-- The table is inside the log, which ends at `bound`, and takes a block at least.
pub record InLog (bound : ℕ) (sst : Sstable) : Type 0 where
  pub some_block : 0 < sst.nr_blocks
  pub inside : sst.start_sector + sst.nr_blocks * block_sectors ≤ bound

module _ {D : Type 0} (layer : Layer D) (content : D → ℕ → Block)
    (dev : IsDevice layer content) where
  data Loaded (before : D) (sector limit : ℕ) : Ret × Ptr Sstable × D → Type 0 where
    refused :
        (e : Errno) (sst : Ptr Sstable) (disk : D) → Loaded before sector limit (err e, sst, disk)
    found :
        (sst : Sstable) (disk : D)
        → sst.start_sector ≡ sector
        → InLog limit sst
        → ((x : ℕ) → content disk x ≡ content before x)
        → Loaded before sector limit (ok, some sst, disk)

-- The tables, newest first, follow one another from `first` to `end`.
abbrev pub IsChain : ℕ → ℕ → List Sstable → Type 0
IsChain first end [] = end ≡ first
IsChain first end (sst ∷ rest) =
    (sst.start_sector + sst.nr_blocks * block_sectors ≡ end) × IsChain first sst.start_sector rest

module _ {D X : Type 0} (env : Env D X) (content : D → ℕ → Block)
    (dev : IsDevice env.layer content) where
  -- Every block of the device holds bytes.
  abbrev pub HasBytes : D → Type 0
  HasBytes disk = (x : ℕ) → IsBytes (content disk x)

  -- Why the walk over the log of the device `start` ends at `cursor`: the log ends there, or no table
  -- starts there, or the load of a table fails for another reason, and that is what it returns.
  pub data Stopped (start : D) (limit cursor : ℕ) : Ret × ZnsLsm D X → Type 0 where
    through : (t : ZnsLsm D X) → limit ≤ cursor → Stopped start limit cursor (ok, t)
    at_tail :
        (t : ZnsLsm D X) (before : D) (granted granted_block : Bool) (sst : Ptr Sstable)
        → ((x : ℕ) → content before x ≡ content start x)
        → load_table env.layer granted granted_block env.uninit before cursor limit
          ≡ (err Errno.einval, sst, t.disk)
        → Stopped start limit cursor (ok, t)
    unloaded :
        (e : Errno) (t : ZnsLsm D X) (before : D) (granted granted_block : Bool) (sst : Ptr Sstable)
        → err e ≢ err Errno.einval
        → ((x : ℕ) → content before x ≡ content start x)
        → load_table env.layer granted granted_block env.uninit before cursor limit
          ≡ (err e, sst, t.disk)
        → Stopped start limit cursor (err e, t)

  -- The list of tables after the walk: they fill the log from `first` to where the walk ended, each is
  -- before the end of the log, and the engine counts them.
  pub record Ended (start : D) (limit first : ℕ) (r : Ret × ZnsLsm D X) : Type 0 where
    pub cursor : ℕ
    pub stop : Stopped start limit cursor r
    pub chain : IsChain first cursor r.1.sstables
    pub in_log : All (InLog limit) r.1.sstables
    pub count : r.1.nr_sstables ≡ length r.1.sstables % u32_mod
    pub same_end : r.1.meta_wp ≡ limit

  module _ (start : D) (limit first : ℕ) (small : limit < u64_mod) (bytes : HasBytes start) where
    -- What the walk keeps up.
    record Walking (cursor : ℕ) (s : ZnsLsm D X) : Type 0 where
      same : (x : ℕ) → content s.disk x ≡ content start x
      end : s.meta_wp ≡ limit
      chain : IsChain first cursor s.sstables
      in_log : All (InLog limit) s.sstables
      count : s.nr_sstables ≡ length s.sstables % u32_mod
