-- ===== src/Sstable/Reader.antt =====
-- src/lsm-sstable.c: `zns_sst_load`, which reads a header back, and `zns_sst_lookup`.
use dm_zns_base.Prelude.{
  ℕ, zero, suc, ◌+◌, ◌-◌, ◌*◌, ◌/◌, Bool, true, false, ◌||◌, none, some, ◌==◌, ltb, leb,
  if◌then◌else◌, add32, add64, u32_mod,
}
use dm_zns_base.Kernel.{Errno, Ret, ok, err, fault, Ptr}
use dm_zns_base.Block.{Block}
use dm_zns_base.Block.Io.{Layer, block_read}
use dm_zns_base.Sstable.{
  Sstable, decode_header, block_first_key, block_find, entries_in_block, block_sectors,
}
use dm_zns_base.Sstable.Writer.{zeroed_sstable}

-- `block` and `cached` of `zns_sst_lookup`.
pub record Cache : Type 0 where
  pub cached : ℕ
  pub block : Block

module _ {D : Type 0} (layer : Layer D) where
  -- The last test of `zns_sst_load`. A number of blocks is a 32-bit one, so its number of sectors is
  -- below 2 ^ 64.
  abbrev pub load_checked : ℕ → ℕ → D → Ret × Ptr Sstable × Ptr ℕ → Ret × Ptr Sstable × D
  load_checked sector limit disk (ok, some sst, some payload_crc) =
      if ltb (limit - sector) (sst.nr_blocks * block_sectors)
      then (err Errno.einval, none, disk)
      else (ok, some (record sst { start_sector = sector; payload_crc = payload_crc }), disk)
  load_checked sector limit disk (ok, _, _) = (fault, none, disk)
  load_checked sector limit disk (err e, _, _) = (err e, none, disk)
  load_checked sector limit disk (fault, _, _) = (fault, none, disk)

  -- The checksum goes into the field of the table that is filled in.
  abbrev pub load_decoded : ℕ → ℕ → Ret × Block × D → Ret × Ptr Sstable × D
  load_decoded sector limit (ok, block, disk) =
      load_checked sector limit disk
        (decode_header (some block) (some zeroed_sstable) (some zeroed_sstable.payload_crc))
  load_decoded sector limit (err e, block, disk) = (err e, none, disk)
  load_decoded sector limit (fault, block, disk) = (fault, none, disk)

  -- For pointers that are not NULL. The two Booleans answer the two memory requests; `uninit` is what
  -- `kmalloc` leaves in the block.
  unfoldable pub load_table : Bool → Bool → Block → D → ℕ → ℕ → Ret × Ptr Sstable × D
  load_table granted granted_block uninit disk sector limit =
      if leb limit sector
      then (err Errno.einval, none, disk)
      else if granted
      then if granted_block
        then load_decoded sector limit (block_read layer disk sector uninit)
        else (err Errno.enomem, none, disk)
      else (err Errno.enomem, none, disk)

  abbrev pub load_result : Ret × Ptr Sstable × D → Ret × Ptr (Ptr Sstable) × Ptr D
  load_result (ret, result, disk) = (ret, some result, some disk)

  -- `bdev` and `result` may be NULL.
  unfoldable pub load :
      Bool → Bool → Block → Ptr D → ℕ → ℕ → Ptr (Ptr Sstable) → Ret × Ptr (Ptr Sstable) × Ptr D
  unfolding load_table
  load granted granted_block uninit none sector limit result = (err Errno.einval, result, none)
  load granted granted_block uninit (some disk) sector limit none =
      (err Errno.einval, none, some disk)
  load granted granted_block uninit (some disk) sector limit (some _) =
      load_result (load_table granted granted_block uninit disk sector limit)

  abbrev pub payload_read : ℕ → Cache → Ret × Block × D → Ret × Cache × D
  payload_read index c (ok, block, disk) = (ok, record { cached = index; block = block }, disk)
  payload_read index c (err e, block, disk) = (err e, record c { block = block }, disk)
  payload_read index c (fault, block, disk) = (fault, record c { block = block }, disk)

  -- A block index is a 32-bit number, so its number of sectors is below 2 ^ 64.
  unfoldable pub read_payload_block : Sstable → ℕ → Cache → D → Ret × Cache × D
  read_payload_block sst block_index c disk =
      if c.cached == block_index
      then (ok, c, disk)
      else payload_read block_index c (
          block_read layer disk (add64 sst.start_sector (add32 block_index 1 * block_sectors))
            c.block)

  -- `first_key` of the block read.
  abbrev pub first_key : Cache → Ret × Ptr ℕ
  first_key c = block_first_key (some c.block) (some 0)

  abbrev pub narrow :
      (ℕ → ℕ → Cache → D → Ret × ℕ × Cache × D)
      → ℕ
      → ℕ
      → ℕ
      → ℕ
      → Cache
      → D
      → Ret × Ptr ℕ
      → Ret × ℕ × Cache × D
  narrow rest k low high mid c disk (ok, some key) =
      rest (if leb key k then mid else low) (if leb key k then high else mid - 1) c disk
  narrow rest k low high mid c disk (ok, none) = (fault, low, c, disk)
  narrow rest k low high mid c disk (err e, _) = (err e, low, c, disk)
  narrow rest k low high mid c disk (fault, _) = (fault, low, c, disk)

  abbrev pub step_read :
      (ℕ → ℕ → Cache → D → Ret × ℕ × Cache × D)
      → ℕ
      → ℕ
      → ℕ
      → ℕ
      → Ret × Cache × D
      → Ret × ℕ × Cache × D
  step_read rest k low high mid (ok, c, disk) = narrow rest k low high mid c disk (first_key c)
  step_read rest k low high mid (err e, c, disk) = (err e, low, c, disk)
  step_read rest k low high mid (fault, c, disk) = (fault, low, c, disk)

  -- The rounded-up middle; `high - low + 1` does not wrap, since `high` is at most 2 ^ 32 - 3.
  abbrev pub upper_mid : ℕ → ℕ → ℕ
  upper_mid low high = add32 low ((high - low + 1) / 2)

  unfoldable pub search_step :
      Bool
      → (ℕ → ℕ → Cache → D → Ret × ℕ × Cache × D)
      → Sstable
      → ℕ
      → ℕ
      → ℕ
      → Cache
      → D
      → Ret × ℕ × Cache × D
  search_step false rest sst k low high c disk = (ok, low, c, disk)
  search_step true rest sst k low high c disk =
      step_read rest k low high (upper_mid low high)
        (read_payload_block sst (upper_mid low high) c disk)

  -- The loop that finds the block, by fuel.
  unfoldable pub search_loop : Sstable → ℕ → ℕ → ℕ → ℕ → Cache → D → Ret × ℕ × Cache × D
  search_loop sst k zero low high c disk = (fault, low, c, disk)
  search_loop sst k (suc n) low high c disk =
      search_step (ltb low high) (search_loop sst k n) sst k low high c disk

  abbrev pub with_state : D → Ret × Ptr ℕ → Ret × Ptr ℕ × D
  with_state disk (ret, cell) = (ret, cell, disk)

  abbrev pub lookup_found : Sstable → ℕ → ℕ → ℕ → Ret × Cache × D → Ret × Ptr ℕ × D
  lookup_found sst k cell low (ok, c, disk) =
      with_state disk
        (block_find (some c.block) (entries_in_block sst.nr_entries low) k (some cell))
  lookup_found sst k cell low (err e, c, disk) = (err e, some cell, disk)
  lookup_found sst k cell low (fault, c, disk) = (fault, some cell, disk)

  abbrev pub lookup_searched : Sstable → ℕ → ℕ → Ret × ℕ × Cache × D → Ret × Ptr ℕ × D
  lookup_searched sst k cell (ok, low, c, disk) =
      lookup_found sst k cell low (read_payload_block sst low c disk)
  lookup_searched sst k cell (err e, low, c, disk) = (err e, some cell, disk)
  lookup_searched sst k cell (fault, low, c, disk) = (fault, some cell, disk)

  -- For pointers that are not NULL. `cached` starts as `UINT_MAX`.
  unfoldable pub lookup_table : Bool → Block → D → Sstable → ℕ → ℕ → Ret × Ptr ℕ × D
  lookup_table granted uninit disk sst k cell =
      if ltb sst.nr_blocks 2
      then (err Errno.einval, some cell, disk)
      else if ltb k sst.min_key || ltb sst.max_key k
      then (err Errno.enodata, some cell, disk)
      else if granted
      then lookup_searched sst k cell (
          search_loop sst k (suc (sst.nr_blocks - 2)) 0 (sst.nr_blocks - 2)
            (record { cached = u32_mod - 1; block = uninit }) disk)
      else (err Errno.enomem, some cell, disk)

  abbrev pub lookup_result : Ret × Ptr ℕ × D → Ret × Ptr ℕ × Ptr D
  lookup_result (ret, cell, disk) = (ret, cell, some disk)

  -- `bdev`, `sst` and `physical_sector` may be NULL.
  unfoldable pub lookup : Bool → Block → Ptr D → Ptr Sstable → ℕ → Ptr ℕ → Ret × Ptr ℕ × Ptr D
  unfolding lookup_table
  lookup granted uninit none sst k cell = (err Errno.einval, cell, none)
  lookup granted uninit (some disk) none k cell = (err Errno.einval, cell, some disk)
  lookup granted uninit (some disk) (some sst) k none = (err Errno.einval, none, some disk)
  lookup granted uninit (some disk) (some sst) k (some cell) =
      lookup_result (lookup_table granted uninit disk sst k cell)
