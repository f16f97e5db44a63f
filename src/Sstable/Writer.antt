-- ===== src/Sstable/Writer.antt =====
-- src/lsm-sstable.c: `zns_sst_write`, which puts a memory table on the device.
--
-- The state `D` of the device goes through the context; the block is passed on with it.
use dm_zns_base.Prelude.{
  ℕ, ◌+◌, ◌-◌, ◌*◌, Bool, true, false, List, [], ◌∷◌, none, some, ◌==◌, ltb, leb, if◌then◌else◌,
  add64, add32, sub64,
}
use dm_zns_base.Kernel.{Errno, Ret, ok, err, fault, Ptr}
use dm_zns_base.Memtable.{Entry, Memtable, Rbtree}
use dm_zns_base.Block.{Block, block_bytes, zeroed, bytes, store, stores}
use dm_zns_base.Block.Io.{Layer, block_write}
use dm_zns_base.Sstable.{Sstable, nr_blocks, encode_header, entries_per_block, block_sectors}

-- `struct zns_sst_write_ctx`, with the state of the device for `bdev`.
pub record WriteCtx (D : Type 0) : Type 0 where
  pub disk : D
  pub sector : ℕ
  pub crc : ℕ
  pub write : Bool

-- A table after `kzalloc`.
abbrev pub zeroed_sstable : Sstable
zeroed_sstable = record {
  start_sector = 0;
  nr_entries = 0;
  nr_blocks = 0;
  min_key = 0;
  max_key = 0;
  seq = 0;
  payload_crc = 0;
}

abbrev pub scan_entry : Sstable → Entry → Sstable
scan_entry sst entry = record sst {
  min_key = if sst.nr_entries == 0 then entry.logical_block else sst.min_key;
  max_key = entry.logical_block;
  nr_entries = add32 sst.nr_entries 1;
}

abbrev pub scan_from : Sstable → List Entry → Sstable
scan_from sst [] = sst
scan_from sst (entry ∷ rest) = scan_from (scan_entry sst entry) rest

-- `zns_sst_scan_memtable`, over the nodes in the order of the kernel's walk.
unfoldable pub scan_memtable : List Entry → Sstable → Sstable
scan_memtable entries sst =
    scan_from (record sst { nr_entries = 0; min_key = 0; max_key = 0 }) entries

-- `entries[nr_in_block] = ...`
abbrev pub put_entry : ℕ → Entry → Block → Block
put_entry nr_in_block entry block =
    stores
      (store 8 (16 * nr_in_block) entry.logical_block
        ∷ store 8 (16 * nr_in_block + 8) entry.physical_sector
        ∷ [])
      block

module _ {D : Type 0} (layer : Layer D) (crc32_le : ℕ → List ℕ → ℕ) where
  abbrev pub consume_written : WriteCtx D → Ret × Block × D → Ret × WriteCtx D
  consume_written ctx (ok, block, disk) =
      (ok, record ctx { disk = disk; sector = add64 ctx.sector block_sectors })
  consume_written ctx (err e, block, disk) = (err e, record ctx { disk = disk })
  consume_written ctx (fault, block, disk) = (fault, record ctx { disk = disk })

  abbrev pub consume_counted : WriteCtx D → Block → Ret × WriteCtx D
  consume_counted ctx block =
      if ctx.write
      then consume_written ctx (block_write layer ctx.disk ctx.sector block)
      else (ok, ctx)

  unfoldable pub consume_block : WriteCtx D → Block → Ret × WriteCtx D
  consume_block ctx block =
      consume_counted (record ctx { crc = crc32_le ctx.crc (bytes block 0 block_bytes) }) block

  -- What follows a block that is consumed: the next one starts from zeros.
  abbrev pub emit_next :
      (ℕ → Block → WriteCtx D → Ret × WriteCtx D) → Ret × WriteCtx D → Ret × WriteCtx D
  emit_next rest (ok, ctx) = rest 0 zeroed ctx
  emit_next rest (err e, ctx) = (err e, ctx)
  emit_next rest (fault, ctx) = (fault, ctx)

  -- `if (++nr_in_block < ZNS_SST_ENTRIES_PER_BLOCK) continue;`, and what follows it.
  unfoldable pub emit_full :
      Bool → (ℕ → Block → WriteCtx D → Ret × WriteCtx D) → ℕ → Block → WriteCtx D → Ret × WriteCtx D
  emit_full true rest nr_in_block block ctx = rest nr_in_block block ctx
  emit_full false rest nr_in_block block ctx = emit_next rest (consume_block ctx block)

  -- The loop of `zns_sst_emit_payload`, and the tail block after it.
  unfoldable pub emit_loop : List Entry → ℕ → Block → WriteCtx D → Ret × WriteCtx D
  emit_loop [] nr_in_block block ctx =
      if nr_in_block == 0 then (ok, ctx) else consume_block ctx block
  emit_loop (entry ∷ rest) nr_in_block block ctx =
      emit_full (ltb (nr_in_block + 1) entries_per_block) (emit_loop rest) (nr_in_block + 1)
        (put_entry nr_in_block entry block) ctx

  unfoldable pub emit_payload : List Entry → WriteCtx D → Ret × WriteCtx D
  unfolding emit_loop
  emit_payload entries ctx = emit_loop entries 0 zeroed ctx

  -- The results of `zns_sst_write`: the return value, `*result`, `*consumed`, the device.
  abbrev pub Result : Type 0
  Result = Ret × Ptr Sstable × ℕ × D

  -- After pass 2.
  abbrev pub write_done : Sstable → Ret × WriteCtx D → Result
  write_done sst (ok, ctx) = (ok, some sst, sub64 ctx.sector sst.start_sector, ctx.disk)
  write_done sst (err e, ctx) = (err e, none, sub64 ctx.sector sst.start_sector, ctx.disk)
  write_done sst (fault, ctx) = (fault, none, sub64 ctx.sector sst.start_sector, ctx.disk)

  -- After the header is written.
  abbrev pub write_payload : Sstable → List Entry → Ret × Block × D → Result
  write_payload sst entries (ok, block, disk) = write_done sst (
      emit_payload entries (record {
        disk = disk;
        sector = add64 sst.start_sector block_sectors;
        crc = 0;
        write = true;
      }))
  write_payload sst entries (err e, block, disk) = (err e, none, 0, disk)
  write_payload sst entries (fault, block, disk) = (fault, none, 0, disk)

  -- After pass 1.
  abbrev pub write_header : Sstable → List Entry → Ret × WriteCtx D → Result
  write_header sst entries (ok, ctx) =
      write_payload sst entries
        (block_write layer ctx.disk sst.start_sector (encode_header sst ctx.crc))
  write_header sst entries (err e, ctx) = (err e, none, 0, ctx.disk)
  write_header sst entries (fault, ctx) = (fault, none, 0, ctx.disk)

  -- From the second request, the one for the block, on.
  abbrev pub write_scanned : Bool → D → Sstable → List Entry → ℕ → Result
  write_scanned granted disk sst entries end_sector =
      if ltb (end_sector - sst.start_sector) (sst.nr_blocks * block_sectors)
      then (err Errno.enospc, none, 0, disk)
      else if granted
      then write_header sst entries (
          emit_payload entries (record {
            disk = disk;
            sector = add64 sst.start_sector block_sectors;
            crc = 0;
            write = false;
          }))
      else (err Errno.enomem, none, 0, disk)

  abbrev pub start_table : ℕ → ℕ → List Entry → Sstable
  start_table start_sector seq entries =
      scan_memtable entries (record zeroed_sstable { start_sector = start_sector; seq = seq })

  -- `zns_sst_write` for pointers that are not NULL. The two Booleans answer the two memory requests.
  -- A number of blocks is a 32-bit one, so its number of sectors is below 2 ^ 64.
  unfoldable pub write_table : Rbtree → Bool → Bool → D → Memtable → ℕ → ℕ → ℕ → Result
  unfolding emit_payload scan_memtable
  write_table rb granted granted_block disk memtable start_sector end_sector seq =
      let entries = rb.walk memtable.root in
      let sst = start_table start_sector seq entries in
      if leb end_sector start_sector
      then (err Errno.enospc, none, 0, disk)
      else if granted
      then if sst.nr_entries == 0
        then (err Errno.enodata, none, 0, disk)
        else write_scanned granted_block disk (record sst { nr_blocks = nr_blocks sst.nr_entries })
            entries end_sector
      else (err Errno.enomem, none, 0, disk)

  abbrev pub write_result : Result → Ret × Ptr (Ptr Sstable) × Ptr ℕ × Ptr D
  write_result (ret, result, consumed, disk) = (ret, some result, some consumed, some disk)

  -- `bdev`, `memtable`, `result` and `consumed` may be NULL.
  unfoldable pub write :
      Rbtree
      → Bool
      → Bool
      → Ptr D
      → Ptr Memtable
      → ℕ
      → ℕ
      → ℕ
      → Ptr (Ptr Sstable)
      → Ptr ℕ
      → Ret × Ptr (Ptr Sstable) × Ptr ℕ × Ptr D
  unfolding write_table
  write rb granted granted_block (some disk) (some m) start_sector end_sector seq (some _)
        (some _) =
      write_result (write_table rb granted granted_block disk m start_sector end_sector seq)
  write rb granted granted_block disk m start_sector end_sector seq result consumed =
      (err Errno.einval, result, consumed, disk)
