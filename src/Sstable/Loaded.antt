-- ===== src/Sstable/Loaded.antt =====
-- src/lsm-sstable.c: a table that `zns_sst_write` wrote is what `zns_sst_load` finds.
use dm_zns_base.Prelude.{
  ℕ, zero, suc, ◌+◌, ◌-◌, ◌*◌, ◌≤◌, ◌<◌, ◌≡◌, refl, sym, ◌∙◌, ap, Bool, true, List, [], ◌∷◌, some,
  length, get_elem?, u32_mod, u64_mod, arith, ge→ltb, gt→leb, get_elem?-some,
}
use dm_zns_base.Kernel.{ok}
use dm_zns_base.Memtable.{Entry, Memtable, Rbtree}
use dm_zns_base.Block.{Block, block_bytes, bytes, zeroed}
use dm_zns_base.Block.Laws.{IsU32}
use dm_zns_base.Block.Io.{Layer, IsDevice}
use dm_zns_base.Sstable.{Sstable, encode_header}
use dm_zns_base.Sstable.Header.{InRange, decode_header-encode_header}
use dm_zns_base.Sstable.Writer.{write_table, zeroed_sstable, start_table}
use dm_zns_base.Sstable.Reader.{load_table}
use dm_zns_base.Sstable.Scan.{
  Growing, Scanned, scan_memtable-Scanned, scan_memtable-first, scan_memtable-last,
}
use dm_zns_base.Sstable.Payload.{blocks_of}
use dm_zns_base.Sstable.Emit.{checksum}
use dm_zns_base.Sstable.Found.{AllInRange}
use dm_zns_base.Sstable.Written.{Stored, table_of, count-table_of, write_table-Stored}

checksum-small :
    {crc32_le : ℕ → List ℕ → ℕ}
    → (bs : List Block) (crc : ℕ) → crc < u32_mod
    → IsU32 crc32_le
    → checksum crc32_le bs crc < u32_mod
checksum-small [] crc h bounded = h
checksum-small (b ∷ bs) crc h bounded = checksum-small bs _ (bounded _ _) bounded

module _ {D : Type 0} (layer : Layer D) (crc32_le : ℕ → List ℕ → ℕ) (content : D → ℕ → Block)
    (dev : IsDevice layer content) where
  -- The checksum of the bytes that the device has in `n` blocks, one after the other.
  abbrev pub device_checksum : D → ℕ → ℕ → ℕ → ℕ
  device_checksum disk zero sector crc = crc
  device_checksum disk (suc n) sector crc =
      device_checksum disk n (sector + 8) (crc32_le crc (bytes (content disk sector) 0 block_bytes))

  device_checksum-checksum :
      (bs : List Block) (disk : D) (sector crc : ℕ)
      → ((i : ℕ) (b : Block) → get_elem? bs i ≡ some b → content disk (sector + i * 8) ≡ b)
      → device_checksum disk (length bs) sector crc ≡ checksum crc32_le bs crc
  device_checksum-checksum [] disk sector crc h = refl
  device_checksum-checksum (b ∷ bs) disk sector crc h =
      let here : content disk sector ≡ b = ap (content disk) (omega arith) ∙ h 0 b refl in
      device_checksum-checksum bs disk (sector + 8)
        (crc32_le crc (bytes (content disk sector) 0 block_bytes))
        (λ i c e. ap (content disk) (omega arith) ∙ h (suc i) c e)
      ∙ ap (λ x. checksum crc32_le bs (crc32_le crc (bytes x 0 block_bytes))) here

  -- The index `sst` is that of the entries `es`, which are in the blocks from `start` on.
  pub record IsIndex (es : List Entry) (start seq_number consumed : ℕ) (disk : D) (sst : Sstable)
      : Type 0 where
    pub start_sector : sst.start_sector ≡ start
    pub seq : sst.seq ≡ seq_number
    pub count : sst.nr_entries ≡ length es
    pub first : (e : Entry) → get_elem? es 0 ≡ some e → sst.min_key ≡ e.logical_block
    pub last : (e : Entry) → get_elem? es (length es - 1) ≡ some e → sst.max_key ≡ e.logical_block
    pub blocks : sst.nr_blocks * 8 ≡ consumed
    pub intact : sst.payload_crc ≡ device_checksum disk (sst.nr_blocks - 1) (start + 8) 0

  module _ (es : List Entry) (start seq : ℕ) (g : Growing es) (pos : 0 < length es)
      (small : length es < u32_mod) (ranges : AllInRange es) (seq_small : seq < u64_mod) where
    abbrev table : Sstable
    table = table_of layer crc32_le start seq es

    abbrev from : Sstable
    from = record zeroed_sstable { start_sector = start; seq = seq }

    scanned : Scanned es from (start_table layer crc32_le start seq es)
    scanned = scan_memtable-Scanned es from g small

    table-InRange : InRange table
    table-InRange =
        let (e, at) = get_elem?-some es (length es - 1) (omega (arith, pos)) in
        let greatest = scan_memtable-last es from (length es - 1) e (omega (arith, pos)) at in
        record {
          some_entry = omega (arith, scanned.count, pos);
          nr_entries = omega (arith, scanned.count, small);
          blocks = refl;
          seq = omega (arith, scanned.seq, seq_small);
          min_key =
              omega (arith, scanned.lower (length es - 1) e at, scanned.upper (length es - 1) e at);
          max_key = omega (arith, greatest, (ranges (length es - 1) e at).logical_block);
        }

    -- The header holds the checksum of the blocks, and the limit leaves room for the table.
    load_table-Stored :
        (consumed limit : ℕ) (disk : D) (uninit : Block)
        → IsU32 crc32_le
        → Stored layer crc32_le content dev es table consumed disk
        → start + consumed ≤ limit
        → (disk' : D) × ((s : ℕ) → content disk' s ≡ content disk s)
          × (load_table layer true true uninit disk start limit ≡ (
            ok,
            some (record table {
              start_sector = start;
              payload_crc = checksum crc32_le (blocks_of es 0 zeroed) 0;
            }),
            disk',
          ))
    unfolding load_table
    load_table-Stored consumed limit disk uninit bounded stored room =
        let (disk', same, e) = dev.reads disk start uninit in
        let blocks = count-table_of layer crc32_le content dev start seq es g small in
        let head : content disk start
            ≡ encode_header table (checksum crc32_le (blocks_of es 0 zeroed) 0) =
          ap (content disk) (sym scanned.start_sector) ∙ stored.header in
        (
          disk',
          same,
          rw
              (
                gt→leb limit start (omega (arith, room, stored.used)),
                e,
                head,
                decode_header-encode_header table zeroed_sstable
                    (checksum crc32_le (blocks_of es 0 zeroed) 0) (some 0) table-InRange
                    (checksum-small (blocks_of es 0 zeroed) 0 (omega arith) bounded),
                ge→ltb (limit - start) (table.nr_blocks * 8)
                    (omega (arith, room, stored.used, blocks)),
              )
              refl,
        )

    indexed :
        (consumed : ℕ) (disk : D)
        → Stored layer crc32_le content dev es table consumed disk
        → IsIndex es start seq consumed disk (record table {
          start_sector = start;
          payload_crc = checksum crc32_le (blocks_of es 0 zeroed) 0;
        })
    indexed consumed disk stored =
        let blocks = count-table_of layer crc32_le content dev start seq es g small in
        let count : table.nr_blocks - 1 ≡ length (blocks_of es 0 zeroed) = omega (arith, blocks) in
        record {
          start_sector = refl;
          seq = scanned.seq;
          count = scanned.count;
          first = λ e at. scan_memtable-first es from e g small at;
          last = λ e at. scan_memtable-last es from (length es - 1) e (omega (arith, pos)) at;
          blocks = omega (arith, blocks, stored.used);
          intact = sym (
              ap (λ n. device_checksum disk n (start + 8) 0) count
              ∙ device_checksum-checksum (blocks_of es 0 zeroed) disk (start + 8) 0 (λ i b at.
                ap (content disk) (omega (arith, scanned.start_sector)) ∙ stored.payload i b at));
        }

  -- Once the write of a memory table whose keys grow reports success, a load at its first sector, with
  -- any limit that leaves room for the sectors it used, finds its index: the number of its entries,
  -- its first and its last key, its sequence number, its number of blocks, and the checksum of the
  -- payload that the device has. It is the index that the write handed back, but for the checksum.
  -- (Conditions: at least one entry, a 32-bit number of entries, which hold 64-bit numbers, a 64-bit
  -- end and sequence number, 32-bit checksums, memory for the load, a device that keeps its blocks and
  -- answers every read.)
  pub load_table-write_table :
      (rb : Rbtree) (granted granted_block : Bool) (disk : D) (m : Memtable)
      (start_sector end_sector seq limit : ℕ) (uninit : Block)
      → Growing (rb.walk m.root)
      → 0 < length (rb.walk m.root)
      → length (rb.walk m.root) < u32_mod
      → AllInRange (rb.walk m.root)
      → end_sector < u64_mod
      → seq < u64_mod
      → IsU32 crc32_le
      → (write_table layer crc32_le rb granted granted_block disk m start_sector end_sector seq).0
        ≡ ok
      → start_sector
          + (write_table layer crc32_le rb granted granted_block disk m start_sector end_sector
              seq).2
        ≤ limit
      → (sst : Sstable) × (crc : ℕ) × (disk' : D) × (load_table layer true true uninit
            (write_table layer crc32_le rb granted granted_block disk m start_sector end_sector
              seq).3
            start_sector
            limit
          ≡ (ok, some sst, disk'))
        × ((s : ℕ)
            → content disk' s
              ≡ content
                  (write_table layer crc32_le rb granted granted_block disk m start_sector
                    end_sector seq).3
                  s)
        × ((write_table layer crc32_le rb granted granted_block disk m start_sector end_sector
              seq).1
            ≡ some (record sst { payload_crc = crc }))
        × IsIndex
            (rb.walk m.root)
            start_sector
            seq
            (write_table layer crc32_le rb granted granted_block disk m start_sector end_sector
              seq).2
            (write_table layer crc32_le rb granted granted_block disk m start_sector end_sector
              seq).3
            sst
  load_table-write_table rb granted granted_block disk m start_sector end_sector seq limit uninit g
        pos small ranges last seq_small bounded success room =
      let es = rb.walk m.root in
      let (handed, stored) =
        write_table-Stored layer crc32_le content dev rb granted granted_block disk m start_sector
          end_sector seq g small last success in
      let (disk', same, loaded) =
        load_table-Stored es start_sector seq g pos small ranges seq_small _ limit _ uninit bounded
          stored room in
      let kept = (scanned es start_sector seq g pos small ranges seq_small).start_sector in
      (
        record (table es start_sector seq g pos small ranges seq_small) {
          start_sector = start_sector;
          payload_crc = checksum crc32_le (blocks_of es 0 zeroed) 0;
        },
        (table es start_sector seq g pos small ranges seq_small).payload_crc,
        disk',
        loaded,
        same,
        handed
            ∙ ap
                (λ s.
                  some (record (table_of layer crc32_le start_sector seq es) { start_sector = s }))
                kept,
        indexed es start_sector seq g pos small ranges seq_small _ _ stored,
      )
