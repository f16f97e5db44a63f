-- ===== src/Sstable/Found.antt =====
-- src/lsm-sstable.c: a table that `zns_sst_write` has written, as `zns_sst_lookup` finds it.
use mathlib.Core.Path.{subst}
use dm_zns_base.Prelude.{
  ℕ, ◌+◌, ◌*◌, ◌/◌, ◌%◌, ◌≤◌, ◌<◌, ◌≡◌, ◌≢◌, refl, sym, ◌∙◌, ap, Bool, true, List, some, length,
  get_elem?, get_elem?-some, lt-length_of_get_elem?, u32_mod, u64_mod, arith,
}
use dm_zns_base.Kernel.{Errno, Ret, ok, err, Ptr}
use dm_zns_base.Memtable.{Entry, Memtable, Rbtree}
use dm_zns_base.Block.{Block, zeroed}
use dm_zns_base.Block.Io.{Layer, block_read, IsDevice}
use dm_zns_base.Sstable.{Sstable, entries_in_block, key_at}
use dm_zns_base.Sstable.Blocks.{entries_in_block_lem, entries_in_block-bounds}
use dm_zns_base.Sstable.Writer.{write_table, zeroed_sstable, start_table}
use dm_zns_base.Sstable.Reader.{lookup}
use dm_zns_base.Sstable.Blocksearch.{IsTable}
use dm_zns_base.Sstable.Lookup.{Looked, lookup-Looked}
use dm_zns_base.Sstable.Scan.{Growing, Scanned, scan_memtable-Scanned}
use dm_zns_base.Sstable.Payload.{InRange, Holds, blocks_of-At}
use dm_zns_base.Sstable.Written.{Stored, table_of, count-table_of, write_table-Stored}

-- The answer of a lookup, in terms of the entries written.
pub data FoundEntry (es : List Entry) (k cell : ℕ) : Ret × Ptr ℕ → Type 0 where
  hit :
      (j : ℕ) (e : Entry)
      → get_elem? es j ≡ some e
      → e.logical_block ≡ k
      → FoundEntry es k cell (ok, some e.physical_sector)
  miss :
      ((j : ℕ) (e : Entry) → get_elem? es j ≡ some e → e.logical_block ≢ k)
      → FoundEntry es k cell (err Errno.enodata, some cell)

-- Every entry of the list holds 64-bit numbers.
abbrev pub AllInRange : List Entry → Type 0
AllInRange es = (j : ℕ) (e : Entry) → get_elem? es j ≡ some e → InRange e

module _ {D : Type 0} (layer : Layer D) (crc32_le : ℕ → List ℕ → ℕ) (content : D → ℕ → Block)
    (dev : IsDevice layer content) (es : List Entry) (start_sector seq consumed : ℕ) (disk : D)
    (g : Growing es) (small : length es < u32_mod) (ranges : AllInRange es)
    (stored : Stored layer crc32_le content dev es
      (table_of layer crc32_le start_sector seq es)
      consumed
      disk) where
  abbrev sst : Sstable
  sst = table_of layer crc32_le start_sector seq es

  abbrev payload : ℕ → Block
  payload i = content disk (sst.start_sector + (i + 1) * 8)

  scanned :
      Scanned es
        (record zeroed_sstable { start_sector = start_sector; seq = seq })
        (start_table layer crc32_le start_sector seq es)
  scanned =
      scan_memtable-Scanned es (record zeroed_sstable { start_sector = start_sector; seq = seq }) g
        small

  few : sst.nr_entries < u32_mod
  few = omega (arith, scanned.count, small)

  -- Entry j of the list is on the device, in its block and slot.
  placed : (j : ℕ) (e : Entry) → get_elem? es j ≡ some e → Holds (payload (j / 256)) (j % 256) e
  placed j e at =
      let (b, inside, holds) = blocks_of-At es 0 j zeroed e (omega arith) at (ranges j e at) in
      let same : 0 + j ≡ j = omega arith in
      subst (λ q. Holds (payload (q / 256)) (q % 256) e) same
        (subst (λ c. Holds c ((0 + j) % 256) e) (sym (stored.payload ((0 + j) / 256) b inside))
          holds)

  -- The entry in each slot in use.
  slot :
      (i s : ℕ)
      → i + 1 < sst.nr_blocks
      → s < entries_in_block sst.nr_entries i
      → (e : Entry) × (get_elem? es (256 * i + s) ≡ some e) × Holds (payload i) s e
  slot i s h l =
      let inside = (entries_in_block_lem sst.nr_entries i s few).0 (h, l) in
      let (e, at) = get_elem?-some es (256 * i + s) (omega (arith, inside, scanned.count)) in
      let q : (256 * i + s) / 256 ≡ i = omega (arith, inside) in
      let r : (256 * i + s) % 256 ≡ s = omega (arith, inside) in
      (
        e,
        at,
        subst (λ q. Holds (payload q) s e) q
            (subst (λ r. Holds (payload ((256 * i + s) / 256)) r e) r (placed (256 * i + s) e at)),
      )

  -- Slots in use are in the order of the list.
  ordered :
      (i j s t : ℕ)
      → i + 1 < sst.nr_blocks
      → s < entries_in_block sst.nr_entries i
      → j + 1 < sst.nr_blocks
      → t < entries_in_block sst.nr_entries j
      → 256 * i + s < 256 * j + t
      → key_at (payload i) s < key_at (payload j) t
  ordered i j s t hi ls hj lt l =
      let (e, at, he) = slot i s hi ls in
      let (f, at', hf) = slot j t hj lt in
      omega (arith, g (256 * i + s) (256 * j + t) e f l at at', he.key, hf.key)

  bounded :
      (i s : ℕ)
      → i + 1 < sst.nr_blocks
      → s < entries_in_block sst.nr_entries i
      → (sst.min_key ≤ key_at (payload i) s) × (key_at (payload i) s ≤ sst.max_key)
  bounded i s h l =
      let (e, at, holds) = slot i s h l in
      (
        omega (arith, scanned.lower (256 * i + s) e at, holds.key),
        omega (arith, scanned.upper (256 * i + s) e at, holds.key),
      )

  -- A state of the device with the same contents.
  abbrev Has : D → Type 0
  Has d = (s : ℕ) → content d s ≡ content disk s

  served :
      (d : D) (i : ℕ) (uninit : Block)
      → Has d
      → i + 1 < sst.nr_blocks
      → (d' : D) × Has d'
        × (block_read layer d (sst.start_sector + (i + 1) * 8) uninit ≡ (ok, payload i, d'))
  served d i uninit has h =
      let (d', same, e) = dev.reads d (sst.start_sector + (i + 1) * 8) uninit in
      (d', (λ s. same s ∙ has s), e ∙ ap (λ b. (ok, b, d')) (has (sst.start_sector + (i + 1) * 8)))

  is_table : 0 < length es → IsTable layer Has payload sst
  is_table pos = record {
    some_entry = omega (arith, scanned.count, pos);
    small = few;
    blocks = refl;
    fits =
        omega (
          arith,
          stored.fits,
          count-table_of layer crc32_le content dev start_sector seq es g small,
        );
    served = served;
    sorted = λ i h s t l lt. ordered i i s t h (omega (arith, l, lt)) h lt (omega (arith, l));
    across = λ i j s l h ls.
        ordered i j s 0 (omega (arith, l, h)) ls h
          (entries_in_block-bounds sst.nr_entries j few h).0
          (omega
            (arith, l, ls, (entries_in_block-bounds sst.nr_entries i few (omega (arith, l, h))).1));
    bounds = bounded;
  }

  found-entry :
      (k cell : ℕ) (r : Ret × Ptr ℕ) → Looked payload sst k cell r → FoundEntry es k cell r
  found-entry k cell _ (Looked.hit i s h l e) =
      let (x, at, holds) = slot i s h l in
      subst (λ p. FoundEntry es k cell (ok, some p)) (sym holds.sector)
        (FoundEntry.hit (256 * i + s) x at (sym holds.key ∙ e))
  found-entry k cell _ (Looked.miss absent) = FoundEntry.miss (λ j e at same.
      let used =
        (entries_in_block_lem sst.nr_entries (j / 256) (j % 256) few).1
          (omega (arith, lt-length_of_get_elem? es j at, scanned.count), omega arith) in
      absent (j / 256) (j % 256) used.0 used.1 ((placed j e at).key ∙ same))

  pub lookup-FoundEntry :
      (k cell : ℕ) (uninit : Block)
      → 0 < length es
      → (ret : Ret) × (p : Ptr ℕ) × (disk' : D) × (lookup layer true uninit
            (some disk)
            (some sst)
            k
            (some cell)
          ≡ (ret, p, some disk'))
        × ((s : ℕ) → content disk' s ≡ content disk s)
        × FoundEntry es k cell (ret, p)
  lookup-FoundEntry k cell uninit pos =
      let (ret, p, disk', e, has, looked) =
        lookup-Looked layer Has payload sst (is_table pos) k cell uninit disk (λ s. refl) in
      (ret, p, disk', e, has, found-entry k cell (ret, p) looked)

module _ {D : Type 0} (layer : Layer D) (crc32_le : ℕ → List ℕ → ℕ) (content : D → ℕ → Block)
    (dev : IsDevice layer content) where
  -- On a device that keeps its blocks and answers every read, once a write of a memory table, with
  -- growing keys and at least one entry, reports success, the index it hands back finds every entry
  -- in the device it leaves: a lookup, with memory for a block, answers with the sector of the entry
  -- that has the key, and with -ENODATA and the cell left alone if the memory table has no such
  -- entry. (Conditions: a 32-bit number of entries, which hold 64-bit numbers, and a 64-bit end.)
  pub lookup-written :
      (rb : Rbtree) (granted granted_block : Bool) (disk : D) (m : Memtable)
      (start_sector end_sector seq k cell : ℕ) (uninit : Block)
      → Growing (rb.walk m.root)
      → 0 < length (rb.walk m.root)
      → length (rb.walk m.root) < u32_mod
      → AllInRange (rb.walk m.root)
      → end_sector < u64_mod
      → (write_table layer crc32_le rb granted granted_block disk m start_sector end_sector seq).0
        ≡ ok
      → (sst : Sstable) × (ret : Ret) × (p : Ptr ℕ) × (disk' : D) × ((write_table layer crc32_le rb
            granted granted_block disk m start_sector end_sector seq).1
          ≡ some sst)
        × (lookup layer true uninit
              (some
                (write_table layer crc32_le rb granted granted_block disk m start_sector end_sector
                  seq).3)
              (some sst)
              k
              (some cell)
            ≡ (ret, p, some disk'))
        × FoundEntry (rb.walk m.root) k cell (ret, p)
  lookup-written rb granted granted_block disk m start_sector end_sector seq k cell uninit g pos
        small ranges last success =
      let (sst, stored) =
        write_table-Stored layer crc32_le content dev rb granted granted_block disk m start_sector
          end_sector seq g small last success in
      let (ret, p, disk', e, _, found) =
        lookup-FoundEntry layer crc32_le content dev (rb.walk m.root) start_sector seq _ _ g small
          ranges stored k cell uninit pos in
      (table_of layer crc32_le start_sector seq (rb.walk m.root), ret, p, disk', sst, e, found)
