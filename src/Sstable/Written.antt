-- ===== src/Sstable/Written.antt =====
-- src/lsm-sstable.c: what a successful `zns_sst_write` leaves on the device.
use mathlib.Core.Path.{subst}
use dm_zns_base.Prelude.{
  ℕ, ◌+◌, ◌-◌, ◌*◌, ◌≤◌, ◌<◌, ◌≡◌, refl, sym, ◌∙◌, ap, inl, inr, Bool, true, false, List, none,
  some, ◌==◌, ltb, leb, if◌then◌else◌, length, get_elem?, u32_mod, u64_mod, arith, add64,
  Bool-cases, eq→==,
}
use dm_zns_base.Kernel.{Errno, Ret, ok, err, fault}
use dm_zns_base.Memtable.{Entry, Memtable, Rbtree}
use dm_zns_base.Block.{Block, zeroed}
use dm_zns_base.Block.Io.{Layer, block_write, IsDevice}
use dm_zns_base.Sstable.{Sstable, nr_blocks, encode_header}
use dm_zns_base.Sstable.Writer.{
  WriteCtx, Result, emit_payload, write_done, write_payload, write_header, write_scanned,
  start_table, write_table, zeroed_sstable,
}
use dm_zns_base.Sstable.Scan.{Growing, scan_memtable-Scanned}
use dm_zns_base.Sstable.Payload.{blocks_of, length-blocks_of}
use dm_zns_base.Sstable.Emit.{checksum, consume_all-count, consume_all-Placed, emit_loop_eq, Placed}

-- The context of each pass over the memory table.
abbrev pub pass : {D : Type 0} → Sstable → Bool → D → WriteCtx D
pass sst write disk = record {
  disk = disk;
  sector = add64 sst.start_sector 8;
  crc = 0;
  write = write;
}

module _ {D : Type 0} (layer : Layer D) (crc32_le : ℕ → List ℕ → ℕ) (content : D → ℕ → Block)
    (dev : IsDevice layer content) where
  -- The table is on the device: its header, its payload, and as many sectors as its blocks have.
  pub record Stored (es : List Entry) (sst : Sstable) (consumed : ℕ) (disk : D) : Type 0 where
    pub header :
        content disk sst.start_sector
        ≡ encode_header sst (checksum crc32_le (blocks_of es 0 zeroed) 0)
    pub payload :
        (i : ℕ) (b : Block)
        → get_elem? (blocks_of es 0 zeroed) i ≡ some b
        → content disk (sst.start_sector + (i + 1) * 8) ≡ b
    pub used : consumed ≡ (length (blocks_of es 0 zeroed) + 1) * 8
    pub fits : sst.start_sector + (length (blocks_of es 0 zeroed) + 1) * 8 < u64_mod

  -- A result that reports success is the table, on the device.
  abbrev pub StoredIfOk : List Entry → Sstable → Result layer crc32_le → Type 0
  StoredIfOk es sst r = r.0 ≡ ok → (r.1 ≡ some sst) × Stored es sst r.2 r.3

  module _ (es : List Entry) (sst : Sstable)
      (small : sst.start_sector + (length (blocks_of es 0 zeroed) + 1) * 8 < u64_mod) where
    pass-sector : (disk : D) → (pass sst true disk).sector ≡ sst.start_sector + 8
    pass-sector disk = omega (arith, small)

    payload-Placed :
        (disk : D)
        → (emit_payload layer crc32_le es (pass sst true disk)).0 ≡ ok
        → Placed layer crc32_le content dev
            (blocks_of es 0 zeroed)
            (pass sst true disk)
            (emit_payload layer crc32_le es (pass sst true disk)).1
    unfolding emit_payload
    payload-Placed disk =
        subst
          (λ r.
            r.0 ≡ ok
            → Placed layer crc32_le content dev (blocks_of es 0 zeroed) (pass sst true disk) r.1)
          (sym (emit_loop_eq layer crc32_le es 0 zeroed (pass sst true disk)))
          (consume_all-Placed layer crc32_le content dev (blocks_of es 0 zeroed)
            (pass sst true disk) refl (omega (arith, small, pass-sector disk)))

    done-Stored :
        (disk : D) (r : Ret × WriteCtx D)
        → content disk sst.start_sector
          ≡ encode_header sst (checksum crc32_le (blocks_of es 0 zeroed) 0)
        → (r.0 ≡ ok
            → Placed layer crc32_le content dev (blocks_of es 0 zeroed) (pass sst true disk) r.1)
        → StoredIfOk es sst (write_done layer crc32_le sst r)
    done-Stored disk (ok, ctx) head placed h =
        let p = placed refl in
        let at = pass-sector disk in
        (
          refl,
          record {
            header = p.before sst.start_sector (omega (arith, at)) ∙ head;
            payload = λ i b e. ap (content ctx.disk) (omega (arith, at)) ∙ p.there i b e;
            used = omega (arith, p.moved, at, small);
            fits = small;
          },
        )
    done-Stored disk (err e, ctx) head placed h = absurd (ground arith)
    done-Stored disk (fault, ctx) head placed h = absurd (ground arith)

    payload-Stored :
        (disk : D) (w : Ret × Block × D)
        → block_write layer disk sst.start_sector
            (encode_header sst (checksum crc32_le (blocks_of es 0 zeroed) 0))
          ≡ w
        → StoredIfOk es sst (write_payload layer crc32_le sst es w)
    payload-Stored disk (ok, out, disk') e =
        let crc = checksum crc32_le (blocks_of es 0 zeroed) 0 in
        done-Stored disk' (emit_payload layer crc32_le es (pass sst true disk'))
          (dev.writes disk disk' sst.start_sector (encode_header sst crc) out e sst.start_sector
            ∙ ap (λ t. if t then encode_header sst crc else content disk sst.start_sector)
                (eq→== sst.start_sector sst.start_sector refl))
          (payload-Placed disk')
    payload-Stored disk (err x, out, disk') e = λ h. absurd (ground arith)
    payload-Stored disk (fault, out, disk') e = λ h. absurd (ground arith)

    header-Stored :
        (disk : D)
        → StoredIfOk es sst (
            write_header layer crc32_le sst es
              (emit_payload layer crc32_le es (pass sst false disk)))
    unfolding emit_payload
    header-Stored disk =
        let crc = checksum crc32_le (blocks_of es 0 zeroed) 0 in
        let e =
          consume_all-count layer crc32_le (blocks_of es 0 zeroed) (pass sst false disk) refl in
        subst (λ r. StoredIfOk es sst (write_header layer crc32_le sst es r))
          (sym (emit_loop_eq layer crc32_le es 0 zeroed (pass sst false disk) ∙ e))
          (payload-Stored disk (block_write layer disk sst.start_sector (encode_header sst crc))
            refl)

-- The index that `zns_sst_write` builds for a list of entries.
abbrev pub table_of : {D : Type 0} → Layer D → (ℕ → List ℕ → ℕ) → ℕ → ℕ → List Entry → Sstable
table_of layer crc32_le start_sector seq es =
    let sst = start_table layer crc32_le start_sector seq es in
    record sst { nr_blocks = nr_blocks sst.nr_entries }

module _ {D : Type 0} (layer : Layer D) (crc32_le : ℕ → List ℕ → ℕ) (content : D → ℕ → Block)
    (dev : IsDevice layer content) where
  scanned-Stored :
      (es : List Entry) (sst : Sstable) (granted : Bool) (disk : D) (end_sector : ℕ)
      → end_sector < u64_mod
      → sst.start_sector ≤ end_sector
      → sst.nr_blocks ≡ length (blocks_of es 0 zeroed) + 1
      → StoredIfOk layer crc32_le content dev es sst
          (write_scanned layer crc32_le granted disk sst es end_sector)
  scanned-Stored es sst granted disk end_sector small l count =
      elim (Bool-cases (ltb (end_sector - sst.start_sector) (sst.nr_blocks * 8))) [
        | inl full ↦ rw full (λ h. absurd (ground arith))
        | inr room ↦ rw room (granted_block granted (ground (arith, room, count, small, l)))
      ]
    where
      granted_block :
          (granted : Bool)
          → sst.start_sector + (length (blocks_of es 0 zeroed) + 1) * 8 < u64_mod
          → StoredIfOk layer crc32_le content dev es sst (
              if granted
              then write_header layer crc32_le sst es
                  (emit_payload layer crc32_le es (pass sst false disk))
              else (err Errno.enomem, none, 0, disk))
      granted_block true fits = header-Stored layer crc32_le content dev es sst fits disk
      granted_block false fits = λ h. absurd (ground arith)

  pub count-table_of :
      (start_sector seq : ℕ) (es : List Entry)
      → Growing es
      → length es < u32_mod
      → (table_of layer crc32_le start_sector seq es).nr_blocks ≡ length (blocks_of es 0 zeroed) + 1
  unfolding nr_blocks
  count-table_of start_sector seq es g small =
      let from = record zeroed_sstable { start_sector = start_sector; seq = seq } in
      let n = (scan_memtable-Scanned es from g small).count in
      omega (arith, n, small, length-blocks_of es 0 zeroed (omega arith))

  -- A test that refuses, before or after the rest.
  if-StoredIfOk :
      (es : List Entry) (sst : Sstable) (b : Bool) (e : Errno) (disk : D)
      (r : Result layer crc32_le)
      → (b ≡ false → StoredIfOk layer crc32_le content dev es sst r)
      → StoredIfOk layer crc32_le content dev es sst (if b then (err e, none, 0, disk) else r)
  if-StoredIfOk es sst true e disk r h = λ k. absurd (ground arith)
  if-StoredIfOk es sst false e disk r h = h refl

  else-StoredIfOk :
      (es : List Entry) (sst : Sstable) (b : Bool) (e : Errno) (disk : D)
      (r : Result layer crc32_le)
      → StoredIfOk layer crc32_le content dev es sst r
      → StoredIfOk layer crc32_le content dev es sst (if b then r else (err e, none, 0, disk))
  else-StoredIfOk es sst false e disk r h = λ k. absurd (ground arith)
  else-StoredIfOk es sst true e disk r h = h

  table-StoredIfOk :
      (rb : Rbtree) (granted granted_block : Bool) (disk : D) (m : Memtable)
      (start_sector end_sector seq : ℕ)
      → Growing (rb.walk m.root)
      → length (rb.walk m.root) < u32_mod
      → end_sector < u64_mod
      → StoredIfOk layer crc32_le content dev
          (rb.walk m.root)
          (table_of layer crc32_le start_sector seq (rb.walk m.root))
          (write_table layer crc32_le rb granted granted_block disk m start_sector end_sector seq)
  unfolding write_table
  table-StoredIfOk rb granted granted_block disk m start_sector end_sector seq g small last =
      let es = rb.walk m.root in
      let sst = table_of layer crc32_le start_sector seq es in
      let from = record zeroed_sstable { start_sector = start_sector; seq = seq } in
      let start = (scan_memtable-Scanned es from g small).start_sector in
      if-StoredIfOk es sst (leb end_sector start_sector) Errno.enospc disk _ (λ below.
        else-StoredIfOk es sst granted Errno.enomem disk _ (
          if-StoredIfOk es sst (sst.nr_entries == 0) Errno.enodata disk _ (λ _.
            scanned-Stored es sst granted_block disk end_sector last (ground (arith, start, below))
              (count-table_of start_sector seq es g small))))

  -- A write of a memory table whose keys grow that reports success hands back the index of its
  -- entries, and the device has its header, its payload blocks one after the other and nothing else
  -- of it: the sectors consumed are those of its blocks. (Conditions: a 32-bit number of entries, a
  -- 64-bit end.)
  pub write_table-Stored :
      (rb : Rbtree) (granted granted_block : Bool) (disk : D) (m : Memtable)
      (start_sector end_sector seq : ℕ)
      → Growing (rb.walk m.root)
      → length (rb.walk m.root) < u32_mod
      → end_sector < u64_mod
      → (write_table layer crc32_le rb granted granted_block disk m start_sector end_sector seq).0
        ≡ ok
      → ((write_table layer crc32_le rb granted granted_block disk m start_sector end_sector seq).1
          ≡ some (table_of layer crc32_le start_sector seq (rb.walk m.root)))
        × Stored layer crc32_le content dev
            (rb.walk m.root)
            (table_of layer crc32_le start_sector seq (rb.walk m.root))
            (write_table layer crc32_le rb granted granted_block disk m start_sector end_sector
              seq).2
            (write_table layer crc32_le rb granted granted_block disk m start_sector end_sector
              seq).3
  write_table-Stored = table-StoredIfOk
