-- ===== src/Sstable/Confined.antt =====
-- src/lsm-sstable.c: what `zns_sst_write` leaves alone, however it ends.
use mathlib.Core.Path.{subst}
use dm_zns_base.Prelude.{
  ℕ, ◌+◌, ◌-◌, ◌*◌, ◌≤◌, ◌<◌, ◌≡◌, ◌≢◌, refl, sym, ◌∙◌, ap, Bool, true, false, List, [], ◌∷◌, none,
  ◌==◌, ltb, leb, if◌then◌else◌, length, u32_mod, u64_mod, arith,
}
use dm_zns_base.Kernel.{Errno, Ret, ok, err, fault}
use dm_zns_base.Memtable.{Entry, Memtable, Rbtree}
use dm_zns_base.Block.{Block, zeroed}
use dm_zns_base.Block.Io.{Layer, block_write, IsDevice}
use dm_zns_base.Sstable.{Sstable, encode_header}
use dm_zns_base.Sstable.Writer.{
  WriteCtx, Result, emit_payload, write_done, write_payload, write_header, write_table,
  zeroed_sstable, consume_written,
}
use dm_zns_base.Sstable.Scan.{Growing, scan_memtable-Scanned}
use dm_zns_base.Sstable.Payload.{blocks_of}
use dm_zns_base.Sstable.Emit.{
  checksum, consume_next, consume_all, consume_all-count, consume_block_write, counted,
  emit_loop_eq,
}
use dm_zns_base.Sstable.Written.{pass, table_of, count-table_of}

-- A write changes at most the sector that it is for, whether it succeeds or not.
abbrev pub IsConfined : {D : Type 0} → Layer D → (D → ℕ → Block) → Type 0
IsConfined {D} layer content =
    (disk : D) (sector : ℕ) (b : Block) (s : ℕ)
    → s ≢ sector
    → content (block_write layer disk sector b).2 s ≡ content disk s

module _ {D : Type 0} (layer : Layer D) (crc32_le : ℕ → List ℕ → ℕ) (content : D → ℕ → Block)
    (confined : IsConfined layer content) where
  -- Nothing below sector `bound` differs.
  abbrev pub SameBelow : ℕ → D → D → Type 0
  SameBelow bound disk disk' = (s : ℕ) → s < bound → content disk' s ≡ content disk s

  after_write :
      (b : Block) (bs : List Block) (ctx : WriteCtx D) (w : Ret × Block × D) (bound : ℕ)
      → bound ≤ ctx.sector
      → ctx.sector + 8 < u64_mod
      → block_write layer ctx.disk ctx.sector b ≡ w
      → ((next : WriteCtx D)
          → next.write ≡ ctx.write
          → next.sector ≡ ctx.sector + 8
          → SameBelow bound next.disk (consume_all layer crc32_le bs next).1.disk)
      → SameBelow bound ctx.disk
          (consume_next layer crc32_le
            (consume_all layer crc32_le bs)
            (consume_written layer crc32_le (counted layer crc32_le ctx b) w)).1.disk
  after_write b bs ctx (r, out, disk) bound l small e rest = cases r e
    where
      here :
          (r : Ret)
          → block_write layer ctx.disk ctx.sector b ≡ (r, out, disk)
          → SameBelow bound ctx.disk disk
      here r e s lt =
          ap (λ (w : Ret × Block × D). content w.2 s) (sym e)
          ∙ confined ctx.disk ctx.sector b s (λ same. absurd (omega (arith, same, lt, l)))

      cases :
          (r : Ret)
          → block_write layer ctx.disk ctx.sector b ≡ (r, out, disk)
          → SameBelow bound ctx.disk
              (consume_next layer crc32_le (consume_all layer crc32_le bs) (
                consume_written layer crc32_le
                  (counted layer crc32_le ctx b)
                  (r, out, disk))).1.disk
      cases ok e = λ s lt. rest _ refl (omega (arith, small)) s lt ∙ here ok e s lt
      cases (err x) e = here (err x) e
      cases fault e = here fault e

  consume_all-SameBelow :
      (bs : List Block) (ctx : WriteCtx D) (bound : ℕ)
      → ctx.write ≡ true
      → bound ≤ ctx.sector
      → ctx.sector + length bs * 8 < u64_mod
      → SameBelow bound ctx.disk (consume_all layer crc32_le bs ctx).1.disk
  unfolding consume_all
  consume_all-SameBelow [] ctx bound w l small = λ s lt. refl
  consume_all-SameBelow (b ∷ bs) ctx bound w l small =
      subst
        (λ r.
          SameBelow bound ctx.disk
            (consume_next layer crc32_le (consume_all layer crc32_le bs) r).1.disk)
        (sym (consume_block_write layer crc32_le ctx b w))
        (after_write b bs ctx (block_write layer ctx.disk ctx.sector b) bound l
          (omega (arith, small)) refl
          (λ next same at.
            consume_all-SameBelow bs next bound (same ∙ w) (omega (arith, at, l))
              (omega (arith, small, at))))

  -- A result of a write that started at sector `start` of `disk`.
  abbrev Leaves : ℕ → D → Result layer crc32_le → Type 0
  Leaves start disk r = SameBelow start disk r.3

  done-Leaves :
      (sst : Sstable) (disk : D) (r : Ret × WriteCtx D)
      → SameBelow sst.start_sector disk r.1.disk
      → Leaves sst.start_sector disk (write_done layer crc32_le sst r)
  done-Leaves sst disk (ok, ctx) h = h
  done-Leaves sst disk (err e, ctx) h = h
  done-Leaves sst disk (fault, ctx) h = h

  module _ (es : List Entry) (sst : Sstable)
      (small : sst.start_sector + (length (blocks_of es 0 zeroed) + 1) * 8 < u64_mod) where
    payload-Leaves :
        (disk : D) (w : Ret × Block × D)
        → SameBelow sst.start_sector disk w.2
        → Leaves sst.start_sector disk (write_payload layer crc32_le sst es w)
    unfolding emit_payload
    payload-Leaves disk (ok, out, disk') same =
        done-Leaves sst disk (emit_payload layer crc32_le es (pass sst true disk')) (
          subst (λ r. SameBelow sst.start_sector disk r.1.disk)
            (sym (emit_loop_eq layer crc32_le es 0 zeroed (pass sst true disk')))
            (λ s lt.
              consume_all-SameBelow (blocks_of es 0 zeroed) (pass sst true disk') sst.start_sector
                refl (omega (arith, small)) (omega (arith, small)) s lt
              ∙ same s lt))
    payload-Leaves disk (err x, out, disk') same = same
    payload-Leaves disk (fault, out, disk') same = same

    header-Leaves :
        (disk : D)
        → Leaves sst.start_sector disk (
            write_header layer crc32_le sst es
              (emit_payload layer crc32_le es (pass sst false disk)))
    unfolding emit_payload
    header-Leaves disk =
        let crc = checksum crc32_le (blocks_of es 0 zeroed) 0 in
        let e =
          consume_all-count layer crc32_le (blocks_of es 0 zeroed) (pass sst false disk) refl in
        subst (λ r. Leaves sst.start_sector disk (write_header layer crc32_le sst es r))
          (sym (emit_loop_eq layer crc32_le es 0 zeroed (pass sst false disk) ∙ e))
          (payload-Leaves disk (block_write layer disk sst.start_sector (encode_header sst crc))
            (λ s lt.
              confined disk sst.start_sector (encode_header sst crc) s
                (λ same. absurd (omega (arith, same, lt)))))

  if-Leaves :
      (start : ℕ) (disk : D) (b : Bool) (e : Errno) (r : Result layer crc32_le)
      → (b ≡ false → Leaves start disk r)
      → Leaves start disk (if b then (err e, none, 0, disk) else r)
  if-Leaves start disk true e r h = λ s lt. refl
  if-Leaves start disk false e r h = h refl

  else-Leaves :
      (start : ℕ) (disk : D) (b : Bool) (e : Errno) (r : Result layer crc32_le)
      → Leaves start disk r
      → Leaves start disk (if b then r else (err e, none, 0, disk))
  else-Leaves start disk true e r h = h
  else-Leaves start disk false e r h = λ s lt. refl

  -- However a write of a memory table ends, no sector of the device below the one it starts at has
  -- changed. (Conditions: growing keys, a 32-bit number of entries, a 64-bit end.)
  pub write_table-SameBelow :
      (dev : IsDevice layer content) (rb : Rbtree) (granted granted_block : Bool) (disk : D)
      (m : Memtable) (start_sector end_sector seq : ℕ)
      → Growing (rb.walk m.root)
      → length (rb.walk m.root) < u32_mod
      → end_sector < u64_mod
      → SameBelow start_sector disk
          (write_table layer crc32_le rb granted granted_block disk m start_sector end_sector seq).3
  unfolding write_table
  write_table-SameBelow dev rb granted granted_block disk m start_sector end_sector seq g small
        last =
      let es = rb.walk m.root in
      let sst = table_of layer crc32_le start_sector seq es in
      let from = record zeroed_sstable { start_sector = start_sector; seq = seq } in
      let start = (scan_memtable-Scanned es from g small).start_sector in
      let count = count-table_of layer crc32_le content dev start_sector seq es g small in
      if-Leaves start_sector disk (leb end_sector start_sector) Errno.enospc _ (λ below.
        else-Leaves start_sector disk granted Errno.enomem _ (
          if-Leaves start_sector disk (sst.nr_entries == 0) Errno.enodata _ (λ _.
            if-Leaves start_sector disk (ltb (end_sector - sst.start_sector) (sst.nr_blocks * 8))
              Errno.enospc _
              (λ room. else-Leaves start_sector disk granted_block Errno.enomem _ (
                subst
                  (λ k. Leaves k disk (
                    write_header layer crc32_le sst es
                      (emit_payload layer crc32_le es (pass sst false disk))))
                  start
                  (header-Leaves es sst (ground (arith, room, count, start, last, below)) disk))))))
