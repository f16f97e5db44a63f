-- ===== src/Sstable/Outcome.antt =====
-- src/lsm-sstable.c: how `zns_sst_write` ends, on a block layer that answers every write and never with
-- -ENODATA, which the code keeps for a memory table without entries.
use mathlib.Core.Path.{subst}
use dm_zns_base.Prelude.{
  ℕ, ◌-◌, ◌*◌, ◌<◌, ◌≡◌, ◌≢◌, refl, sym, ◌∙◌, Bool, true, false, List, [], ◌∷◌, none, ◌==◌, ltb,
  leb, if◌then◌else◌, length, u32_mod, arith,
}
use dm_zns_base.Kernel.{Errno, Ret, ok, err, fault}
use dm_zns_base.Memtable.{Entry, Memtable, Rbtree}
use dm_zns_base.Block.{Block, zeroed}
use dm_zns_base.Block.Io.{Layer, block_write}
use dm_zns_base.Sstable.{Sstable, encode_header}
use dm_zns_base.Sstable.Writer.{
  WriteCtx, Result, emit_payload, write_done, write_payload, write_header, write_table,
  zeroed_sstable, consume_written,
}
use dm_zns_base.Sstable.Scan.{Growing, scan_memtable-Scanned}
use dm_zns_base.Sstable.Payload.{blocks_of}
use dm_zns_base.Sstable.Emit.{
  checksum, consume_next, consume_all, consume_all-count, consume_block_write, counted,
  emit_loop_eq,
}
use dm_zns_base.Sstable.Written.{pass, table_of}

-- An answer, and not -ENODATA.
abbrev pub IsPlain : Ret → Type 0
IsPlain r = (r ≢ fault) × (r ≢ err Errno.enodata)

abbrev pub IsPlainLayer : {D : Type 0} → Layer D → Type 0
IsPlainLayer {D} layer =
    (disk : D) (sector : ℕ) (b : Block) → IsPlain (block_write layer disk sector b).0

ok-IsPlain : IsPlain ok
ok-IsPlain = ((λ e. absurd (ground arith)), λ e. absurd (ground arith))

enospc-IsPlain : IsPlain (err Errno.enospc)
enospc-IsPlain = ((λ e. absurd (ground arith)), λ e. absurd (ground arith))

enomem-IsPlain : IsPlain (err Errno.enomem)
enomem-IsPlain = ((λ e. absurd (ground arith)), λ e. absurd (ground arith))

if-IsPlain :
    {D : Type 0} (layer : Layer D) (crc32_le : ℕ → List ℕ → ℕ) (b : Bool)
    (x y : Result layer crc32_le)
    → IsPlain x.0
    → IsPlain y.0
    → IsPlain (if b then x else y).0
if-IsPlain layer crc32_le true x y p q = p
if-IsPlain layer crc32_le false x y p q = q

module _ {D : Type 0} (layer : Layer D) (crc32_le : ℕ → List ℕ → ℕ)
    (plain : IsPlainLayer layer) where
  block-IsPlain :
      (b : Block) (bs : List Block) (ctx : WriteCtx D) (w : Ret × Block × D)
      → IsPlain w.0
      → ((next : WriteCtx D)
          → next.write ≡ ctx.write
          → IsPlain (consume_all layer crc32_le bs next).0)
      → IsPlain
          (consume_next layer crc32_le
            (consume_all layer crc32_le bs)
            (consume_written layer crc32_le (counted layer crc32_le ctx b) w)).0
  block-IsPlain b bs ctx (ok, out, disk) p rest = rest _ refl
  block-IsPlain b bs ctx (err e, out, disk) p rest = p
  block-IsPlain b bs ctx (fault, out, disk) p rest = p

  consume_all-IsPlain :
      (bs : List Block) (ctx : WriteCtx D)
      → ctx.write ≡ true
      → IsPlain (consume_all layer crc32_le bs ctx).0
  unfolding consume_all
  consume_all-IsPlain [] ctx w = ok-IsPlain
  consume_all-IsPlain (b ∷ bs) ctx w =
      subst (λ r. IsPlain (consume_next layer crc32_le (consume_all layer crc32_le bs) r).0)
        (sym (consume_block_write layer crc32_le ctx b w))
        (block-IsPlain b bs ctx (block_write layer ctx.disk ctx.sector b)
          (plain ctx.disk ctx.sector b) (λ next same. consume_all-IsPlain bs next (same ∙ w)))

  done-IsPlain :
      (sst : Sstable) (r : Ret × WriteCtx D)
      → IsPlain r.0
      → IsPlain (write_done layer crc32_le sst r).0
  done-IsPlain sst (ok, ctx) p = p
  done-IsPlain sst (err e, ctx) p = p
  done-IsPlain sst (fault, ctx) p = p

  payload-IsPlain :
      (es : List Entry) (sst : Sstable) (w : Ret × Block × D)
      → IsPlain w.0
      → IsPlain (write_payload layer crc32_le sst es w).0
  unfolding emit_payload
  payload-IsPlain es sst (ok, out, disk) p =
      done-IsPlain sst (emit_payload layer crc32_le es (pass sst true disk)) (
        subst (λ (r : Ret × WriteCtx D). IsPlain r.0)
          (sym (emit_loop_eq layer crc32_le es 0 zeroed (pass sst true disk)))
          (consume_all-IsPlain (blocks_of es 0 zeroed) (pass sst true disk) refl))
  payload-IsPlain es sst (err e, out, disk) p = p
  payload-IsPlain es sst (fault, out, disk) p = p

  header-IsPlain :
      (es : List Entry) (sst : Sstable) (disk : D)
      → IsPlain
          (write_header layer crc32_le sst es
            (emit_payload layer crc32_le es (pass sst false disk))).0
  unfolding emit_payload
  header-IsPlain es sst disk =
      let crc = checksum crc32_le (blocks_of es 0 zeroed) 0 in
      let e = consume_all-count layer crc32_le (blocks_of es 0 zeroed) (pass sst false disk) refl in
      subst (λ r. IsPlain (write_header layer crc32_le sst es r).0)
        (sym (emit_loop_eq layer crc32_le es 0 zeroed (pass sst false disk) ∙ e))
        (payload-IsPlain es sst (block_write layer disk sst.start_sector (encode_header sst crc))
          (plain disk sst.start_sector (encode_header sst crc)))

  -- The write of a memory table with an entry never ends with -ENODATA, and always ends.
  pub write_table-IsPlain :
      (rb : Rbtree) (granted granted_block : Bool) (disk : D) (m : Memtable)
      (start_sector end_sector seq : ℕ)
      → Growing (rb.walk m.root)
      → 0 < length (rb.walk m.root)
      → length (rb.walk m.root) < u32_mod
      → IsPlain
          (write_table layer crc32_le rb granted granted_block disk m start_sector end_sector seq).0
  unfolding write_table
  write_table-IsPlain rb granted granted_block disk m start_sector end_sector seq g pos small =
      let es = rb.walk m.root in
      let sst = table_of layer crc32_le start_sector seq es in
      let from = record zeroed_sstable { start_sector = start_sector; seq = seq } in
      let some_entry : (sst.nr_entries == 0) ≡ false =
        ground (arith, (scan_memtable-Scanned es from g small).count, pos) in
      if-IsPlain layer crc32_le (leb end_sector start_sector) _ _ enospc-IsPlain (
        if-IsPlain layer crc32_le granted _ _
          (rw some_entry (
            if-IsPlain layer crc32_le (ltb (end_sector - sst.start_sector) (sst.nr_blocks * 8)) _ _
              enospc-IsPlain
              (if-IsPlain layer crc32_le granted_block _ _ (header-IsPlain es sst disk)
                enomem-IsPlain)))
          enomem-IsPlain)

  abbrev pub Refused : D → Result layer crc32_le → Type 0
  Refused disk r = (e : Errno) × (r ≡ (err e, none, 0, disk))

  refused :
      (full granted : Bool) (disk : D)
      → Refused disk (
          if full
          then (err Errno.enospc, none, 0, disk)
          else if granted
          then (err Errno.enodata, none, 0, disk)
          else (err Errno.enomem, none, 0, disk))
  refused true granted disk = (Errno.enospc, refl)
  refused false true disk = (Errno.enodata, refl)
  refused false false disk = (Errno.enomem, refl)

  -- The write of a memory table without entries never succeeds, and writes nothing.
  pub write_table-empty :
      (rb : Rbtree) (granted granted_block : Bool) (disk : D) (m : Memtable)
      (start_sector end_sector seq : ℕ)
      → rb.walk m.root ≡ []
      → Refused disk
          (write_table layer crc32_le rb granted granted_block disk m start_sector end_sector seq)
  unfolding write_table
  write_table-empty rb granted granted_block disk m start_sector end_sector seq none_left =
      rw none_left (refused (leb end_sector start_sector) granted disk)
