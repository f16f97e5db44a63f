-- ===== src/Sstable/Emit.antt =====
-- src/lsm-sstable.c: where the payload blocks lie once `zns_sst_emit_payload` has written them.
use mathlib.Core.Path.{subst}
use dm_zns_base.Prelude.{
  ℕ, zero, suc, ◌+◌, ◌*◌, ◌<◌, ◌≡◌, refl, sym, ◌∙◌, ap, inl, inr, true, false, List, [], ◌∷◌, some,
  ◌==◌, if◌then◌else◌, length, get_elem?, u64_mod, arith, Bool-cases, lt_or_ge, add64, lt→ltb,
  ge→ltb, ne→==, eq→==,
}
use mathlib.Core.Option.{some-injective}
use dm_zns_base.Kernel.{Ret, ok, err, fault}
use dm_zns_base.Memtable.{Entry}
use dm_zns_base.Block.{Block, block_bytes, bytes, zeroed}
use dm_zns_base.Block.Io.{Layer, block_write, IsDevice}
use dm_zns_base.Sstable.Writer.{
  WriteCtx, consume_block, consume_written, emit_next, emit_loop, emit_full, put_entry,
}
use dm_zns_base.Sstable.Payload.{blocks_of}

-- The checksum of the bytes of the blocks, one block after the other.
abbrev pub checksum : (ℕ → List ℕ → ℕ) → List Block → ℕ → ℕ
checksum crc32_le [] crc = crc
checksum crc32_le (b ∷ bs) crc = checksum crc32_le bs (crc32_le crc (bytes b 0 block_bytes))

module _ {D : Type 0} (layer : Layer D) (crc32_le : ℕ → List ℕ → ℕ) where
  abbrev pub consume_next : (WriteCtx D → Ret × WriteCtx D) → Ret × WriteCtx D → Ret × WriteCtx D
  consume_next rest (ok, ctx) = rest ctx
  consume_next rest (err e, ctx) = (err e, ctx)
  consume_next rest (fault, ctx) = (fault, ctx)

  -- Blocks consumed one after the other, until one fails.
  unfoldable pub consume_all : List Block → WriteCtx D → Ret × WriteCtx D
  consume_all [] ctx = (ok, ctx)
  consume_all (b ∷ bs) ctx = consume_next (consume_all bs) (consume_block layer crc32_le ctx b)

  consume_next_ok : (r : Ret × WriteCtx D) → consume_next (λ ctx. (ok, ctx)) r ≡ r
  consume_next_ok (ok, ctx) = refl
  consume_next_ok (err e, ctx) = refl
  consume_next_ok (fault, ctx) = refl

  next_eq :
      (rest : ℕ → Block → WriteCtx D → Ret × WriteCtx D) (rest' : WriteCtx D → Ret × WriteCtx D)
      (r : Ret × WriteCtx D)
      → ((ctx : WriteCtx D) → rest 0 zeroed ctx ≡ rest' ctx)
      → emit_next layer crc32_le rest r ≡ consume_next rest' r
  next_eq rest rest' (ok, ctx) h = h ctx
  next_eq rest rest' (err e, ctx) h = refl
  next_eq rest rest' (fault, ctx) h = refl

  -- The loop consumes the assembled blocks.
  pub emit_loop_eq :
      (es : List Entry) (nr : ℕ) (block : Block) (ctx : WriteCtx D)
      → emit_loop layer crc32_le es nr block ctx ≡ consume_all (blocks_of es nr block) ctx
  unfolding emit_loop emit_full consume_all blocks_of
  emit_loop_eq [] nr block ctx = elim (Bool-cases (nr == 0)) [
    | inl e ↦ rw e refl
    | inr e ↦ rw e (sym (consume_next_ok (consume_block layer crc32_le ctx block)))
  ]
  emit_loop_eq (x ∷ es) nr block ctx = elim (lt_or_ge (nr + 1) 256) [
    | inl more ↦ rw (lt→ltb (nr + 1) 256 more) (emit_loop_eq es (nr + 1) (put_entry nr x block) ctx)
    | inr full ↦ rw (ge→ltb (nr + 1) 256 full) (
        next_eq (emit_loop layer crc32_le es) (consume_all (blocks_of es 0 zeroed))
          (consume_block layer crc32_le ctx (put_entry nr x block)) (emit_loop_eq es 0 zeroed))
  ]

  abbrev pub counted : WriteCtx D → Block → WriteCtx D
  counted ctx b = record ctx { crc = crc32_le ctx.crc (bytes b 0 block_bytes) }

  consume_block_count :
      (ctx : WriteCtx D) (b : Block)
      → ctx.write ≡ false
      → consume_block layer crc32_le ctx b ≡ (ok, counted ctx b)
  unfolding consume_block
  consume_block_count ctx b h =
      ap
        (λ w.
          if w
          then consume_written layer crc32_le (counted ctx b)
              (block_write layer ctx.disk ctx.sector b)
          else (ok, counted ctx b))
        h

  pub consume_block_write :
      (ctx : WriteCtx D) (b : Block)
      → ctx.write ≡ true
      → consume_block layer crc32_le ctx b
        ≡ consume_written layer crc32_le (counted ctx b) (block_write layer ctx.disk ctx.sector b)
  unfolding consume_block
  consume_block_write ctx b h =
      ap
        (λ w.
          if w
          then consume_written layer crc32_le (counted ctx b)
              (block_write layer ctx.disk ctx.sector b)
          else (ok, counted ctx b))
        h

  -- Counting gives the checksum, never fails and leaves the device alone.
  pub consume_all-count :
      (bs : List Block) (ctx : WriteCtx D)
      → ctx.write ≡ false
      → consume_all bs ctx ≡ (ok, record ctx { crc = checksum crc32_le bs ctx.crc })
  unfolding consume_all
  consume_all-count [] ctx h = refl
  consume_all-count (b ∷ bs) ctx h =
      ap (consume_next (consume_all bs)) (consume_block_count ctx b h)
      ∙ consume_all-count bs (counted ctx b) h

  module _ (content : D → ℕ → Block) (dev : IsDevice layer content) where
    -- The blocks lie one after the other from the sector of the context on, nothing before it has
    -- changed, and the sector has moved behind them.
    pub record Placed (bs : List Block) (ctx ctx' : WriteCtx D) : Type 0 where
      pub there :
          (i : ℕ) (b : Block) → get_elem? bs i ≡ some b → content ctx'.disk (ctx.sector + i * 8) ≡ b
      pub before : (s : ℕ) → s < ctx.sector → content ctx'.disk s ≡ content ctx.disk s
      pub moved : ctx'.sector ≡ ctx.sector + length bs * 8

    Placed-cons :
        (b : Block) (bs : List Block) (ctx next ctx' : WriteCtx D)
        → next.sector ≡ ctx.sector + 8
        → ((s : ℕ) → content next.disk s ≡ (if s == ctx.sector then b else content ctx.disk s))
        → Placed bs next ctx'
        → Placed (b ∷ bs) ctx ctx'
    Placed-cons b bs ctx next ctx' at put p = record {
      there = go;
      before = λ s l.
          p.before s (omega (arith, at, l))
          ∙ (put s
              ∙ ap (λ t. if t then b else content ctx.disk s)
                  (ne→== s ctx.sector (λ e. absurd (omega (arith, l, e)))));
      moved = p.moved ∙ omega (arith, at);
    }
      where
        go :
            (i : ℕ) (c : Block)
            → get_elem? (b ∷ bs) i ≡ some c
            → content ctx'.disk (ctx.sector + i * 8) ≡ c
        go zero c e =
            ap (content ctx'.disk) (omega arith)
            ∙ (p.before ctx.sector (omega (arith, at))
                ∙ (put ctx.sector
                    ∙ (ap (λ t. if t then b else content ctx.disk ctx.sector)
                          (eq→== ctx.sector ctx.sector refl)
                        ∙ some-injective _ _ e)))
        go (suc i) c e = ap (content ctx'.disk) (omega (arith, at)) ∙ p.there i c e

    abbrev PlacedIfOk : List Block → WriteCtx D → Ret × WriteCtx D → Type 0
    PlacedIfOk bs ctx r = r.0 ≡ ok → Placed bs ctx r.1

    after_block :
        (b : Block) (bs : List Block) (ctx : WriteCtx D) (w : Ret × Block × D)
        → ctx.sector + 8 < u64_mod
        → block_write layer ctx.disk ctx.sector b ≡ w
        → ((next : WriteCtx D)
            → next.write ≡ ctx.write
            → next.sector ≡ ctx.sector + 8
            → PlacedIfOk bs next (consume_all bs next))
        → PlacedIfOk
            (b ∷ bs)
            ctx
            (consume_next (consume_all bs) (consume_written layer crc32_le (counted ctx b) w))
    after_block b bs ctx (ok, out, disk) small e rest h =
        let at : add64 ctx.sector 8 ≡ ctx.sector + 8 = omega (arith, small) in
        let next = record (counted ctx b) { disk = disk; sector = add64 ctx.sector 8 } in
        Placed-cons b bs ctx next _ at (dev.writes ctx.disk disk ctx.sector b out e)
          (rest next refl at h)
    after_block b bs ctx (err x, out, disk) small e rest h = absurd (ground arith)
    after_block b bs ctx (fault, out, disk) small e rest h = absurd (ground arith)

    pub consume_all-Placed :
        (bs : List Block) (ctx : WriteCtx D)
        → ctx.write ≡ true
        → ctx.sector + length bs * 8 < u64_mod
        → PlacedIfOk bs ctx (consume_all bs ctx)
    unfolding consume_all
    consume_all-Placed [] ctx w small h = record {
      there = λ i b e. absurd (ground arith);
      before = λ s l. refl;
      moved = omega arith;
    }
    consume_all-Placed (b ∷ bs) ctx w small h =
        subst (λ r. PlacedIfOk (b ∷ bs) ctx (consume_next (consume_all bs) r))
          (sym (consume_block_write ctx b w))
          (after_block b bs ctx (block_write layer ctx.disk ctx.sector b) (omega (arith, small))
            refl (λ next same at. consume_all-Placed bs next (same ∙ w) (omega (arith, small, at))))
          h
