-- ===== src/Sstable/Lookup.antt =====
-- src/lsm-sstable.c: the search for a key through the blocks of a table on the device.
use mathlib.Core.Path.{subst}
use dm_zns_base.Prelude.{
  ℕ, zero, suc, ◌+◌, ◌-◌, ◌≤◌, ◌<◌, ◌≡◌, ◌≢◌, refl, sym, ap, ◌⊎◌, inl, inr, true, false, ◌||◌, some,
  ltb, arith, u32_mod, Bool-cases, ge→ltb, trichotomy,
}
use dm_zns_base.Kernel.{Errno, Ret, ok, err, Ptr}
use dm_zns_base.Block.{Block}
use dm_zns_base.Block.Io.{Layer}
use dm_zns_base.Sstable.{Sstable, entries_in_block, key_at, sector_at, to_cell}
use dm_zns_base.Sstable.Blocks.{nr_blocks-bounds}
use dm_zns_base.Sstable.Search.{Found, block_find-Found}
use dm_zns_base.Sstable.Reader.{
  Cache, search_loop, lookup_table, lookup, lookup_result, lookup_searched,
}
use dm_zns_base.Sstable.Blocksearch.{
  IsTable, Brackets, Ended, read_block, in_use, search_loop-Ended,
}

module _ (payload : ℕ → Block) (sst : Sstable) where
  -- The answer of a lookup in the whole table.
  pub data Looked (k cell : ℕ) : Ret × Ptr ℕ → Type 0 where
    hit :
        (i s : ℕ)
        → i + 1 < sst.nr_blocks
        → s < entries_in_block sst.nr_entries i
        → key_at (payload i) s ≡ k
        → Looked k cell (ok, some (sector_at (payload i) s))
    miss :
        ((i s : ℕ)
          → i + 1 < sst.nr_blocks
          → s < entries_in_block sst.nr_entries i
          → key_at (payload i) s ≢ k)
        → Looked k cell (err Errno.enodata, some cell)

module _ {D : Type 0} (layer : Layer D) (Has : D → Type 0) (payload : ℕ → Block) (sst : Sstable)
    (t : IsTable layer Has payload sst) where
  first-le :
      (i s : ℕ)
      → i + 1 < sst.nr_blocks
      → s < entries_in_block sst.nr_entries i
      → key_at (payload i) 0 ≤ key_at (payload i) s
  first-le i zero h l = omega arith
  first-le i (suc s) h l = omega (arith, t.sorted i h 0 (suc s) (omega arith) l)

  -- A key that is not in the one block that may hold it is nowhere.
  nowhere :
      (k low : ℕ)
      → Brackets payload sst k low low
      → ((s : ℕ) → s < entries_in_block sst.nr_entries low → key_at (payload low) s ≢ k)
      → (i s : ℕ) → i + 1 < sst.nr_blocks
      → s < entries_in_block sst.nr_entries i
      → low + 1 < sst.nr_blocks
      → key_at (payload i) s ≢ k
  nowhere k low (lo, hi) absent i s h l hl e = elim (trichotomy i low) [
    | inl before ↦ elim lo [
      | inl first ↦ absurd (omega (arith, before, first))
      | inr le ↦ absurd (omega (arith, t.across i low s before hl l, le, e))
    ]
    | inr (inl same) ↦
        absent s (subst (λ j. s < entries_in_block sst.nr_entries j) same l)
          (subst (λ j. key_at (payload j) s ≡ k) same e)
    | inr (inr later) ↦ absurd (omega (arith, hi i later h, first-le i s h l, e))
  ]

  Answered : ℕ → ℕ → Ret × Ptr ℕ × D → Type 0
  Answered k cell r =
      (ret : Ret) × (p : Ptr ℕ) × (disk : D) × (r ≡ (ret, p, disk))
      × Has disk
      × Looked payload sst k cell (ret, p)

  Looked-Found :
      (k cell low : ℕ) (r : Ret × ℕ)
      → low + 1 < sst.nr_blocks
      → Brackets payload sst k low low
      → Found (payload low) (entries_in_block sst.nr_entries low) k cell r
      → Looked payload sst k cell (to_cell r)
  Looked-Found k cell low _ h b (Found.hit s l e) = Looked.hit low s h l e
  Looked-Found k cell low _ h b (Found.miss absent) =
      Looked.miss λ i s hi hs. nowhere k low b absent i s hi hs h

  searched-Answered :
      (k cell : ℕ) (r : Ret × ℕ × Cache × D)
      → Ended layer Has payload sst t k r
      → Answered k cell (lookup_searched layer sst k cell r)
  unfolding Answered
  searched-Answered k cell r (low, c, disk, e, h, b, good, has) =
      let (c', disk', e', same, _, has') =
        read_block layer Has payload sst t low c disk h good has in
      let (found, e'', answer) =
        block_find-Found (payload low) (entries_in_block sst.nr_entries low) k cell (t.sorted low h)
          (in_use layer Has payload sst t low h).1 (in_use layer Has payload sst t low h).0 in
      rw (e, e', same, e'')
        (found.0, some found.1, disk', refl, has', Looked-Found k cell low found h b answer)

  outside :
      (k cell : ℕ)
      → (k < sst.min_key) ⊎ (sst.max_key < k)
      → Looked payload sst k cell (err Errno.enodata, some cell)
  outside k cell out = Looked.miss λ i s hi hs e. absurd (omega (arith, out, t.bounds i s hi hs, e))

  start-Ended :
      (k : ℕ) (uninit : Block) (disk : D)
      → Has disk
      → Ended layer Has payload sst t k (
          search_loop layer sst k
            (suc (sst.nr_blocks - 2))
            0
            (sst.nr_blocks - 2)
            (record { cached = u32_mod - 1; block = uninit })
            disk)
  start-Ended k uninit disk has =
      let b = nr_blocks-bounds sst.nr_entries t.small t.some_entry in
      search_loop-Ended layer Has payload sst t k (suc (sst.nr_blocks - 2)) 0 (sst.nr_blocks - 2)
        (record { cached = u32_mod - 1; block = uninit }) disk (omega arith) (omega arith)
        (omega (arith, b, t.blocks))
        (inl refl, λ i above inside. absurd (omega (arith, above, inside)))
        (λ i inside e. absurd (omega (arith, inside, e, b, t.blocks))) has

  inside_eq :
      (k cell : ℕ) (uninit : Block) (disk : D)
      → (ltb k sst.min_key || ltb sst.max_key k) ≡ false
      → lookup_table layer true uninit disk sst k cell
        ≡ lookup_searched layer sst k cell (
            search_loop layer sst k
              (suc (sst.nr_blocks - 2))
              0
              (sst.nr_blocks - 2)
              (record { cached = u32_mod - 1; block = uninit })
              disk)
  unfolding lookup_table
  inside_eq k cell uninit disk h =
      rw
        (
          ge→ltb sst.nr_blocks 2
              (omega (arith, t.blocks, nr_blocks-bounds sst.nr_entries t.small t.some_entry)),
          h,
        )
        refl

  outside_eq :
      (k cell : ℕ) (uninit : Block) (disk : D)
      → (ltb k sst.min_key || ltb sst.max_key k) ≡ true
      → lookup_table layer true uninit disk sst k cell ≡ (err Errno.enodata, some cell, disk)
  unfolding lookup_table
  outside_eq k cell uninit disk h =
      rw
        (
          ge→ltb sst.nr_blocks 2
              (omega (arith, t.blocks, nr_blocks-bounds sst.nr_entries t.small t.some_entry)),
          h,
        )
        refl

  table-Answered :
      (k cell : ℕ) (uninit : Block) (disk : D)
      → Has disk
      → Answered k cell (lookup_table layer true uninit disk sst k cell)
  unfolding Answered
  table-Answered k cell uninit disk has =
      elim (Bool-cases (ltb k sst.min_key || ltb sst.max_key k)) [
        | inl out ↦
            rw (outside_eq k cell uninit disk out)
              (err Errno.enodata, some cell, disk, refl, has, outside k cell (ground (arith, out)))
        | inr within ↦
            subst (λ r. Answered k cell r) (sym (inside_eq k cell uninit disk within))
              (searched-Answered k cell _ (start-Ended k uninit disk has))
      ]

  -- On a device that holds the payload of a table, with the keys in order, and with memory for a
  -- block, a lookup ends and answers with the sector of the entry that has the key, in whichever
  -- block it lies, or with -ENODATA and the cell left alone if no entry of the table has it. The
  -- device still holds the table.
  pub lookup-Looked :
      (k cell : ℕ) (uninit : Block) (disk : D)
      → Has disk
      → (ret : Ret) × (p : Ptr ℕ) × (disk' : D) × (lookup layer true uninit
            (some disk)
            (some sst)
            k
            (some cell)
          ≡ (ret, p, some disk'))
        × Has disk'
        × Looked payload sst k cell (ret, p)
  unfolding lookup Answered
  lookup-Looked k cell uninit disk has =
      let (ret, p, disk', e, has', answer) = table-Answered k cell uninit disk has in
      (ret, p, disk', ap (lookup_result layer) e, has', answer)
