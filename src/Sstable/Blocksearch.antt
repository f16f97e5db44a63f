-- ===== src/Sstable/Blocksearch.antt =====
-- src/lsm-sstable.c: the search for the block of a table on the device that may hold a key.
use mathlib.Core.Path.{subst}
use dm_zns_base.Prelude.{
  ℕ, zero, suc, ◌+◌, ◌*◌, ◌-◌, ◌≤◌, ◌<◌, ◌≡◌, refl, ap, ◌⊎◌, inl, inr, ◌==◌, leb, if◌then◌else◌,
  arith, u32_mod, u64_mod, add64, Bool-cases, lt→ltb, ge→ltb, lt_or_ge, ◌%◌, leb→le,
}
use dm_zns_base.Kernel.{Ret, ok}
use dm_zns_base.Block.{Block}
use dm_zns_base.Block.Io.{Layer, block_read}
use dm_zns_base.Sstable.{Sstable, nr_blocks, entries_in_block, key_at, block_first_key}
use dm_zns_base.Sstable.Blocks.{entries_in_block-bounds, nr_blocks-bounds}
use dm_zns_base.Sstable.Search.{Sorted}
use dm_zns_base.Sstable.Reader.{
  Cache, read_payload_block, payload_read, search_loop, search_step, upper_mid,
}

-- A device whose states with `Has` hold the payload blocks of a table: a read of the block returns
-- it, and leaves such a state. The keys grow through the table, from `min_key` to `max_key`.
pub record IsTable {D : Type 0} (layer : Layer D) (Has : D → Type 0) (payload : ℕ → Block)
    (sst : Sstable) : Type 0 where
  pub some_entry : 0 < sst.nr_entries
  pub small : sst.nr_entries < u32_mod
  pub blocks : sst.nr_blocks ≡ nr_blocks sst.nr_entries
  pub fits : sst.start_sector + sst.nr_blocks * 8 < u64_mod
  pub served :
      (disk : D) (i : ℕ) (uninit : Block)
      → Has disk
      → i + 1 < sst.nr_blocks
      → (disk' : D) × Has disk'
        × (block_read layer disk (sst.start_sector + (i + 1) * 8) uninit ≡ (ok, payload i, disk'))
  pub sorted :
      (i : ℕ) → i + 1 < sst.nr_blocks → Sorted (payload i) (entries_in_block sst.nr_entries i)
  pub across :
      (i j s : ℕ)
      → i < j
      → j + 1 < sst.nr_blocks
      → s < entries_in_block sst.nr_entries i
      → key_at (payload i) s < key_at (payload j) 0
  pub bounds :
      (i s : ℕ)
      → i + 1 < sst.nr_blocks
      → s < entries_in_block sst.nr_entries i
      → (sst.min_key ≤ key_at (payload i) s) × (key_at (payload i) s ≤ sst.max_key)

module _ (payload : ℕ → Block) (sst : Sstable) where
  -- The cache names a payload block only if it holds it.
  abbrev pub CacheOk : Cache → Type 0
  CacheOk c = (i : ℕ) → i + 1 < sst.nr_blocks → c.cached ≡ i → c.block ≡ payload i

  -- The block `low` may hold the key and the blocks after `high` do not.
  abbrev pub Brackets : ℕ → ℕ → ℕ → Type 0
  Brackets k low high =
      ((low ≡ 0) ⊎ (key_at (payload low) 0 ≤ k))
      × ((i : ℕ) → high < i → i + 1 < sst.nr_blocks → k < key_at (payload i) 0)

module _ {D : Type 0} (layer : Layer D) (Has : D → Type 0) (payload : ℕ → Block) (sst : Sstable)
    (t : IsTable layer Has payload sst) where
  sector-eq :
      (i : ℕ)
      → i + 1 < sst.nr_blocks
      → add64 sst.start_sector (((i + 1) % u32_mod) * 8) ≡ sst.start_sector + (i + 1) * 8
  sector-eq i h =
      ground (arith, t.fits, t.blocks, nr_blocks-bounds sst.nr_entries t.small t.some_entry)

  abbrev pub Fetched : ℕ → Ret × Cache × D → Type 0
  Fetched i r =
      (c : Cache) × (disk : D) × (r ≡ (ok, c, disk))
      × (c.block ≡ payload i)
      × CacheOk payload sst c
      × Has disk

  pub read_block :
      (i : ℕ) (c : Cache) (disk : D)
      → i + 1 < sst.nr_blocks
      → CacheOk payload sst c
      → Has disk
      → Fetched i (read_payload_block layer sst i c disk)
  unfolding read_payload_block
  read_block i c disk h good has = elim (Bool-cases (c.cached == i)) [
    | inl same ↦ rw same (c, disk, refl, good i h (ground (arith, same)), good, has)
    | inr other ↦
        let (disk', has', e) = t.served disk i c.block has h in
        rw (other, sector-eq i h)
          (
            record { cached = i; block = payload i },
            disk',
            ap (payload_read layer i c) e,
            refl,
            (λ j hj e'. ap payload e'),
            has',
          )
  ]

  upper_mid-between :
      (low high : ℕ)
      → low < high
      → high + 1 < sst.nr_blocks
      → (low < upper_mid layer low high) × (upper_mid layer low high ≤ high)
  upper_mid-between low high l h =
      ground (arith, t.blocks, nr_blocks-bounds sst.nr_entries t.small t.some_entry)

  -- A search that ends at the one block that may hold the key.
  abbrev pub Ended : ℕ → Ret × ℕ × Cache × D → Type 0
  Ended k r =
      (low : ℕ) × (c : Cache) × (disk : D) × (r ≡ (ok, low, c, disk))
      × (low + 1 < sst.nr_blocks)
      × Brackets payload sst k low low
      × CacheOk payload sst c
      × Has disk

  abbrev next_low : ℕ → ℕ → ℕ → ℕ
  next_low k low mid = if leb (key_at (payload mid) 0) k then mid else low

  abbrev next_high : ℕ → ℕ → ℕ → ℕ
  next_high k high mid = if leb (key_at (payload mid) 0) k then high else mid - 1

  pub in_use :
      (i : ℕ)
      → i + 1 < sst.nr_blocks
      → (0 < entries_in_block sst.nr_entries i) × (entries_in_block sst.nr_entries i ≤ 256)
  in_use i h = entries_in_block-bounds sst.nr_entries i t.small (ground (arith, t.blocks, h))

  -- A key before the first one of a block is before the first one of every later block.
  past :
      (k i j : ℕ)
      → i ≤ j
      → j + 1 < sst.nr_blocks
      → k < key_at (payload i) 0
      → k < key_at (payload j) 0
  past k i j l h before = elim (lt_or_ge i j) [
    | inl lt ↦ omega (arith, before, t.across i j 0 lt h (in_use i (omega (arith, lt, h))).0)
    | inr ge ↦ subst (λ m. k < key_at (payload m) 0) (omega (arith, l, ge)) before
  ]

  Brackets-step :
      (k low high mid : ℕ)
      → low < mid
      → mid ≤ high
      → high + 1 < sst.nr_blocks
      → Brackets payload sst k low high
      → Brackets payload sst k (next_low k low mid) (next_high k high mid)
  Brackets-step k low high mid l h b (lo, hi) = elim (Bool-cases (leb (key_at (payload mid) 0) k)) [
    | inl upper ↦ rw upper (inr (leb→le (key_at (payload mid) 0) k upper), hi)
    | inr lower ↦ rw lower (
      lo,
      λ i above inside. past k mid i (omega (arith, l, above)) inside (ground (arith, lower)),
    )
  ]

  step_eq :
      (k low high fuel : ℕ) (c c' : Cache) (disk disk' : D)
      → low < high
      → read_payload_block layer sst (upper_mid layer low high) c disk ≡ (ok, c', disk')
      → c'.block ≡ payload (upper_mid layer low high)
      → search_loop layer sst k (suc fuel) low high c disk
        ≡ search_loop layer sst k fuel
            (next_low k low (upper_mid layer low high))
            (next_high k high (upper_mid layer low high))
            c'
            disk'
  unfolding search_loop search_step block_first_key
  step_eq k low high fuel c c' disk disk' l e same = rw (lt→ltb low high l, e, same) refl

  end_eq :
      (k low high fuel : ℕ) (c : Cache) (disk : D)
      → high ≤ low
      → search_loop layer sst k (suc fuel) low high c disk ≡ (ok, low, c, disk)
  unfolding search_loop search_step
  end_eq k low high fuel c disk l = rw (ge→ltb low high l) refl

  pub search_loop-Ended :
      (k fuel low high : ℕ) (c : Cache) (disk : D)
      → high - low < fuel
      → low ≤ high
      → high + 1 < sst.nr_blocks
      → Brackets payload sst k low high
      → CacheOk payload sst c
      → Has disk
      → Ended k (search_loop layer sst k fuel low high c disk)
  search_loop-Ended k zero low high c disk f l h b good has = absurd (omega (arith, f))
  search_loop-Ended k (suc fuel) low high c disk f l h b good has = elim (lt_or_ge low high) [
    | inr ge ↦ rw (end_eq k low high fuel c disk ge) (
      low,
      c,
      disk,
      refl,
      omega (arith, l, h),
      (b.0, λ i above inside. b.1 i (omega (arith, ge, above)) inside),
      good,
      has,
    )
    | inl lt ↦
        let mid = upper_mid layer low high in
        let m = upper_mid-between low high lt h in
        let (c', disk', e, same, good', has') =
          read_block mid c disk (omega (arith, m.1, h)) good has in
        rw (step_eq k low high fuel c c' disk disk' lt e same) (
          search_loop-Ended k fuel (next_low k low mid) (next_high k high mid) c' disk'
            (ground (arith, f, m.0, m.1)) (ground (arith, m.0, m.1, l))
            (ground (arith, m.0, m.1, h)) (Brackets-step k low high mid m.0 m.1 h b) good' has')
  ]
