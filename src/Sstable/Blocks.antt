-- ===== src/Sstable/Blocks.antt =====
-- src/lsm-sstable.c: where the entries of a table lie.
use dm_zns_base.Prelude.{ℕ, ◌-◌, ◌+◌, ◌*◌, ◌<◌, ◌≤◌, ◌↔◌, u32_mod, arith}
use dm_zns_base.Sstable.{nr_blocks, entries_in_block}

-- The payload blocks of a table of n entries, with the number of entries that the code gives each of
-- them, hold the entries 0 to n - 1 and no other: slot s of block i is in use if and only if entry
-- 256 * i + s exists. (Condition: n is a 32-bit number.)
pub entries_in_block_lem :
    (n i s : ℕ)
    → n < u32_mod
    → ((i + 1 < nr_blocks n) × (s < entries_in_block n i)) ↔ ((256 * i + s < n) × (s < 256))
unfolding nr_blocks entries_in_block
entries_in_block_lem n i s small = ground arith

-- Every payload block of a table is in use, and holds at most 256 entries.
pub entries_in_block-bounds :
    (n i : ℕ)
    → n < u32_mod
    → i + 1 < nr_blocks n
    → (0 < entries_in_block n i) × (entries_in_block n i ≤ 256)
unfolding nr_blocks entries_in_block
entries_in_block-bounds n i small h = ground arith

-- A table with an entry has a payload block, and the block index `UINT_MAX` names none.
pub nr_blocks-bounds :
    (n : ℕ) → n < u32_mod → 0 < n → (2 ≤ nr_blocks n) × (nr_blocks n < u32_mod - 1)
unfolding nr_blocks
nr_blocks-bounds n small pos = ground arith
