-- ===== src/Sstable.antt =====
-- src/lsm-sstable.h and src/lsm-sstable.c: a sorted table on the device.
--
-- This file has the layout: the block arithmetic, the header and the search inside one block. An
-- entry is 16 bytes, so entry `i` of a block has its key at offset 16 * i and its sector 8 bytes
-- further.
pub mod Blocks
pub mod Header
pub mod Search
pub mod Writer
pub mod Reader
pub mod Blocksearch
pub mod Lookup
pub mod Payload
pub mod Emit
pub mod Scan
pub mod Written
pub mod Loaded
pub mod Found
pub mod Agree
pub mod Confined
pub mod Outcome
mod Tests
use dm_zns_base.Prelude.{
  ℕ, zero, suc, ◌+◌, ◌-◌, ◌*◌, ◌/◌, ◌%◌, Bool, true, false, not, ◌||◌, List, [], ◌∷◌, Option, none,
  some, ◌==◌, ltb, leb, if◌then◌else◌, u32_mod, add32,
}
use dm_zns_base.Kernel.{Errno, Ret, ok, err, fault, Ptr}
use dm_zns_base.Block.{Block, zeroed, get_le, Store, store, stores}

abbrev pub sst_magic : ℕ
sst_magic = 0x5a4e53535354424b

abbrev pub sst_version : ℕ
sst_version = 1

abbrev pub block_sectors : ℕ
block_sectors = 8

abbrev pub entries_per_block : ℕ
entries_per_block = 256

-- `struct zns_sstable` without its place in a list.
pub record Sstable : Type 0 where
  pub start_sector : ℕ
  pub nr_entries : ℕ
  pub nr_blocks : ℕ
  pub min_key : ℕ
  pub max_key : ℕ
  pub seq : ℕ
  pub payload_crc : ℕ

-- `1 + DIV_ROUND_UP(nr_entries, 256)`; the division is made in 64 bits.
unfoldable pub nr_blocks : ℕ → ℕ
nr_blocks nr_entries = (1 + (nr_entries + entries_per_block - 1) / entries_per_block) % u32_mod

abbrev pub min : ℕ → ℕ → ℕ
min a b = if ltb a b then a else b

unfoldable pub entries_in_block : ℕ → ℕ → ℕ
entries_in_block nr_entries block_index =
    let consumed = block_index * entries_per_block % u32_mod in
    if leb nr_entries consumed then 0 else min (nr_entries - consumed) entries_per_block

-- `struct zns_sst_disk_header`.
abbrev pub header_fields : Sstable → ℕ → List Store
header_fields sst payload_crc =
    store 8 0 sst_magic
    ∷ store 4 8 sst_version
    ∷ store 4 12 sst.nr_entries
    ∷ store 4 16 sst.nr_blocks
    ∷ store 4 20 payload_crc
    ∷ store 8 24 sst.seq
    ∷ store 8 32 sst.min_key
    ∷ store 8 40 sst.max_key
    ∷ []

unfoldable pub encode_header : Sstable → ℕ → Block
encode_header sst payload_crc = stores (header_fields sst payload_crc) zeroed

-- `if (payload_crc) *payload_crc = ...`
abbrev pub set_ptr : Ptr ℕ → ℕ → Ptr ℕ
set_ptr none v = none
set_ptr (some _) v = some v

-- The three groups of tests in `zns_sst_decode_header`; the structure keeps what was stored in it
-- before a test failed.
abbrev pub decode_keys : Block → Sstable → Ptr ℕ → Ret × Sstable × Ptr ℕ
decode_keys block sst payload_crc =
    let sst' = record sst {
      seq = get_le 8 24 block;
      min_key = get_le 8 32 block;
      max_key = get_le 8 40 block;
    } in
    if ltb sst'.max_key sst'.min_key
    then (err Errno.einval, sst', payload_crc)
    else (ok, sst', set_ptr payload_crc (get_le 4 20 block))

abbrev pub decode_counts : Block → Sstable → Ptr ℕ → Ret × Sstable × Ptr ℕ
decode_counts block sst payload_crc =
    let sst' = record sst { nr_entries = get_le 4 12 block; nr_blocks = get_le 4 16 block } in
    if sst'.nr_entries == 0 || not (sst'.nr_blocks == nr_blocks sst'.nr_entries)
    then (err Errno.einval, sst', payload_crc)
    else decode_keys block sst' payload_crc

abbrev pub to_sst_ptr : Ret × Sstable × Ptr ℕ → Ret × Ptr Sstable × Ptr ℕ
to_sst_ptr (ret, sst, payload_crc) = (ret, some sst, payload_crc)

unfoldable pub decode_header : Ptr Block → Ptr Sstable → Ptr ℕ → Ret × Ptr Sstable × Ptr ℕ
decode_header none sst payload_crc = (err Errno.einval, sst, payload_crc)
decode_header (some block) none payload_crc = (err Errno.einval, none, payload_crc)
decode_header (some block) (some sst) payload_crc =
    if get_le 8 0 block == sst_magic
    then if get_le 4 8 block == sst_version
      then to_sst_ptr (decode_counts block sst payload_crc)
      else (err Errno.einval, some sst, payload_crc)
    else (err Errno.einval, some sst, payload_crc)

-- `entries[i].logical_block` and `entries[i].physical_sector`.
abbrev pub key_at : Block → ℕ → ℕ
key_at block i = get_le 8 (16 * i) block

abbrev pub sector_at : Block → ℕ → ℕ
sector_at block i = get_le 8 (16 * i + 8) block

unfoldable pub block_first_key : Ptr Block → Ptr ℕ → Ret × Ptr ℕ
block_first_key none logical_block = (err Errno.einval, logical_block)
block_first_key (some block) none = (err Errno.einval, none)
block_first_key (some block) (some _) = (ok, some (key_at block 0))

abbrev pub mid_of : ℕ → ℕ → ℕ
mid_of low high = add32 low ((high - low) / 2)

-- The loop of `zns_sst_block_find`, by fuel.
unfoldable pub find_loop : Block → ℕ → ℕ → ℕ → ℕ → ℕ → Ret × ℕ
find_loop block k cell zero low high = (fault, cell)
find_loop block k cell (suc n) low high =
    let mid = mid_of low high in
    let next =
      find_loop block k cell n (if ltb (key_at block mid) k then add32 mid 1 else low)
        (if ltb (key_at block mid) k then high else mid) in
    if ltb low high
    then if key_at block mid == k then (ok, sector_at block mid) else next
    else (err Errno.enodata, cell)

abbrev pub to_cell : Ret × ℕ → Ret × Ptr ℕ
to_cell (ret, cell) = (ret, some cell)

unfoldable pub block_find : Ptr Block → ℕ → ℕ → Ptr ℕ → Ret × Ptr ℕ
unfolding find_loop
block_find none nr_in_block k cell = (err Errno.einval, cell)
block_find (some block) nr_in_block k none = (err Errno.einval, none)
block_find (some block) nr_in_block k (some cell) =
    if nr_in_block == 0 || ltb entries_per_block nr_in_block
    then (err Errno.einval, some cell)
    else to_cell (find_loop block k cell (suc nr_in_block) 0 nr_in_block)
