-- ===== src/Sstable/Tests.antt =====
-- src/lsm-sstable.c at a table of two entries in one payload block.
use mathlib.Core.Path.{subst}
use dm_zns_base.Prelude.{
  ℕ, zero, suc, ◌+◌, ◌*◌, ◌≤◌, ◌<◌, ◌≡◌, refl, ap, sym, true, List, [], ◌∷◌, none, some, All,
  All-get_elem?, length, arith,
}
use dm_zns_base.Kernel.{Ret, ok, Ptr}
use dm_zns_base.Block.{Block, zeroed, get_le, put_le, store, stores}
use dm_zns_base.Block.Io.{block_read, block_write, submit_block}
use dm_zns_base.Memtable
use dm_zns_base.Memtable.{Entry, put_at}
use dm_zns_base.Memtable.Tests.{plain, plain-IsRbtree, sample, sample-IsValid}
use dm_zns_base.Block.Tests.{sum-IsU32, Memory, stored, in_memory, sum, content, in_memory-IsDevice}
use dm_zns_base.Sstable.{
  Sstable, encode_header, decode_header, nr_blocks, entries_in_block, block_find, to_cell,
}
use dm_zns_base.Sstable.Header.{InRange, filled, decode_header-encode_header}
use dm_zns_base.Sstable.Search.{Sorted, Found, block_find-Found}
use dm_zns_base.Sstable.Reader.{lookup}
use dm_zns_base.Sstable.Writer.{
  Result, write_table, scan_memtable, emit_payload, emit_loop, emit_full, consume_block,
}
use dm_zns_base.Sstable.Reader.{load_table}
use dm_zns_base.Sstable.Loaded.{IsIndex, load_table-write_table}
use dm_zns_base.Sstable.Found.{AllInRange}
use dm_zns_base.Sstable.Agree.{walk-Growing, lookup-write_table}
use dm_zns_base.Sstable.Blocksearch.{IsTable}
use dm_zns_base.Sstable.Lookup.{Looked, lookup-Looked}

abbrev two : Sstable
two = record {
  start_sector = 64;
  nr_entries = 2;
  nr_blocks = 2;
  min_key = 5;
  max_key = 9;
  seq = 1;
  payload_crc = 0;
}

two-InRange : InRange two
unfolding nr_blocks
two-InRange = record {
  some_entry = omega arith;
  nr_entries = omega arith;
  blocks = refl;
  seq = omega arith;
  min_key = omega arith;
  max_key = omega arith;
}

decode_header-encode_header_example :
    decode_header (some (encode_header two 99)) (some two) (some 0)
    ≡ (ok, some (filled two two), some 99)
decode_header-encode_header_example =
    decode_header-encode_header two two 99 (some 0) two-InRange (omega arith)

-- The keys 5 and 9, at the sectors 800 and 808.
abbrev entries : Block
entries = stores (store 8 0 5 ∷ store 8 8 800 ∷ store 8 16 9 ∷ store 8 24 808 ∷ []) zeroed

entries-Sorted : Sorted entries 2
unfolding get_le put_le
entries-Sorted zero zero l h = absurd (omega (arith, l))
entries-Sorted zero (suc zero) l h = omega arith
entries-Sorted zero (suc (suc j)) l h = absurd (omega (arith, h))
entries-Sorted (suc i) j l h = absurd (omega (arith, l, h))

block_find-Found_example :
    (r : Ret × ℕ) × (block_find (some entries) 2 9 (some 0) ≡ to_cell r) × Found entries 2 9 0 r
block_find-Found_example = block_find-Found entries 2 9 0 entries-Sorted (omega arith) (omega arith)

abbrev payload : ℕ → Block
payload i = entries

abbrev Has : Memory → Type 0
Has disk = disk 72 ≡ entries

in_two : entries_in_block 2 0 ≡ 2
unfolding entries_in_block
in_two = refl

entries-bounds : (s : ℕ) → s < 2 → (5 ≤ get_le 8 (16 * s) entries) × (get_le 8 (16 * s) entries ≤ 9)
unfolding get_le put_le
entries-bounds zero h = (omega arith, omega arith)
entries-bounds (suc zero) h = (omega arith, omega arith)
entries-bounds (suc (suc s)) h = absurd (omega (arith, h))

served :
    (disk : Memory) (i : ℕ) (uninit : Block)
    → Has disk
    → i + 1 < 2
    → (disk' : Memory) × Has disk'
      × (block_read in_memory disk (64 + (i + 1) * 8) uninit ≡ (ok, payload i, disk'))
unfolding block_read submit_block
served disk zero uninit has h = (disk, has, ap (λ b. (ok, b, disk)) has)
served disk (suc i) uninit has h = absurd (omega (arith, h))

sorted : (i : ℕ) → i + 1 < 2 → Sorted (payload i) (entries_in_block 2 i)
unfolding entries_in_block
sorted zero h = entries-Sorted
sorted (suc i) h = absurd (omega (arith, h))

bounds :
    (i s : ℕ)
    → i + 1 < 2
    → s < entries_in_block 2 i
    → (5 ≤ get_le 8 (16 * s) (payload i)) × (get_le 8 (16 * s) (payload i) ≤ 9)
unfolding entries_in_block
bounds zero s h l = entries-bounds s l
bounds (suc i) s h l = absurd (omega (arith, h))

two-IsTable : IsTable in_memory Has payload two
unfolding nr_blocks
two-IsTable = record {
  some_entry = omega arith;
  small = omega arith;
  blocks = refl;
  fits = omega arith;
  served = served;
  sorted = sorted;
  across = λ i j s l h _. absurd (omega (arith, l, h));
  bounds = bounds;
}

abbrev disk : Memory
disk = stored (λ sector. zeroed) 72 entries

lookup-Looked_example :
    (ret : Ret) × (p : Ptr ℕ) × (disk' : Memory) × (lookup in_memory true zeroed
        (some disk)
        (some two)
        9
        (some 0)
      ≡ (ret, p, some disk'))
    × Has disk'
    × Looked payload two 9 0 (ret, p)
lookup-Looked_example = lookup-Looked in_memory Has payload two two-IsTable 9 0 zeroed disk refl

-- The memory table with the keys 2, 5 and 9, written from sector 64 on.
abbrev walked : List Entry
walked =
    record { logical_block = 2; physical_sector = 108; sequence = 2 }
    ∷ record { logical_block = 5; physical_sector = 124; sequence = 4 }
    ∷ record { logical_block = 9; physical_sector = 116; sequence = 3 }
    ∷ []

sample_walked : plain.walk sample.root ≡ walked
unfolding put_at
sample_walked = refl

walked-InRange : AllInRange (plain.walk sample.root)
walked-InRange =
    subst AllInRange (sym sample_walked)
      (λ j e at. All-get_elem? dm_zns_base.Sstable.Payload.InRange walked j all at)
  where
    all : All dm_zns_base.Sstable.Payload.InRange walked
    all = (
      record { logical_block = omega arith; physical_sector = omega arith },
      (
        record { logical_block = omega arith; physical_sector = omega arith },
        (record { logical_block = omega arith; physical_sector = omega arith }, tt),
      ),
    )

walked-length : length (plain.walk sample.root) ≡ 3
walked-length = ap length sample_walked

abbrev blank : Memory
blank sector = zeroed

abbrev result : Result in_memory sum
result = write_table in_memory sum plain true true blank sample 64 80 1

wrote : result.0 ≡ ok
unfolding write_table scan_memtable nr_blocks emit_payload emit_loop emit_full consume_block
    block_write submit_block put_at
wrote = refl

used : result.2 ≡ 16
unfolding write_table scan_memtable nr_blocks emit_payload emit_loop emit_full consume_block
    block_write submit_block put_at
used = refl

load_table-write_table_example :
    (sst : Sstable) × (crc : ℕ) × (disk' : Memory) × (load_table in_memory true true zeroed result.3
        64 80
      ≡ (ok, some sst, disk'))
    × ((s : ℕ) → content disk' s ≡ content result.3 s)
    × (result.1 ≡ some (record sst { payload_crc = crc }))
    × IsIndex in_memory sum content in_memory-IsDevice
        (plain.walk sample.root)
        64
        1
        result.2
        result.3
        sst
load_table-write_table_example =
    load_table-write_table in_memory sum content in_memory-IsDevice plain true true blank sample 64
      80 1 80 zeroed (walk-Growing plain plain-IsRbtree sample sample-IsValid)
      (omega (arith, walked-length)) (omega (arith, walked-length)) walked-InRange (omega arith)
      (omega arith) sum-IsU32 wrote (omega (arith, used))

lookup-write_table_example :
    (sst : Sstable) × (disk' : Memory) × (result.1 ≡ some sst)
    × (lookup in_memory true zeroed (some result.3) (some sst) 5 (some 0) ≡ (
      (Memtable.lookup (some sample) 5 (some 0) none).0,
      (Memtable.lookup (some sample) 5 (some 0) none).1,
      some disk',
    ))
lookup-write_table_example =
    lookup-write_table plain plain-IsRbtree in_memory sum content in_memory-IsDevice true true blank
      sample 64 80 1 5 0 zeroed sample-IsValid (omega (arith, walked-length))
      (omega (arith, walked-length)) walked-InRange (omega arith) wrote
