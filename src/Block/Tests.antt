-- ===== src/Block/Tests.antt =====
-- A device in memory and a small checksum, for the runs of src/lsm-super.c and src/lsm-sstable.c.
use dm_zns_base.Prelude.{
  ℕ, ◌+◌, ◌%◌, ◌≡◌, refl, sym, ◌∙◌, ap, true, List, [], ◌∷◌, ◌==◌, if◌then◌else◌, u32_mod, arith,
}
use dm_zns_base.Kernel.{Ret, ok}
use dm_zns_base.Block.{Block, block_bytes}
use dm_zns_base.Block.Io.{
  Layer, Request, block_read, block_write, submit_block, Keeps, IsDevice, IsStorage,
}
use dm_zns_base.Block.Laws.{IsU32}

abbrev pub sum : ℕ → List ℕ → ℕ
sum seed [] = seed % u32_mod
sum seed (x ∷ xs) = sum (seed + x) xs

pub sum-IsU32 : IsU32 sum
sum-IsU32 seed [] = omega arith
sum-IsU32 seed (x ∷ xs) = sum-IsU32 (seed + x) xs

abbrev pub Memory : Type 0
Memory = ℕ → Block

abbrev pub stored : Memory → ℕ → Block → Memory
stored disk sector b s = if s == sector then b else disk s

abbrev pub serve : Memory → Request → ℕ → Block → Ret × Block × Memory
serve disk Request.read sector b = (ok, disk sector, disk)
serve disk Request.write sector b = (ok, b, stored disk sector b)

abbrev pub in_memory : Layer Memory
in_memory = record {
  bio_alloc = λ disk. true;
  bio_add_page = λ disk b. block_bytes;
  submit_bio_wait = serve;
}

stored_self : (disk : Memory) (sector : ℕ) (b : Block) → stored disk sector b sector ≡ b
stored_self disk sector b = ground arith

pub in_memory-Keeps : Keeps in_memory
unfolding block_write block_read submit_block
in_memory-Keeps disk after read_disk sector b out uninit found wrote got =
    sym (ap (λ r. r.1) got)
    ∙ (ap (λ d. d sector) (sym (ap (λ r. r.2) wrote)) ∙ stored_self disk sector b)

-- The contents of a state are the state.
abbrev pub content : Memory → ℕ → Block
content disk = disk

pub in_memory-IsDevice : IsDevice in_memory content
unfolding block_write block_read submit_block
in_memory-IsDevice = record {
  writes = λ disk after sector b out wrote s. ap (λ d. d s) (sym (ap (λ r. r.2) wrote));
  reads = λ disk sector uninit. (disk, (λ s. refl), refl);
}

pub in_memory-IsStorage : IsStorage in_memory content
unfolding block_write block_read submit_block
in_memory-IsStorage = record {
  writes = λ disk after sector b out wrote s. ap (λ d. d s) (sym (ap (λ r. r.2) wrote));
  reads = λ disk after sector uninit out got. sym (ap (λ r. r.1) got);
  reads_keep = λ disk sector uninit s. refl;
}
