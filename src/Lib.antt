-- ===== src/Lib.antt =====
-- Verification of dm-zns-base, a Device Mapper target that turns random writes into sequential ones
-- for a zoned block device. Paths are from the repository's root.
--
-- The program. `src/dm-zns-base-main.c` is the target; it drives one of three engines under
-- `src/engines/`. The log-structured engine appends data through the zoned allocator
-- (`src/zns-allocator.c`) over the zone table (`src/zns-zone.c`), keeps the mapping of logical
-- blocks in memory tables (`src/lsm-memtable.c`) that it flushes to tables on the device
-- (`src/lsm-sstable.c`) behind a superblock (`src/lsm-super.c`), and asks a policy under
-- `src/gc-policy/` which zone to clean.
--
-- The files.
--   Prelude, Kernel   tests, arrays, words of fixed width; error numbers, results, pointers
--   Zone              src/zns-zone.h, src/zns-zone.c
--   Allocator         src/zns-allocator.h, src/zns-allocator.c
--   Gc                src/zns-gc.h, src/gc-policy/zns-gc-{none,simple,greedy}.c
--   Memtable          src/lsm-memtable.h, and of src/lsm-memtable.c what works on one table
--   Generations       the rest of src/lsm-memtable.c: compaction, freezing, the write path
--   Block             blocks of bytes, and reading and writing one (src/lsm-sstable.c)
--   Super             src/lsm-super.h, src/lsm-super.c
--   Sstable           src/lsm-sstable.h, src/lsm-sstable.c
--   Engine            what the two append4k engines share, with the laws of a store of blocks
--   Append4k          src/engines/zns-engine-append4k.c
--   Append4kAlloc     src/engines/zns-engine-append4k-alloc.c
--   Lsm               src/engines/zns-engine-lsm.c: the capacity and the position of a sector in the
--                     reverse map, and below it
--     Index           the two indexes of the collection, and their agreement
--     State           struct zns_lsm, and what the engine takes from outside
--     Reading         the lookup through all generations
--     Flush           the flush worker
--     Publish         the publication of a written block, and what the policies ask
--     Collect         the collection of a zone
--     Append          the append of one block, and the recovery from its failure
--     Recover         the recovery of the tables and of the indexes, and the metadata zone
--     Life            from zns_engine_init to zns_engine_exit
--     Request         reads and writes of parts of blocks
--     Worker          the checks of a request, its queue and the worker
--   Target            src/dm-zns-base-main.c, src/zns-engine.h
-- A definition has the name of its C function, less the prefix that its module stands for:
-- `zns_allocator_alloc_gc` is `Allocator.alloc_gc`, `memtable_put` is `Memtable.put`.
--
-- How C is read. A structure is a record, and a function that changes it returns the new record
-- beside its result. `sector_t` and `u64` are numbers with their wrap at 2 ^ 64 written out,
-- `unsigned int` and `u32` at 2 ^ 32; a subtraction is written without a wrap where the test before
-- it makes one impossible. An `int` result is `ok` for 0 and `err e` for -e; `fault` stands for an
-- access outside an array, which C leaves undefined. A pointer argument is NULL or the value behind
-- it, and an output argument comes back as a result. Locks leave no trace: the operation under a
-- lock is one step. A memory request may be refused: an operation that makes one takes its outcome,
-- one that makes two takes both, and the write path of the memory tables takes a function from the
-- number of the request to its outcome.
--
-- What is a parameter. The zone report of the block layer (`Zone.Device`, with its documented course
-- `Zone.Table.Reports`), and the kernel's red-black tree (`Memtable.Rbtree`, with `IsRbtree`): the
-- code walks and links the tree itself, and the kernel rebalances it without changing the order.
-- `Block.Io.Layer` is the block layer: a write that returns 0 has stored its block, and one that does
-- not has changed no other sector (`IsConfined`, `IsPlainLayer`, `IsSubmit`). The theorems on tables
-- and on reads suppose that every read succeeds (`IsDevice`); those on the collection and on the
-- append suppose only that a read without an error gives what is there (`IsStorage`). `crc32_le` is
-- the kernel's checksum, of which only the width is supposed. `Lsm.State.Env` gathers what the
-- log-structured engine takes: those, the reset of a zone (`IsResetConfined`), the XArray
-- (`IsXArray`), the policy that is linked in, the outcome of each memory request by its number, and
-- the three module parameters that make a request fail.
--
-- Fuel and bounds. The scan of the allocator and the loops of the policies recur on the rounds
-- left, which the code bounds by the zone count. The loop of `memtable_destroy` has no bound in the
-- code: it takes fuel, and one more than the number of entries is enough. The two binary searches
-- of src/lsm-sstable.c take one more than the number of candidates, which is enough as well. A
-- policy's zone number goes through an `int`, so the theorems on policies suppose at most 2 ^ 31
-- zones.
-- The flush worker takes three rounds: there are two tables to flush, and the third round finds none.
-- The walk over the log takes one round more than the write pointer of the log, for every table has a
-- block. The loops over the fragments of a request take the number of its sectors.
--
-- Not modelled: the status texts, the registration of the target, logging, and the freeing of memory
-- where a table is a value, which leaves no trace there; so of the log-structured engine
-- zns_engine_status, zns_lsm_free_sstables and zns_lsm_data_zones_dirty, which only decides a message.
-- Requests are taken one after the other, and the flush worker runs between them: an operation of
-- src/engines/zns-engine-append4k-alloc.c that takes two locks in turn is one step here, and so is
-- each operation of the log-structured engine.
pub mod Engine
pub mod Lsm
pub mod Target
pub mod Block
pub mod Super
pub mod Sstable
pub mod Append4k
pub mod Append4kAlloc
pub mod Prelude
pub mod Kernel
pub mod Zone
pub mod Allocator
pub mod Gc
pub mod Memtable
pub mod Generations
