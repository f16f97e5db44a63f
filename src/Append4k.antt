-- ===== src/Append4k.antt =====
-- src/engines/zns-engine-append4k.c: a map from logical blocks to physical ones, written by appending
-- to the device below from sector 0 on.
--
-- The state is `struct zns_append4k` without its lock and without the device below, which
-- `BioDevice.lower` stands for. The local variable `physical_sector` starts with any value: it is
-- the argument `cell`.
pub mod Mapping
pub mod Runs
mod Tests
use dm_zns_base.Prelude.{
  ℕ, ◌+◌, ◌/◌, ◌%◌, Bool, true, false, not, ◌||◌, List, none, some, ◌==◌, ltb, leb, if◌then◌else◌,
  get_elem?, set, replicate, add64,
}
use dm_zns_base.Kernel.{Errno, Ret, ok, err, fault, Ptr}
use dm_zns_base.Engine.{Bio, MapIo, unmapped, is_aligned_io, block_read, map_op}

pub record Append4k : Type 0 where
  pub addr_mapping : List ℕ
  pub next_append_sector : ℕ
  pub nr_logical_blocks : ℕ
  pub sectors_per_block : ℕ
  pub nr_physical_sectors : ℕ

pub read : Append4k → ℕ → ℕ → ℕ → Ret × ℕ
read m logical_sector sectors cell =
    block_read m.addr_mapping m.nr_logical_blocks m.sectors_per_block logical_sector sectors cell

-- The step under the lock, for a block number that is in range.
abbrev pub append_block : Append4k → ℕ → ℕ → Ret × ℕ × Append4k
append_block m block cell =
    if ltb m.nr_physical_sectors (add64 m.next_append_sector m.sectors_per_block)
    then (err Errno.enospc, cell, m)
    else elim (get_elem? m.addr_mapping block) [
      | none ↦ (fault, m.next_append_sector, m)
      | some _ ↦ (
        ok,
        m.next_append_sector,
        record m {
          next_append_sector = add64 m.next_append_sector m.sectors_per_block;
          addr_mapping = set m.addr_mapping block m.next_append_sector;
        },
      )
    ]

pub write : Append4k → ℕ → ℕ → ℕ → Ret × ℕ × Append4k
write m logical_sector sectors cell =
    if is_aligned_io m.sectors_per_block logical_sector sectors
    then if leb m.nr_logical_blocks (logical_sector / m.sectors_per_block)
      then (err Errno.einval, cell, m)
      else append_block m (logical_sector / m.sectors_per_block) cell
    else (err Errno.einval, cell, m)

-- `m->nr_logical_blocks` holes, and an empty device.
abbrev pub made : ℕ → ℕ → ℕ → Append4k
made nr_logical_blocks physical_sectors sectors_per_block = record {
  addr_mapping = replicate nr_logical_blocks unmapped;
  next_append_sector = 0;
  nr_logical_blocks = nr_logical_blocks;
  sectors_per_block = sectors_per_block;
  nr_physical_sectors = physical_sectors;
}

-- The argument and the second result are `engine->private`; the two Booleans answer the two memory
-- requests.
unfoldable pub init : Bool → Bool → Ptr Append4k → ℕ → ℕ → ℕ → Ret × Ptr Append4k
init granted granted_map engine logical_sectors physical_sectors sectors_per_block =
    if sectors_per_block == 0
      || (not (logical_sectors % sectors_per_block == 0)
          || not (physical_sectors % sectors_per_block == 0))
    then (err Errno.einval, engine)
    else if not granted
    then (err Errno.enomem, engine)
    else if not granted_map
    then (err Errno.enomem, engine)
    else (ok, some (made (logical_sectors / sectors_per_block) physical_sectors sectors_per_block))

pub exit : Ptr Append4k → Ptr Append4k
exit none = none
exit (some m) = none

pub map_bio : Append4k → Bio → ℕ → MapIo × Bio × Append4k
map_bio m bio cell = map_op read write m bio.op bio cell
