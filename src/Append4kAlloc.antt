-- ===== src/Append4kAlloc.antt =====
-- src/engines/zns-engine-append4k-alloc.c: the map of the append4k engine over the linear allocator of
-- src/zns-allocator.c.
--
-- The state is `struct zns_append4k_alloc` without its lock and without the device below, which
-- `BioDevice.lower` stands for. The local variable `physical_sector` starts with any value: it is
-- the argument `cell`. A write takes two locks in turn; here it is one step.
pub mod Mapping
pub mod Runs
mod Tests
use dm_zns_base.Prelude.{
  ℕ, ◌/◌, ◌%◌, Bool, not, ◌||◌, List, none, some, ◌==◌, leb, if◌then◌else◌, get_elem?, set,
  replicate,
}
use dm_zns_base.Kernel.{Errno, Ret, ok, err, fault, Ptr}
use dm_zns_base.Allocator
use dm_zns_base.Allocator.{Allocator, alloc, reset}
use dm_zns_base.Engine.{Bio, MapIo, unmapped, is_aligned_io, block_read, map_op}

pub record Append4kAlloc : Type 0 where
  pub addr_mapping : List ℕ
  pub nr_logical_blocks : ℕ
  pub sectors_per_block : ℕ
  pub allocator : Allocator

pub read : Append4kAlloc → ℕ → ℕ → ℕ → Ret × ℕ
read m logical_sector sectors cell =
    block_read m.addr_mapping m.nr_logical_blocks m.sectors_per_block logical_sector sectors cell

-- What the call left behind its pointers.
abbrev pub or_else {ℓ} : {A : Type ℓ} → A → Ptr A → A
or_else a none = a
or_else a (some a') = a'

-- `m->addr_mapping[logical_block] = *physical_sector`.
abbrev pub store_block : Append4kAlloc → ℕ → ℕ → Ret × ℕ × Append4kAlloc
store_block m block p = elim (get_elem? m.addr_mapping block) [
  | none ↦ (fault, p, m)
  | some _ ↦ (ok, p, record m { addr_mapping = set m.addr_mapping block p })
]

-- The rest of the write, after `zns_allocator_alloc(&m->allocator, physical_sector)`.
abbrev pub after_alloc :
    Append4kAlloc → ℕ → ℕ → Ret × Ptr ℕ × Ptr Allocator → Ret × ℕ × Append4kAlloc
after_alloc m block cell (ok, p, a) =
    store_block (record m { allocator = or_else m.allocator a }) block (or_else cell p)
after_alloc m block cell (err e, p, a) =
    (err e, or_else cell p, record m { allocator = or_else m.allocator a })
after_alloc m block cell (fault, p, a) =
    (fault, or_else cell p, record m { allocator = or_else m.allocator a })

pub write : Append4kAlloc → ℕ → ℕ → ℕ → Ret × ℕ × Append4kAlloc
write m logical_sector sectors cell =
    if is_aligned_io m.sectors_per_block logical_sector sectors
    then if leb m.nr_logical_blocks (logical_sector / m.sectors_per_block)
      then (err Errno.einval, cell, m)
      else after_alloc m (logical_sector / m.sectors_per_block) cell
          (alloc (some m.allocator) (some cell))
    else (err Errno.einval, cell, m)

-- `m->nr_logical_blocks` holes, over an allocator.
abbrev pub made : ℕ → ℕ → Allocator → Append4kAlloc
made nr_logical_blocks sectors_per_block allocator = record {
  addr_mapping = replicate nr_logical_blocks unmapped;
  nr_logical_blocks = nr_logical_blocks;
  sectors_per_block = sectors_per_block;
  allocator = allocator;
}

-- The rest of the initialisation, after `zns_allocator_init`.
abbrev pub after_init : Ptr Append4kAlloc → ℕ → ℕ → Ret × Ptr Allocator → Ret × Ptr Append4kAlloc
after_init engine nr_logical_blocks sectors_per_block (ok, a) =
    (ok, some (made nr_logical_blocks sectors_per_block (or_else reset a)))
after_init engine nr_logical_blocks sectors_per_block (err e, a) = (err e, engine)
after_init engine nr_logical_blocks sectors_per_block (fault, a) = (fault, engine)

-- The argument and the second result are `engine->private`; the two Booleans answer the two memory
-- requests.
pub init : Bool → Bool → Ptr Append4kAlloc → ℕ → ℕ → ℕ → Ret × Ptr Append4kAlloc
init granted granted_map engine logical_sectors physical_sectors sectors_per_block =
    if sectors_per_block == 0
      || (not (logical_sectors % sectors_per_block == 0)
          || not (physical_sectors % sectors_per_block == 0))
    then (err Errno.einval, engine)
    else if not granted
    then (err Errno.enomem, engine)
    else if not granted_map
    then (err Errno.enomem, engine)
    else after_init engine (logical_sectors / sectors_per_block) sectors_per_block
        (Allocator.init (some reset) physical_sectors sectors_per_block)

pub exit : Ptr Append4kAlloc → Ptr Append4kAlloc
exit none = none
exit (some m) = none

pub map_bio : Append4kAlloc → Bio → ℕ → MapIo × Bio × Append4kAlloc
map_bio m bio cell = map_op read write m bio.op bio cell
