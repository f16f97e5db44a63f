-- ===== src/Engine.antt =====
-- What the engines share (src/zns-engine.h and the parts of src/engines/zns-engine-append4k.c and
-- src/engines/zns-engine-append4k-alloc.c that are the same text): the request, the verdict of
-- `.map()`, and an array of block addresses.
--
-- A spinlock leaves no trace: an operation is one step.
pub mod BlockMap
pub mod Store
use dm_zns_base.Prelude.{
  ℕ, ◌/◌, ◌%◌, ◌-◌, Bool, true, false, ◌&&◌, List, none, some, ◌==◌, leb, if◌then◌else◌, get_elem?,
  u64_mod,
}
use dm_zns_base.Kernel.{Errno, Ret, ok, err, fault}

-- `bio_op(bio)`; `other_op` is every operation that an engine does not name.
pub data BioOp : Type 0 where
  flush read write other_op : BioOp

-- Where a bio goes: the mapped device it came in on, or the device below.
pub data BioDevice : Type 0 where
  upper lower : BioDevice

-- `struct bio` as the engines use it. `zeroed` is the data after `zero_fill_bio`, `ended` the bio
-- after `bio_endio`.
pub record Bio : Type 0 where
  pub op : BioOp
  pub sector : ℕ
  pub sectors : ℕ
  pub device : BioDevice
  pub zeroed : Bool
  pub ended : Bool

pub data MapIo : Type 0 where
  submitted remapped kill : MapIo

-- `(sector_t)-1`.
abbrev pub unmapped : ℕ
unmapped = u64_mod - 1

unfoldable pub is_aligned_io : ℕ → ℕ → ℕ → Bool
is_aligned_io sectors_per_block logical_sector sectors =
    sectors == sectors_per_block && logical_sector % sectors_per_block == 0

-- `*physical_sector = addr_mapping[logical_block]`, and the test for a hole.
abbrev pub read_slot : List ℕ → ℕ → ℕ → Ret × ℕ
read_slot mapping block cell = elim (get_elem? mapping block) [
  | none ↦ (fault, cell)
  | some p ↦ if p == unmapped then (err Errno.enodata, p) else (ok, p)
]

-- The body of both `_read` functions.
unfoldable pub block_read : List ℕ → ℕ → ℕ → ℕ → ℕ → ℕ → Ret × ℕ
block_read mapping nr_logical_blocks sectors_per_block logical_sector sectors cell =
    if is_aligned_io sectors_per_block logical_sector sectors
    then if leb nr_logical_blocks (logical_sector / sectors_per_block)
      then (err Errno.einval, cell)
      else read_slot mapping (logical_sector / sectors_per_block) cell
    else (err Errno.einval, cell)

-- `bio_set_dev(bio, m->lower_bdev)`, after the new sector is stored.
abbrev pub remap_flush : Bio → MapIo × Bio
remap_flush bio = (MapIo.remapped, record bio { device = BioDevice.lower })

-- The rest of the read case, after the mapping is read.
abbrev pub map_read : Bio → Ret × ℕ → MapIo × Bio
map_read bio (ok, p) = (MapIo.remapped, record bio { sector = p; device = BioDevice.lower })
map_read bio (err Errno.enodata, p) = (MapIo.submitted, record bio { zeroed = true; ended = true })
map_read bio (err _, p) = (MapIo.kill, bio)
map_read bio (fault, p) = (MapIo.kill, bio)

-- The rest of the write case, after the mapping is written.
abbrev pub map_write {ℓ} : {S : Type ℓ} → Bio → Ret × ℕ × S → MapIo × Bio × S
map_write bio (ok, p, m) = (MapIo.remapped, record bio { sector = p; device = BioDevice.lower }, m)
map_write bio (err _, p, m) = (MapIo.kill, bio, m)
map_write bio (fault, p, m) = (MapIo.kill, bio, m)

-- A case that leaves the state alone.
abbrev pub keep {ℓ} : {S : Type ℓ} → S → MapIo × Bio → MapIo × Bio × S
keep m (verdict, bio) = (verdict, bio, m)

-- The `switch` of both `zns_engine_map` functions.
abbrev pub map_op {ℓ} :
    {S : Type ℓ}
    → (S → ℕ → ℕ → ℕ → Ret × ℕ)
    → (S → ℕ → ℕ → ℕ → Ret × ℕ × S)
    → S
    → BioOp
    → Bio
    → ℕ
    → MapIo × Bio × S
map_op read_op write_op m BioOp.flush bio cell = keep m (remap_flush bio)
map_op read_op write_op m BioOp.read bio cell =
    keep m (map_read bio (read_op m bio.sector bio.sectors cell))
map_op read_op write_op m BioOp.write bio cell =
    map_write bio (write_op m bio.sector bio.sectors cell)
map_op read_op write_op m BioOp.other_op bio cell = (MapIo.kill, bio, m)
