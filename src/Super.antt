-- ===== src/Super.antt =====
-- src/lsm-super.h and src/lsm-super.c: the superblock of the metadata zone.
--
-- `crc32_le` is the kernel's: a parameter.
pub mod Format
mod Tests
use dm_zns_base.Prelude.{ℕ, ◌-◌, Bool, true, false, List, [], ◌∷◌, none, some, ◌==◌, if◌then◌else◌}
use dm_zns_base.Kernel.{Errno, Ret, ok, err, fault, Ptr}
use dm_zns_base.Block.{Block, block_bytes, zeroed, get_le, bytes, Store, store, stores}
use dm_zns_base.Block.Io.{Layer, block_read, block_write}

abbrev pub super_magic : ℕ
super_magic = 0x5a4e535355504552

abbrev pub super_version : ℕ
super_version = 1

pub record Super : Type 0 where
  pub uuid : ℕ
  pub logical_sectors : ℕ
  pub zone_size_sectors : ℕ
  pub nr_zones : ℕ
  pub meta_zone_id : ℕ
  pub sectors_per_block : ℕ

-- `zns_super_compare`, without its message.
pub compare_field : ℕ → ℕ → Ret
compare_field on_disk device = if on_disk == device then ok else err Errno.einval

-- `if (ret) return ret;`
abbrev pub and_then : Ret → Ret → Ret
and_then ok rest = rest
and_then (err e) rest = err e
and_then fault rest = fault

pub matches : Ptr Super → Ptr Super → Ret
matches none device = err Errno.einval
matches (some on_disk) none = err Errno.einval
matches (some on_disk) (some device) =
    and_then (compare_field on_disk.sectors_per_block device.sectors_per_block) (
      and_then (compare_field on_disk.nr_zones device.nr_zones) (
        and_then (compare_field on_disk.zone_size_sectors device.zone_size_sectors) (
          and_then (compare_field on_disk.meta_zone_id device.meta_zone_id)
            (compare_field on_disk.logical_sectors device.logical_sectors))))

-- The fields of `struct zns_super_disk` without its checksum, at their offsets.
abbrev pub super_fields : Super → List Store
super_fields super =
    store 8 0 super_magic
    ∷ store 4 8 super_version
    ∷ store 8 16 super.uuid
    ∷ store 8 24 super.logical_sectors
    ∷ store 8 32 super.zone_size_sectors
    ∷ store 4 40 super.nr_zones
    ∷ store 4 44 super.meta_zone_id
    ∷ store 4 48 super.sectors_per_block
    ∷ []

abbrev pub encode_fields : Super → Block
encode_fields super = stores (super_fields super) zeroed

abbrev pub decode_fields : Block → Super
decode_fields block = record {
  uuid = get_le 8 16 block;
  logical_sectors = get_le 8 24 block;
  zone_size_sectors = get_le 8 32 block;
  nr_zones = get_le 4 40 block;
  meta_zone_id = get_le 4 44 block;
  sectors_per_block = get_le 4 48 block;
}

module _ (crc32_le : ℕ → List ℕ → ℕ) where
  pub super_crc : Block → ℕ
  super_crc block = crc32_le 0 (bytes block 16 (block_bytes - 16))

  pub encode : Super → Block
  encode super = stores (store 4 12 (super_crc (encode_fields super)) ∷ []) (encode_fields super)

  pub decode : Ptr Block → Ptr Super → Ret × Ptr Super
  decode none super = (err Errno.einval, super)
  decode (some block) none = (err Errno.einval, none)
  decode (some block) (some super) =
      if get_le 8 0 block == super_magic
      then if get_le 4 8 block == super_version
        then if get_le 4 12 block == super_crc block
          then (ok, some (decode_fields block))
          else (err Errno.einval, some super)
        else (err Errno.einval, some super)
      else (err Errno.einval, some super)

  module _ {D : Type 0} (layer : Layer D) where
    -- The device is NULL, or its state.
    abbrev pub after_write : Ret × Block × D → Ret × Ptr D
    after_write (ret, block, disk) = (ret, some disk)

    -- The Boolean answers the memory request for the block.
    pub write : Bool → Ptr D → ℕ → Ptr Super → Ret × Ptr D
    write granted none sector super = (err Errno.einval, none)
    write granted (some disk) sector none = (err Errno.einval, some disk)
    write false (some disk) sector (some super) = (err Errno.enomem, some disk)
    write true (some disk) sector (some super) =
        after_write (block_write layer disk sector (encode super))

    abbrev pub with_disk : D → Ret × Ptr Super → Ret × Ptr Super × Ptr D
    with_disk disk (ret, super) = (ret, super, some disk)

    abbrev pub after_read : Ptr Super → Ret × Block × D → Ret × Ptr Super × Ptr D
    after_read super (ok, block, disk) = with_disk disk (decode (some block) super)
    after_read super (err e, block, disk) = (err e, super, some disk)
    after_read super (fault, block, disk) = (fault, super, some disk)

    -- `uninit` is what `kmalloc` leaves in the block.
    pub read : Bool → Block → Ptr D → ℕ → Ptr Super → Ret × Ptr Super × Ptr D
    read granted uninit none sector super = (err Errno.einval, super, none)
    read granted uninit (some disk) sector none = (err Errno.einval, none, some disk)
    read false uninit (some disk) sector (some super) = (err Errno.enomem, some super, some disk)
    read true uninit (some disk) sector (some super) =
        after_read (some super) (block_read layer disk sector uninit)
