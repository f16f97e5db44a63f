-- ===== src/Allocator/Valid.antt =====
-- The invariant of a zoned allocator: the array has `nr_zones` descriptors, no zone runs past the
-- end of the sector range, and the write pointer of a zone that takes writes lies inside it.
use dm_zns_base.Prelude.{
  ℕ, zero, suc, ◌+◌, ◌≤◌, ◌<◌, ◌≡◌, refl, Bool, true, some, List, [], ◌∷◌, All, length, u64_mod,
  u32_mod, arith, none, add64,
}
use dm_zns_base.Kernel.{ok, Ptr}
use dm_zns_base.Zone.{ZnsZone, can_append}
use dm_zns_base.Allocator.{
  Allocator, AllocatorMode, metadata_valid, is_writable, check_zones, take, init_zoned,
}

pub record IsSound (z : ZnsZone) : Type 0 where
  pub fits : z.start_sector + z.capacity < u64_mod
  pub from_start : is_writable z ≡ true → z.start_sector ≤ z.write_pointer
  pub to_end : is_writable z ≡ true → z.write_pointer ≤ z.start_sector + z.capacity

pub record IsValid (a : Allocator) : Type 0 where
  pub count : length a.zones ≡ a.nr_zones
  pub some_zone : 0 < a.nr_zones
  pub small : a.nr_zones < u32_mod
  pub block_pos : 0 < a.sectors_per_block
  pub in_zones : a.mode ≡ AllocatorMode.zoned
  pub sound : All IsSound a.zones

-- What the validation accepts is sound. (A start sector is a 64-bit number.)
pub metadata_valid-IsSound :
    (z : ZnsZone) → z.start_sector < u64_mod → metadata_valid z ≡ true → IsSound z
unfolding metadata_valid
metadata_valid-IsSound z small h = ground arith

abbrev pub InRange : ZnsZone → Type 0
InRange z = z.start_sector < u64_mod

check_zones-All :
    (n : ℕ) (zs : List ZnsZone)
    → All InRange zs
    → check_zones n zs ≡ ok
    → All IsSound (take n zs) × (length (take n zs) ≡ n)
unfolding check_zones
check_zones-All zero zs r h = (tt, refl)
check_zones-All (suc n) [] r h = absurd (ground arith)
check_zones-All (suc n) (z ∷ zs) r h =
    ground (arith, metadata_valid-IsSound z r.0, check_zones-All n zs r.1)

-- Whatever array `zns_allocator_init_zoned` accepts, the allocator that it builds is valid.
pub init_zoned-IsValid :
    (granted : Bool) (p : Ptr Allocator) (zones : List ZnsZone) (nr_zones sectors_per_block : ℕ)
    {a : Allocator}
    → All InRange zones
    → nr_zones < u32_mod
    → init_zoned granted p (some zones) nr_zones sectors_per_block ≡ (ok, some a)
    → IsValid a
unfolding init_zoned
init_zoned-IsValid granted none zones nr_zones sectors_per_block r small h = absurd (ground arith)
init_zoned-IsValid granted (some b) zones nr_zones sectors_per_block r small h =
    ground (arith, check_zones-All nr_zones zones r)

-- The zone that takes a block stays sound.
pub appended-IsSound :
    (z : ZnsZone) (block : ℕ)
    → IsSound z
    → can_append z block ≡ true
    → IsSound (record z { write_pointer = add64 z.write_pointer block })
unfolding can_append
appended-IsSound z block s h = ground arith
