-- ===== src/Append4kAlloc/Mapping.antt =====
-- src/engines/zns-engine-append4k-alloc.c: the map after initialisation, after a write, and the requests
-- that `.map()` sends below.
use dm_zns_base.Prelude.{
  ℕ, ◌+◌, ◌/◌, ◌≤◌, ◌<◌, ◌≡◌, ◌≢◌, refl, Bool, true, false, ◌&&◌, some, ◌==◌, ltb, length, set,
  if◌then◌else◌, u64_mod, arith, length-set, length-replicate, get_elem?-some, get_elem?-replicate,
}
use dm_zns_base.Kernel.{Errno, Ret, ok, err, Ptr}
use dm_zns_base.Engine.{unmapped, block_read}
use dm_zns_base.Engine.BlockMap.{servable, block_read-set, IsPlaced, IsPlaced-holes, IsPlaced-set}
use dm_zns_base.Append4kAlloc.{Append4kAlloc, read, write, made, init}
use dm_zns_base.Allocator
use dm_zns_base.Allocator.{Allocator, AllocatorMode, alloc, alloc_linear, reset}

-- The array has one cell per logical block, and the blocks that it names lie apart, below the next
-- sector to append at, which is inside the device; the allocator is linear, with blocks of the same size.
pub record IsBacked (m : Append4kAlloc) : Type 0 where
  pub size : length m.addr_mapping ≡ m.nr_logical_blocks
  pub block_pos : 0 < m.sectors_per_block
  pub fits : m.allocator.next_sector ≤ m.allocator.physical_sectors
  pub small : m.allocator.physical_sectors < u64_mod
  pub linear : m.allocator.mode ≡ AllocatorMode.linear
  pub same_block : m.allocator.sectors_per_block ≡ m.sectors_per_block
  pub placed : IsPlaced m.addr_mapping m.sectors_per_block m.allocator.next_sector

-- What a write leaves: nothing is changed, or the block is at the old end of the data.
pub data Allocated (m : Append4kAlloc) (s n cell : ℕ) : Ret × ℕ × Append4kAlloc → Type 0 where
  refused :
      (e : Errno)
      → e ≡ (
          if servable m.nr_logical_blocks m.sectors_per_block s n
          then Errno.enospc
          else Errno.einval)
      → Allocated m s n cell (err e, cell, m)
  stored :
      (m' : Append4kAlloc)
      → IsBacked m'
      → m'.allocator.next_sector ≡ m.allocator.next_sector + m.sectors_per_block
      → m'.allocator.next_sector ≤ m.allocator.physical_sectors
      → ((t k c : ℕ)
          → read m' t k c
            ≡ (if t == s && k == n then (ok, m.allocator.next_sector) else read m t k c))
      → Allocated m s n cell (ok, m.allocator.next_sector, m')

abbrev placed_at : Append4kAlloc → ℕ → Append4kAlloc
placed_at m block = record m {
  allocator = record m.allocator { next_sector = m.allocator.next_sector + m.sectors_per_block };
  addr_mapping = set m.addr_mapping block m.allocator.next_sector;
}

write_eq :
    (m : Append4kAlloc) (s n cell : ℕ)
    → IsBacked m
    → write m s n cell ≡ (
        if servable m.nr_logical_blocks m.sectors_per_block s n
        then if ltb m.allocator.physical_sectors (m.allocator.next_sector + m.sectors_per_block)
          then (err Errno.enospc, cell, m)
          else (ok, m.allocator.next_sector, placed_at m (s / m.sectors_per_block))
        else (err Errno.einval, cell, m))
unfolding write servable alloc alloc_linear
write_eq m s n cell v = ground (
  arith,
  v.size,
  v.fits,
  v.small,
  v.linear,
  v.same_block,
  get_elem?-some m.addr_mapping (s / m.sectors_per_block),
)

placed_at-IsBacked :
    (m : Append4kAlloc) (block : ℕ)
    → IsBacked m
    → block < m.nr_logical_blocks
    → m.allocator.next_sector + m.sectors_per_block ≤ m.allocator.physical_sectors
    → IsBacked (placed_at m block)
placed_at-IsBacked m block v lt room = record {
  size = ground (arith, v.size, length-set m.addr_mapping block m.allocator.next_sector);
  block_pos = v.block_pos;
  fits = room;
  small = v.small;
  linear = v.linear;
  same_block = v.same_block;
  placed =
      IsPlaced-set m.addr_mapping m.sectors_per_block m.allocator.next_sector block
        (ground (arith, v.size)) v.placed;
}

-- A sector to append at is never the mark of a hole.
next-ne :
    (m : Append4kAlloc)
    → IsBacked m
    → m.allocator.next_sector + m.sectors_per_block ≤ m.allocator.physical_sectors
    → m.allocator.next_sector ≢ unmapped
next-ne m v room e = absurd (omega (arith, v.block_pos, v.small, room, e))

placed_at-Allocated :
    (m : Append4kAlloc) (s n cell : ℕ)
    → IsBacked m
    → servable m.nr_logical_blocks m.sectors_per_block s n ≡ true
    → m.allocator.next_sector + m.sectors_per_block ≤ m.allocator.physical_sectors
    → Allocated m s n cell (ok, m.allocator.next_sector, placed_at m (s / m.sectors_per_block))
unfolding servable read
placed_at-Allocated m s n cell v h room =
    Allocated.stored (placed_at m (s / m.sectors_per_block))
      (placed_at-IsBacked m (s / m.sectors_per_block) v (ground (arith, h)) room) refl room
      (block_read-set m.addr_mapping m.nr_logical_blocks m.sectors_per_block s n
        m.allocator.next_sector v.size h (next-ne m v room))

-- On a valid map, a write stores the block at the next sector to append at, so that the request
-- reads it back, every other request reads as before and the map stays valid, with the data inside
-- the device; or it changes nothing and fails, with -EINVAL unless the request is for one whole
-- block of the map, and else with -ENOSPC.
pub write-Allocated :
    (m : Append4kAlloc) (s n cell : ℕ) → IsBacked m → Allocated m s n cell (write m s n cell)
write-Allocated m s n cell v = rw (write_eq m s n cell v) written
  where
    at :
        (b full : Bool)
        → servable m.nr_logical_blocks m.sectors_per_block s n ≡ b
        → ltb m.allocator.physical_sectors (m.allocator.next_sector + m.sectors_per_block) ≡ full
        → Allocated m s n cell (
            if b
            then if full
              then (err Errno.enospc, cell, m)
              else (ok, m.allocator.next_sector, placed_at m (s / m.sectors_per_block))
            else (err Errno.einval, cell, m))
    at false full h e = Allocated.refused Errno.einval (ground (arith, h))
    at true true h e = Allocated.refused Errno.enospc (ground (arith, h))
    at true false h e = placed_at-Allocated m s n cell v h (ground (arith, e))

    written : Allocated m s n cell (
        if servable m.nr_logical_blocks m.sectors_per_block s n
        then if ltb m.allocator.physical_sectors (m.allocator.next_sector + m.sectors_per_block)
          then (err Errno.enospc, cell, m)
          else (ok, m.allocator.next_sector, placed_at m (s / m.sectors_per_block))
        else (err Errno.einval, cell, m))
    written = at _ _ refl refl

made-read :
    (nr block : ℕ) (a : Allocator) (s n cell : ℕ)
    → (read (made nr block a) s n cell).0
      ≡ (if servable nr block s n then err Errno.enodata else err Errno.einval)
unfolding read servable block_read
made-read nr block a s n cell = ground (arith, get_elem?-replicate nr (s / block) unmapped)

-- The allocator that `zns_allocator_init` leaves.
abbrev fresh : ℕ → ℕ → Allocator
fresh physical block = record reset { physical_sectors = physical; sectors_per_block = block }

made-IsBacked :
    (nr physical block : ℕ)
    → physical < u64_mod
    → 0 < block
    → IsBacked (made nr block (fresh physical block))
made-IsBacked nr physical block small pos = record {
  size = length-replicate nr unmapped;
  block_pos = pos;
  fits = omega arith;
  small = small;
  linear = refl;
  same_block = refl;
  placed = IsPlaced-holes nr block 0;
}

-- A fresh map is valid and has no block: a request for one whole block is answered with -ENODATA and
-- any other one with -EINVAL. (Condition: the size of the device is a 64-bit number.)
pub init-IsBacked :
    (granted granted_map : Bool) (engine : Ptr Append4kAlloc) (logical physical block : ℕ)
    {m : Append4kAlloc}
    → physical < u64_mod
    → init granted granted_map engine logical physical block ≡ (ok, some m)
    → IsBacked m
      × ((s n cell : ℕ)
          → (read m s n cell).0 ≡ (
              if servable (logical / block) block s n then err Errno.enodata else err Errno.einval))
unfolding init Allocator.init
init-IsBacked granted granted_map engine logical physical block {m} small e = ground (
  arith,
  made-IsBacked (logical / block) physical block small,
  made-read (logical / block) block (fresh physical block),
)
