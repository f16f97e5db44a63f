-- ===== src/Append4k/Mapping.antt =====
-- src/engines/zns-engine-append4k.c: the map after initialisation, after a write, and the requests
-- that `.map()` sends below.
use dm_zns_base.Prelude.{
  ℕ, ◌+◌, ◌/◌, ◌≤◌, ◌<◌, ◌≡◌, ◌≢◌, refl, Bool, true, false, ◌&&◌, some, ◌==◌, ltb, length, set,
  if◌then◌else◌, u64_mod, arith, length-set, length-replicate, get_elem?-some, get_elem?-replicate,
}
use dm_zns_base.Kernel.{Errno, Ret, ok, err, Ptr}
use dm_zns_base.Engine.{unmapped, block_read}
use dm_zns_base.Engine.BlockMap.{servable, block_read-set, IsPlaced, IsPlaced-holes, IsPlaced-set}
use dm_zns_base.Append4k.{Append4k, read, write, made, init}

-- The array has one cell per logical block, and the blocks that it names lie apart, below the next
-- sector to append at, which is inside the device. (`small`: the test for space does not wrap.)
pub record IsValid (m : Append4k) : Type 0 where
  pub size : length m.addr_mapping ≡ m.nr_logical_blocks
  pub block_pos : 0 < m.sectors_per_block
  pub fits : m.next_append_sector ≤ m.nr_physical_sectors
  pub small : m.nr_physical_sectors + m.sectors_per_block < u64_mod
  pub placed : IsPlaced m.addr_mapping m.sectors_per_block m.next_append_sector

-- What a write leaves: nothing is changed, or the block is at the old end of the data.
pub data Written (m : Append4k) (s n cell : ℕ) : Ret × ℕ × Append4k → Type 0 where
  refused :
      (e : Errno)
      → e ≡ (
          if servable m.nr_logical_blocks m.sectors_per_block s n
          then Errno.enospc
          else Errno.einval)
      → Written m s n cell (err e, cell, m)
  stored :
      (m' : Append4k)
      → IsValid m'
      → m'.next_append_sector ≡ m.next_append_sector + m.sectors_per_block
      → m'.next_append_sector ≤ m.nr_physical_sectors
      → ((t k c : ℕ)
          → read m' t k c ≡ (if t == s && k == n then (ok, m.next_append_sector) else read m t k c))
      → Written m s n cell (ok, m.next_append_sector, m')

abbrev placed_at : Append4k → ℕ → Append4k
placed_at m block = record m {
  next_append_sector = m.next_append_sector + m.sectors_per_block;
  addr_mapping = set m.addr_mapping block m.next_append_sector;
}

write_eq :
    (m : Append4k) (s n cell : ℕ)
    → IsValid m
    → write m s n cell ≡ (
        if servable m.nr_logical_blocks m.sectors_per_block s n
        then if ltb m.nr_physical_sectors (m.next_append_sector + m.sectors_per_block)
          then (err Errno.enospc, cell, m)
          else (ok, m.next_append_sector, placed_at m (s / m.sectors_per_block))
        else (err Errno.einval, cell, m))
unfolding write servable
write_eq m s n cell v =
    ground (arith, v.size, v.fits, v.small, get_elem?-some m.addr_mapping (s / m.sectors_per_block))

placed_at-IsValid :
    (m : Append4k) (block : ℕ)
    → IsValid m
    → block < m.nr_logical_blocks
    → m.next_append_sector + m.sectors_per_block ≤ m.nr_physical_sectors
    → IsValid (placed_at m block)
placed_at-IsValid m block v lt room = record {
  size = ground (arith, v.size, length-set m.addr_mapping block m.next_append_sector);
  block_pos = v.block_pos;
  fits = room;
  small = v.small;
  placed =
      IsPlaced-set m.addr_mapping m.sectors_per_block m.next_append_sector block
        (ground (arith, v.size)) v.placed;
}

-- The next sector to append at is never the mark of a hole.
next-ne : (m : Append4k) → IsValid m → m.next_append_sector ≢ unmapped
next-ne m v e = absurd (omega (arith, v.block_pos, v.fits, v.small, e))

placed_at-Written :
    (m : Append4k) (s n cell : ℕ)
    → IsValid m
    → servable m.nr_logical_blocks m.sectors_per_block s n ≡ true
    → m.next_append_sector + m.sectors_per_block ≤ m.nr_physical_sectors
    → Written m s n cell (ok, m.next_append_sector, placed_at m (s / m.sectors_per_block))
unfolding servable read
placed_at-Written m s n cell v h room =
    Written.stored (placed_at m (s / m.sectors_per_block))
      (placed_at-IsValid m (s / m.sectors_per_block) v (ground (arith, h)) room) refl room
      (block_read-set m.addr_mapping m.nr_logical_blocks m.sectors_per_block s n
        m.next_append_sector v.size h (next-ne m v))

-- On a valid map, a write stores the block at the next sector to append at, so that the request
-- reads it back, every other request reads as before and the map stays valid, with the data inside
-- the device; or it changes nothing and fails, with -EINVAL unless the request is for one whole
-- block of the map, and else with -ENOSPC.
pub write-Written :
    (m : Append4k) (s n cell : ℕ) → IsValid m → Written m s n cell (write m s n cell)
write-Written m s n cell v = rw (write_eq m s n cell v) written
  where
    at :
        (b full : Bool)
        → servable m.nr_logical_blocks m.sectors_per_block s n ≡ b
        → ltb m.nr_physical_sectors (m.next_append_sector + m.sectors_per_block) ≡ full
        → Written m s n cell (
            if b
            then if full
              then (err Errno.enospc, cell, m)
              else (ok, m.next_append_sector, placed_at m (s / m.sectors_per_block))
            else (err Errno.einval, cell, m))
    at false full h e = Written.refused Errno.einval (ground (arith, h))
    at true true h e = Written.refused Errno.enospc (ground (arith, h))
    at true false h e = placed_at-Written m s n cell v h (ground (arith, e))

    written : Written m s n cell (
        if servable m.nr_logical_blocks m.sectors_per_block s n
        then if ltb m.nr_physical_sectors (m.next_append_sector + m.sectors_per_block)
          then (err Errno.enospc, cell, m)
          else (ok, m.next_append_sector, placed_at m (s / m.sectors_per_block))
        else (err Errno.einval, cell, m))
    written = at _ _ refl refl

made-read :
    (nr physical block s n cell : ℕ)
    → (read (made nr physical block) s n cell).0
      ≡ (if servable nr block s n then err Errno.enodata else err Errno.einval)
unfolding read servable block_read
made-read nr physical block s n cell = ground (arith, get_elem?-replicate nr (s / block) unmapped)

made-IsValid :
    (nr physical block : ℕ)
    → physical + block < u64_mod
    → 0 < block
    → IsValid (made nr physical block)
made-IsValid nr physical block small pos = record {
  size = length-replicate nr unmapped;
  block_pos = pos;
  fits = omega arith;
  small = small;
  placed = IsPlaced-holes nr block 0;
}

-- A fresh map is valid and has no block: a request for one whole block is answered with -ENODATA and
-- any other one with -EINVAL. (Condition: the device ends one block below the last sector number.)
pub init-IsValid :
    (granted granted_map : Bool) (engine : Ptr Append4k) (logical physical block : ℕ) {m : Append4k}
    → physical + block < u64_mod
    → init granted granted_map engine logical physical block ≡ (ok, some m)
    → IsValid m
      × ((s n cell : ℕ)
          → (read m s n cell).0 ≡ (
              if servable (logical / block) block s n then err Errno.enodata else err Errno.einval))
unfolding init
init-IsValid granted granted_map engine logical physical block {m} small e = ground (
  arith,
  made-IsValid (logical / block) physical block small,
  made-read (logical / block) physical block,
)
